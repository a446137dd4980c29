-- ===== src/PrivateKey.antt =====
-- internal/kmp/privatekey.go: the private key in what exportCSR returns.
pub mod Pem
pub mod Export
