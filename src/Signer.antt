-- ===== src/Signer.antt =====
-- internal/kmp/signer.go: the options of an issuer, the signing of a request and the polling for
-- the certificate.
pub mod Options
pub mod Fetch
pub mod Resolve
pub mod Sign
