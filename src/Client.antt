-- ===== src/Client.antt =====
-- internal/kmp/client.go and internal/kmp/create.go: the client of the REST API.
pub mod Call
pub mod Config
pub mod Details
pub mod Csr
pub mod Sign
pub mod Certificate
