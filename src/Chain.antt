-- ===== src/Chain.antt =====
-- internal/kmp/chain.go
pub mod Extract
pub mod Build
pub mod Request
