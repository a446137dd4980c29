-- ===== src/Response.antt =====
-- internal/kmp/response.go: a decoded response and the searches through it.
pub mod Keys
pub mod Find
pub mod Collect
pub mod Identify
pub mod Status
