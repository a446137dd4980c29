-- ===== src/Api.antt =====
-- api/v1alpha1: the resources that the controllers read and write.
pub mod Issuers
pub mod Certificates
