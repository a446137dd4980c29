-- ===== src/Provision.antt =====
-- internal/kmp/provision.go
pub mod Names
pub mod Covered
pub mod Flow
use kmp_issuer.Base.{ℕ, ℤ, List, Option}
use kmp_issuer.Text.{Bytes}

-- An int32 is an integer in its range.
pub record ProvisionRequest : Type 0 where
  pub common_name : Bytes
  pub alt_names : List Bytes
  pub organization : Bytes
  pub organizational_unit : Bytes
  pub location : Bytes
  pub state : Bytes
  pub country : Bytes
  pub key_algorithm : Bytes
  pub key_length : ℤ
  pub signature_algorithm : Bytes
  pub store_type : Bytes
  pub validity_type : Bytes
  pub validity_days : Option ℤ
  pub password : Bytes
  pub export_file_type : Bytes
