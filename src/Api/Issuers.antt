-- ===== src/Api/Issuers.antt =====
-- api/v1alpha1/kmpissuer_types.go and api/v1alpha1/kmpclusterissuer_types.go.
use kmp_issuer.Base.{Bool, Option, ℤ}
use kmp_issuer.Text.{Bytes, codes}

abbrev pub auth_secret_token_key : Bytes
auth_secret_token_key = codes "authtoken"

abbrev pub auth_secret_ca_bundle_key : Bytes
auth_secret_ca_bundle_key = codes "ca.crt"

-- An int32 is an integer in its range, a `SignType` its text.
pub record SigningSpec : Type 0 where
  pub sign_type : Bytes
  pub server_name : Bytes
  pub ca_name : Bytes
  pub template_name : Bytes
  pub agent_name : Bytes
  pub agent_response_timeout_seconds : Option ℤ
  pub root_certificate_common_name : Bytes
  pub root_certificate_serial_number : Bytes
  pub validity_days : Option ℤ
  pub is_intermediate : Option Bool
  pub email : Bytes
  pub csr_lookup_operation : Bytes

-- Durations are nanoseconds.
pub record IssuerSpec : Type 0 where
  pub url : Bytes
  pub auth_secret_name : Bytes
  pub signing : SigningSpec
  pub insecure_skip_tls_verify : Bool
  pub request_timeout : Option ℤ

-- A `KMPIssuer`, without its status, which the library that runs the issuers keeps.
pub record KmpIssuer : Type 0 where
  pub namespace : Bytes
  pub name : Bytes
  pub spec : IssuerSpec

-- A `KMPClusterIssuer`, which stands in no namespace.
pub record KmpClusterIssuer : Type 0 where
  pub name : Bytes
  pub spec : IssuerSpec
