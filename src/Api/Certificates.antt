-- ===== src/Api/Certificates.antt =====
-- api/v1alpha1/kmpcertificate_types.go, with the `Condition` of Kubernetes that its status holds.
use kmp_issuer.Base.{ℕ, Bool, List, Option, ℤ}
use kmp_issuer.Text.{Bytes, codes}

abbrev pub condition_ready : Bytes
condition_ready = codes "Ready"

abbrev pub key_store_password_secret_key : Bytes
key_store_password_secret_key = codes "keystore-password"

pub record IssuerReference : Type 0 where
  pub name : Bytes
  pub kind : Bytes

pub record CertificateSubject : Type 0 where
  pub organization : Bytes
  pub organizational_unit : Bytes
  pub locality : Bytes
  pub province : Bytes
  pub country : Bytes

-- An int32 is an integer in its range.
pub record PrivateKeySpec : Type 0 where
  pub algorithm : Bytes
  pub size : Option ℤ
  pub signature_algorithm : Bytes
  pub store_type : Bytes

pub record SecretKeySelector : Type 0 where
  pub name : Bytes
  pub key : Bytes

-- Durations are nanoseconds.
pub record KmpCertificateSpec : Type 0 where
  pub secret_name : Bytes
  pub issuer_ref : IssuerReference
  pub common_name : Bytes
  pub dns_names : List Bytes
  pub ip_addresses : List Bytes
  pub subject : CertificateSubject
  pub private_key : PrivateKeySpec
  pub validity_days : Option ℤ
  pub validity_type : Bytes
  pub renew_before : Option ℤ
  pub key_store_password_secret_ref : Option SecretKeySelector

pub data ConditionStatus : Type 0 where
  condition_true condition_false condition_unknown : ConditionStatus

-- A `metav1.Condition`. Times are nanoseconds.
pub record Condition : Type 0 where
  pub condition_type : Bytes
  pub status : ConditionStatus
  pub observed_generation : ℤ
  pub last_transition_time : ℕ
  pub reason : Bytes
  pub message : Bytes

pub record KmpCertificateStatus : Type 0 where
  pub conditions : List Condition
  pub serial_number : Bytes
  pub csr_id : Bytes
  pub not_before : Option ℤ
  pub not_after : Option ℤ
  pub renewal_time : Option ℤ

-- A `KMPCertificate`, with what the controller reads of its metadata.
pub record KmpCertificate : Type 0 where
  pub namespace : Bytes
  pub name : Bytes
  pub generation : ℤ
  pub is_deleted : Bool
  pub spec : KmpCertificateSpec
  pub status : KmpCertificateStatus
