-- ===== src/Cluster/Access.antt =====
-- The accesses of the controllers to the API of the cluster, and the libraries that they call.
use kmp_issuer.Base.{Bool, List, Option, Result, ℤ, ◌++◌}
use kmp_issuer.Text.{Bytes, codes}
use kmp_issuer.X509.{Certificate}
use kmp_issuer.Api.Issuers.{KmpIssuer, KmpClusterIssuer}
use kmp_issuer.Api.Certificates.{KmpCertificate, KmpCertificateStatus}
use kmp_issuer.Cluster.Data.{SecretData}

-- A `types.NamespacedName`: the namespace and the name.
pub record NamespacedName : Type 0 where
  pub namespace : Bytes
  pub name : Bytes

-- `name.String()`
abbrev pub name_text : NamespacedName → Bytes
name_text n = n.namespace ++ codes "/" ++ n.name

-- An error of the API, by its text, and whether `apierrors.IsNotFound` accepts it.
pub data ApiFailure : Type 0 where
  not_found : Bytes → ApiFailure
  other_failure : Bytes → ApiFailure

abbrev pub failure_text : ApiFailure → Bytes
failure_text (not_found text) = text
failure_text (other_failure text) = text

-- A `corev1.Secret`, with the name of its controlling owner.
pub record Secret : Type 0 where
  pub namespace : Bytes
  pub name : Bytes
  pub secret_type : Bytes
  pub contents : SecretData
  pub owner : Option Bytes

pub data EventType : Type 0 where
  normal warning : EventType

-- The API of the cluster, from state to state: others may change the cluster between two accesses.
pub record Cluster (S : Type 0) : Type 0 where
  pub get_certificate : NamespacedName → S → Result ApiFailure KmpCertificate × S
  pub get_issuer : NamespacedName → S → Result ApiFailure KmpIssuer × S
  pub get_cluster_issuer : Bytes → S → Result ApiFailure KmpClusterIssuer × S
  pub get_secret : NamespacedName → S → Result ApiFailure Secret × S
  -- `controllerutil.CreateOrUpdate` of the Secret of a name, with the function that fills it.
  pub create_or_update :
      NamespacedName → (Secret → Result Bytes Secret) → S → Result Bytes (Unit {0}) × S
  pub update_status : KmpCertificate → S → Result Bytes (Unit {0}) × S
  -- `r.Recorder.Event`
  pub event : EventType → Bytes → Bytes → S → S
  -- `rand.Read` of a buffer of 24 bytes.
  pub random : S → Result Bytes Bytes × S

-- The functions of cert-manager's `pki`, of controller-runtime, of `encoding/base64` and of `time`
-- that the controllers call, and `equality.Semantic` of apimachinery. Errors are their texts.
pub record Library : Type 0 where
  -- `pki.ParseSingleCertificateChainPEM`: the chain and the CA.
  pub split_chain : Bytes → Result Bytes (Bytes × Bytes)
  -- `pki.DecodeX509CertificateChainBytes`
  pub decode_chain : Bytes → Result Bytes (List Certificate)
  -- `controllerutil.SetControllerReference`
  pub set_owner : KmpCertificate → Secret → Result Bytes Secret
  -- `equality.Semantic.DeepEqual`
  pub deep_equal : KmpCertificateStatus → KmpCertificateStatus → Bool
  -- `base64.RawURLEncoding.EncodeToString`
  pub base64_url : Bytes → Bytes
  -- `t.Format(time.RFC3339)`
  pub rfc3339 : ℤ → Bytes
