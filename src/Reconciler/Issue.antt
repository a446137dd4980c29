-- ===== src/Reconciler/Issue.antt =====
-- internal/controllers/kmpcertificate_controller.go: `resolveIssuer`, `writeSecret` and `issue`.
pub mod Laws
pub mod Trace
pub mod Keys
pub mod Fresh
pub mod Credentials
use kmp_issuer.Base.{
  Bool, true, false, List, [], ◌++◌, Option, none, some, Result, ok, err, map_err, if◌then◌else◌,
  is_nil, pos,
}
use kmp_issuer.Text.{Bytes, codes, Unicode, str_eq}
use kmp_issuer.X509.{Platform}
use kmp_issuer.Errors.{GoError, plain, wrap, unusable_response}
use kmp_issuer.Chain.Build.{Bundle}
use kmp_issuer.Api.Issuers.{IssuerSpec}
use kmp_issuer.Api.Certificates.{
  KmpCertificate, KmpCertificateStatus, key_store_password_secret_key,
}
use kmp_issuer.Cluster.Data.{SecretData, set_key}
use kmp_issuer.Cluster.Access.{
  NamespacedName, name_text, ApiFailure, failure_text, Secret, Cluster, Library,
}
use kmp_issuer.Cluster.Builders.{Builders}
use kmp_issuer.Client.Call.{Run, ◌>>=◌, return, throw, lift}
use kmp_issuer.Signer.Options.{invalid}
use kmp_issuer.Provision.Flow.{ProvisionedCertificate, unusable}
use kmp_issuer.IssuerController.{auth_secret_failure, auth_name, flattened, err_signer_builder}
use kmp_issuer.Reconciler.{Reconciler}
use kmp_issuer.Reconciler.Renewal.{renewal_time}
use kmp_issuer.Reconciler.Spec.{provision_request}
use kmp_issuer.Reconciler.Need.{tls_cert_key, tls_private_key_key, secret_name}
use kmp_issuer.Reconciler.Password.{stepped, key_store_password}

abbrev pub kind_issuer : Bytes
kind_issuer = codes "KMPIssuer"

abbrev pub kind_cluster_issuer : Bytes
kind_cluster_issuer = codes "KMPClusterIssuer"

-- `corev1.SecretTypeTLS`
abbrev pub secret_type_tls : Bytes
secret_type_tls = codes "kubernetes.io/tls"

abbrev pub tls_ca_key : Bytes
tls_ca_key = codes "ca.crt"

abbrev pub kind_of : KmpCertificate → Bytes
kind_of certificate =
    if is_nil certificate.spec.issuer_ref.kind
    then kind_issuer
    else certificate.spec.issuer_ref.kind

-- What is written to a Secret: the chain, the CA if there is one, the key, and the password if it
-- was generated.
pub record Material : Type 0 where
  pub chain_pem : Bytes
  pub ca_pem : Bytes
  pub key_pem : Bytes
  pub password : Bytes
  pub generated : Bool

-- The data of the Secret, from those that it has.
unfoldable pub filled_data : Material → SecretData → SecretData
filled_data m old =
    let with_key = set_key tls_private_key_key m.key_pem (set_key tls_cert_key m.chain_pem old) in
    let with_ca = if is_nil m.ca_pem then with_key else set_key tls_ca_key m.ca_pem with_key in
    if m.generated then set_key key_store_password_secret_key m.password with_ca else with_ca

unfoldable pub fill_secret : Library → KmpCertificate → Material → Secret → Result Bytes Secret
fill_secret l certificate m secret =
    Library.set_owner l certificate
      (record secret { secret_type = secret_type_tls; contents = filled_data m secret.contents })

abbrev pub issuer_failure : NamespacedName → ApiFailure → GoError
issuer_failure name e =
    wrap (codes "getting KMPIssuer " ++ name_text name ++ codes ": ") (plain (failure_text e)) []

-- The name of a cluster scoped issuer has no namespace.
abbrev pub cluster_issuer_failure : Bytes → ApiFailure → GoError
cluster_issuer_failure name e =
    wrap (codes "getting KMPClusterIssuer /" ++ name ++ codes ": ") (plain (failure_text e)) []

abbrev pub writing_failure : KmpCertificate → Bytes → GoError
writing_failure certificate e =
    wrap (codes "writing secret " ++ name_text (secret_name certificate) ++ codes ": ") (plain e) []

module _ {S : Type 0} (r : Reconciler S) where
  unfoldable pub get_issuer_spec : NamespacedName → Run S (IssuerSpec × Bytes)
  get_issuer_spec name = do
    issuer ← stepped (issuer_failure name) (Cluster.get_issuer (Reconciler.cluster r) name)
    return (issuer.spec, issuer.namespace)

  unfoldable pub get_cluster_issuer_spec : Bytes → Run S (IssuerSpec × Bytes)
  get_cluster_issuer_spec name = do
    issuer ←
        stepped (cluster_issuer_failure name)
          (Cluster.get_cluster_issuer (Reconciler.cluster r) name)
    return (issuer.spec, Reconciler.cluster_resource_namespace r)

  unfoldable pub resolve_issuer : KmpCertificate → Run S (IssuerSpec × Bytes)
  resolve_issuer certificate =
      if str_eq (kind_of certificate) kind_issuer
      then get_issuer_spec
          (record { namespace = certificate.namespace; name = certificate.spec.issuer_ref.name })
      else if str_eq (kind_of certificate) kind_cluster_issuer
      then get_cluster_issuer_spec certificate.spec.issuer_ref.name
      else throw (
          invalid (
            codes ": unknown issuer kind "
            ++ Unicode.quote (Platform.unicode (Reconciler.platform r)) (kind_of certificate)))

  unfoldable pub write_secret : KmpCertificate → Material → Run S (Unit {0})
  write_secret certificate m = stepped (writing_failure certificate) (
      Cluster.create_or_update (Reconciler.cluster r) (secret_name certificate)
        (fill_secret (Reconciler.library r) certificate m))

  -- The status of an issued certificate.
  unfoldable pub issued_status : KmpCertificate → ProvisionedCertificate → KmpCertificateStatus
  issued_status certificate provisioned =
      let leaf = provisioned.bundle.leaf in
      record certificate.status {
        serial_number = provisioned.serial_number;
        csr_id = provisioned.csr_id;
        not_before = some (pos leaf.not_before);
        not_after = some (pos leaf.not_after);
        renewal_time = some (renewal_time leaf certificate.spec.renew_before);
      }

  unfoldable pub split_bundle : ProvisionedCertificate → Result GoError (Bytes × Bytes)
  split_bundle provisioned =
      map_err (λ e. unusable (codes ": splitting the certificate chain: " ++ e))
        (Library.split_chain (Reconciler.library r) provisioned.bundle.chain_pem)

  -- `issue` once the certificate is provisioned.
  unfoldable pub store_provisioned :
      KmpCertificate → Bytes → Bool → ProvisionedCertificate → Run S KmpCertificateStatus
  store_provisioned certificate password generated provisioned = do
    (chain_pem, ca_pem) ← lift (split_bundle provisioned)
    _ ← write_secret certificate (record {
      chain_pem = chain_pem;
      ca_pem = ca_pem;
      key_pem = provisioned.private_key_pem;
      password = password;
      generated = generated;
    })
    return (issued_status certificate provisioned)

  -- `issue` once the password is known.
  unfoldable pub issue_protected :
      KmpCertificate → IssuerSpec → SecretData → Bytes × Bool → Run S KmpCertificateStatus
  issue_protected certificate spec auth_data (password, generated) = do
    provisioner ← lift (
        map_err (flattened (Platform.unicode (Reconciler.platform r)) err_signer_builder)
          (Builders.provisioner (Reconciler.builders r) spec auth_data))
    provisioned ← provisioner (provision_request certificate.spec password)
    store_provisioned certificate password generated provisioned

  unfoldable pub issue_authorized :
      KmpCertificate → IssuerSpec → Secret → Run S KmpCertificateStatus
  issue_authorized certificate spec auth_secret = do
    protection ← key_store_password r certificate
    issue_protected certificate spec auth_secret.contents protection

  unfoldable pub issue_from : KmpCertificate → IssuerSpec × Bytes → Run S KmpCertificateStatus
  issue_from certificate (spec, issuer_namespace) = do
    auth_secret ←
        stepped (auth_secret_failure (auth_name spec issuer_namespace))
          (Cluster.get_secret (Reconciler.cluster r) (auth_name spec issuer_namespace))
    issue_authorized certificate spec auth_secret

  -- `issue`: the status of the certificate that it leaves where it returns no error.
  unfoldable pub issue : KmpCertificate → Run S KmpCertificateStatus
  issue certificate = do issuer ← resolve_issuer certificate; issue_from certificate issuer
