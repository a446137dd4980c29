-- ===== src/Adapter.antt =====
-- internal/signer/kmp.go: the signer of an issuer, from its spec and its credentials.
pub mod Laws
use kmp_issuer.Base.{
  ℕ, List, [], ◌∷◌, ◌++◌, Bool, true, false, Option, none, some, Result, ok, err, map_ok,
  if◌then◌else◌, is_nil, ℤ, pos,
}
use kmp_issuer.Text.{Bytes, codes, Unicode, trim_space}
use kmp_issuer.X509.{Platform}
use kmp_issuer.Errors.{GoError, error_text}
use kmp_issuer.Api.Issuers.{
  SigningSpec, IssuerSpec, auth_secret_token_key, auth_secret_ca_bundle_key,
}
use kmp_issuer.Cluster.Data.{SecretData, get_or_empty}
use kmp_issuer.Cluster.Builders.{
  CertificateDetails, HealthChecker, CertificateSigner, Provisioner, Builders,
}
use kmp_issuer.Chain.Build.{Bundle}
use kmp_issuer.PrivateKey.Pem.{KeyPlatform}
use kmp_issuer.Client.Call.{Client, Server, Run, ◌>>=◌, return}
use kmp_issuer.Client.Config.{Config, Net, new_client}
use kmp_issuer.Client.Certificate.{ping}
use kmp_issuer.Signer.Options.{SigningOptions, Signer, new_signer, invalid}
use kmp_issuer.Signer.Fetch.{Clock}
use kmp_issuer.Signer.Sign.{sign}
use kmp_issuer.Provision.{ProvisionRequest}
use kmp_issuer.Provision.Flow.{ProvisionedCertificate, provision}

-- The `kmpSigner` of the source, which is the health checker, the signer and the provisioner.
pub record KmpSigner : Type 0 where
  pub client : Client
  pub signer : Signer

abbrev pub user_agent : Bytes
user_agent = codes "kmp-issuer"

unfoldable pub signing_options : IssuerSpec → SigningOptions
signing_options spec = record {
  sign_type = spec.signing.sign_type;
  server_name = spec.signing.server_name;
  ca_name = spec.signing.ca_name;
  template_name = spec.signing.template_name;
  agent_name = spec.signing.agent_name;
  agent_response_timeout_seconds = spec.signing.agent_response_timeout_seconds;
  root_certificate_common_name = spec.signing.root_certificate_common_name;
  root_certificate_serial_number = spec.signing.root_certificate_serial_number;
  validity_days = spec.signing.validity_days;
  is_intermediate = spec.signing.is_intermediate;
  email = spec.signing.email;
  csr_lookup_operation = spec.signing.csr_lookup_operation;
}

abbrev pub duration_or_zero : Option ℤ → ℤ
duration_or_zero none = pos 0
duration_or_zero (some d) = d

unfoldable pub request_timeout : IssuerSpec → ℤ
request_timeout spec = duration_or_zero spec.request_timeout

abbrev pub no_token : Unicode → GoError
no_token u = invalid (
    codes ": the auth Secret has no non-empty "
    ++ Unicode.quote u auth_secret_token_key
    ++ codes " key")

unfoldable pub client_config : IssuerSpec → SecretData → Bytes → Config
client_config spec secret_data auth_token = record {
  base_url = spec.url;
  auth_token = auth_token;
  ca_bundle = get_or_empty auth_secret_ca_bundle_key secret_data;
  insecure_skip_tls_verify = spec.insecure_skip_tls_verify;
  timeout = request_timeout spec;
  user_agent = user_agent;
  transport = none;
}

-- The signer for a token that is not empty.
unfoldable pub signer_with_token :
    Unicode → Net → IssuerSpec → SecretData → Bytes → Result GoError KmpSigner
signer_with_token u n spec secret_data auth_token =
    elim (new_client u n (client_config spec secret_data auth_token)) [
      | err e ↦ err (invalid (codes ": " ++ error_text u e))
      | ok client ↦ elim (new_signer u (some client) (signing_options spec)) [
        | err e ↦ err e
        | ok inner ↦ ok (record { client = client; signer = inner })
      ]
    ]

-- `signerFromIssuerAndSecretData`. A nil spec is `none`.
unfoldable pub signer_from_issuer :
    Unicode → Net → Option IssuerSpec → SecretData → Result GoError KmpSigner
signer_from_issuer u n none secret_data = err (invalid (codes ": no issuer spec"))
signer_from_issuer u n (some spec) secret_data =
    let auth_token = trim_space (get_or_empty auth_secret_token_key secret_data) in
    if is_nil auth_token
    then err (no_token u)
    else signer_with_token u n spec secret_data auth_token

module _ (p : Platform) (srv : Server) (k : Clock srv) (ceil_days : ℤ → ℤ) (o : KmpSigner) where
  unfoldable pub check : Run (Server.State srv) (Unit {0})
  check = ping p srv o.client

  unfoldable pub sign_certificate : CertificateDetails → Run (Server.State srv) Bytes
  sign_certificate details = do
    bundle ←
        sign p srv k ceil_days o.signer
          (record { csr_pem = details.csr; duration = details.duration; is_ca = details.is_ca })
    return bundle.chain_pem

  unfoldable pub provision_key :
      KeyPlatform → ProvisionRequest → Run (Server.State srv) ProvisionedCertificate
  provision_key q req = provision p q srv k ceil_days o.signer req

-- The three functions that return a `kmpSigner` as one of the interfaces.
module _ (p : Platform) (q : KeyPlatform) (n : Net) (srv : Server) (k : Clock srv)
    (ceil_days : ℤ → ℤ) where
  unfoldable pub health_checker_from_issuer :
      IssuerSpec → SecretData → Result GoError (HealthChecker (Server.State srv))
  health_checker_from_issuer spec secret_data =
      map_ok (check p srv k ceil_days)
        (signer_from_issuer (Platform.unicode p) n (some spec) secret_data)

  unfoldable pub certificate_signer_from_issuer :
      IssuerSpec → SecretData → Result GoError (CertificateSigner (Server.State srv))
  certificate_signer_from_issuer spec secret_data =
      map_ok (sign_certificate p srv k ceil_days)
        (signer_from_issuer (Platform.unicode p) n (some spec) secret_data)

  unfoldable pub provisioner_from_issuer :
      IssuerSpec → SecretData → Result GoError (Provisioner (Server.State srv))
  provisioner_from_issuer spec secret_data =
      map_ok (λ o. provision_key p srv k ceil_days o q)
        (signer_from_issuer (Platform.unicode p) n (some spec) secret_data)

  -- The builders that cmd/main.go gives to the controllers.
  unfoldable pub builders : Builders (Server.State srv)
  builders = record {
    health_checker = health_checker_from_issuer;
    signer = certificate_signer_from_issuer;
    provisioner = provisioner_from_issuer;
  }
