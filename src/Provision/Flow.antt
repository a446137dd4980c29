-- ===== src/Provision/Flow.antt =====
-- internal/kmp/provision.go: `Provision`.
pub mod Laws
use kmp_issuer.Base.{
  Bool, true, false, not, List, [], ◌++◌, Option, none, some, Result, ok, err, map_err,
  if◌then◌else◌, is_nil, ℤ, pos,
}
use kmp_issuer.Text.{Bytes, codes, trim_space}
use kmp_issuer.X509.{Certificate, Platform}
use kmp_issuer.Errors.{GoError, unusable_response, wrap, error_text}
use kmp_issuer.Chain.Build.{Bundle, build_bundle}
use kmp_issuer.PrivateKey.Pem.{Key, KeyPlatform}
use kmp_issuer.PrivateKey.Export.{EscrowedKey, parse_exported_private_key, matches_certificate}
use kmp_issuer.Client.Call.{Server, Run, ◌>>=◌, return, throw, lift, map_error}
use kmp_issuer.Client.Csr.{Csr, create_csr, export_csr}
use kmp_issuer.Client.Details.{CreateCsrRequest}
use kmp_issuer.Client.Sign.{SignResult, sign_csr}
use kmp_issuer.Signer.Options.{Signer, invalid}
use kmp_issuer.Signer.Fetch.{Clock, fetch_certificate}
use kmp_issuer.Signer.Resolve.{sign_request, resolve_csr_id}
use kmp_issuer.Signer.Sign.{context}
use kmp_issuer.Provision.{ProvisionRequest}
use kmp_issuer.Provision.Names.{verify_provisioned_names}

pub record ProvisionedCertificate : Type 0 where
  pub bundle : Bundle
  pub private_key_pem : Bytes
  pub csr_id : Bytes
  pub serial_number : Bytes

unfoldable pub create_request : ProvisionRequest → CreateCsrRequest
create_request req = record {
  common_name = req.common_name;
  alt_names = req.alt_names;
  organization = req.organization;
  organizational_unit = req.organizational_unit;
  location = req.location;
  state = req.state;
  country = req.country;
  password = req.password;
  key_algorithm = req.key_algorithm;
  key_length = req.key_length;
  signature_algorithm = req.signature_algorithm;
  store_type = req.store_type;
  validity_type = req.validity_type;
  validity_days = req.validity_days;
}

abbrev pub unusable : Bytes → GoError
unusable text = wrap [] unusable_response text

module _ (p : Platform) (q : KeyPlatform) where
  unfoldable pub read_key : ProvisionRequest → Bytes → Result GoError EscrowedKey
  read_key req exported =
      map_err
        (λ e.
          unusable
            (codes ": reading the exported private key: " ++ error_text (Platform.unicode p) e))
        (parse_exported_private_key p q exported req.password)

  -- The bundle, if the key belongs to its leaf and the leaf has the names.
  unfoldable pub matched_bundle :
      ProvisionRequest → List Certificate → EscrowedKey → Result GoError Bundle
  matched_bundle req certs private_key = elim (build_bundle p certs private_key.key.public_key) [
    | err e ↦ err (
        unusable
          (codes ": assembling the certificate chain: " ++ error_text (Platform.unicode p) e))
    | ok bundle ↦
        if not (matches_certificate private_key.key bundle.leaf)
        then err (
            unusable (codes ": the exported private key does not belong to the issued certificate"))
        else elim (verify_provisioned_names p req bundle.leaf) [ err e ↦ err e | ok _ ↦ ok bundle ]
  ]

  -- `Provision` once the key is exported.
  unfoldable pub assemble :
      ProvisionRequest
      → Bytes
      → SignResult
      → List Certificate
      → Bytes
      → Result GoError ProvisionedCertificate
  assemble req csr_id result certs exported = elim (read_key req exported) [
    | err e ↦ err e
    | ok private_key ↦ elim (matched_bundle req certs private_key) [
      | err e ↦ err e
      | ok bundle ↦ ok (record {
        bundle = bundle;
        private_key_pem = private_key.pem;
        csr_id = csr_id;
        serial_number = result.serial_number;
      })
    ]
  ]

abbrev pub fetched_name : ProvisionRequest → SignResult → Bytes
fetched_name req result = if is_nil result.common_name then req.common_name else result.common_name

module _ (p : Platform) (q : KeyPlatform) (srv : Server) (k : Clock srv) (ceil_days : ℤ → ℤ)
    (s : Signer) where
  unfoldable pub export_key : ProvisionRequest → Bytes → Run (Server.State srv) Bytes
  export_key req csr_id =
      map_error (context (codes "exporting the private key: "))
        (export_csr p srv s.client csr_id req.export_file_type)

  -- `Provision` once the certificate is fetched.
  unfoldable pub provision_fetched :
      ProvisionRequest
      → Bytes
      → SignResult
      → List Certificate
      → Run (Server.State srv) ProvisionedCertificate
  provision_fetched req csr_id result certs = do
    exported ← export_key req csr_id
    lift (assemble p q req csr_id result certs exported)

  -- `Provision` once the request is signed.
  unfoldable pub provision_signed :
      ProvisionRequest → Bytes → SignResult → Run (Server.State srv) ProvisionedCertificate
  provision_signed req csr_id result = do
    certs ←
        map_error (context (codes "fetching the signed certificate: "))
          (fetch_certificate p srv k s (fetched_name req result) result.serial_number)
    provision_fetched req csr_id result certs

  -- `Provision` once the identifier is known.
  unfoldable pub provision_identified :
      ProvisionRequest → Bytes → Run (Server.State srv) ProvisionedCertificate
  provision_identified req csr_id = do
    result ← map_error (context (codes "signing the certificate signing request: ")) (
        sign_csr p srv s.client (
          sign_request ceil_days s.opts csr_id
            (record { csr_pem = []; duration = pos 0; is_ca = false })))
    provision_signed req csr_id result

  unfoldable pub provision_stored :
      ProvisionRequest → Csr → Run (Server.State srv) ProvisionedCertificate
  provision_stored req stored = do
    csr_id ← resolve_csr_id p srv s stored req.common_name
    provision_identified req csr_id

  unfoldable pub create_stored : ProvisionRequest → Run (Server.State srv) Csr
  create_stored req =
      map_error (context (codes "creating the certificate signing request: "))
        (create_csr p srv s.client (create_request req))

  unfoldable pub provision : ProvisionRequest → Run (Server.State srv) ProvisionedCertificate
  provision req =
      if is_nil (trim_space req.common_name)
      then throw (invalid (codes ": the request has no common name"))
      else if is_nil req.password
      then throw (invalid (codes ": no password to protect the key Key Manager Plus generates"))
      else (do stored ← create_stored req; provision_stored req stored)
