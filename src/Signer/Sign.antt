-- ===== src/Signer/Sign.antt =====
-- internal/kmp/signer.go: `Sign`.
pub mod Laws
use kmp_issuer.Base.{
  Bool, not, ◌&&◌, List, [], ◌++◌, Option, none, some, Result, ok, err, map_err, if◌then◌else◌,
  is_nil, ℤ,
}
use kmp_issuer.Text.{Bytes, codes}
use kmp_issuer.X509.{Certificate, CertificateRequest, Platform}
use kmp_issuer.Errors.{GoError, unusable_response, wrap, error_text}
use kmp_issuer.Chain.Build.{Bundle, build_bundle}
use kmp_issuer.Chain.Request.{parse_csr}
use kmp_issuer.Verify.{verify_requested_names}
use kmp_issuer.Client.Call.{Server, Run, ◌>>=◌, return, throw, lift, map_error}
use kmp_issuer.Client.Csr.{Csr, import_csr}
use kmp_issuer.Client.Sign.{SignResult, sign_csr}
use kmp_issuer.Signer.Options.{Signer, invalid}
use kmp_issuer.Signer.Fetch.{Clock, fetch_certificate}
use kmp_issuer.Signer.Resolve.{Request, csr_common_name, sign_request, resolve_csr_id}

abbrev pub context : Bytes → GoError → GoError
context text e = wrap text e []

-- The name to fetch the certificate with.
abbrev pub fetch_name : SignResult → Csr → CertificateRequest → Bytes
fetch_name result stored csr =
    if not (is_nil result.common_name)
    then result.common_name
    else if not (is_nil stored.common_name)
    then stored.common_name
    else csr.subject.common_name

abbrev pub no_name : GoError
no_name = invalid (
    codes ": key manager plus signed the request but returned neither a common name nor a "
    ++ codes "serial number to fetch it with")

module _ (p : Platform) where
  unfoldable pub read_request : Request → Result GoError CertificateRequest
  read_request req =
      map_err (λ e. invalid (codes ": " ++ error_text (Platform.unicode p) e))
        (parse_csr p req.csr_pem)

  -- The end of `Sign`: the bundle, if its leaf has the names of the request.
  unfoldable pub checked_bundle : CertificateRequest → List Certificate → Result GoError Bundle
  checked_bundle csr certs = elim (build_bundle p certs csr.public_key) [
    | err e ↦ err (
        wrap [] unusable_response
          (codes ": assembling the certificate chain: " ++ error_text (Platform.unicode p) e))
    | ok bundle ↦ elim (verify_requested_names p csr bundle.leaf) [
      | err e ↦ err e
      | ok _ ↦ ok bundle
    ]
  ]

module _ (p : Platform) (srv : Server) (k : Clock srv) (ceil_days : ℤ → ℤ) (s : Signer) where
  unfoldable pub fetch_signed : Bytes → Bytes → Run (Server.State srv) (List Certificate)
  fetch_signed common_name serial_number =
      if is_nil common_name && is_nil serial_number
      then throw no_name
      else map_error (context (codes "fetching the signed certificate: "))
          (fetch_certificate p srv k s common_name serial_number)

  -- `Sign` once the request is signed.
  unfoldable pub complete : CertificateRequest → Csr → SignResult → Run (Server.State srv) Bundle
  complete csr stored result = do
    certs ← fetch_signed (fetch_name result stored csr) result.serial_number
    lift (checked_bundle p csr certs)

  unfoldable pub sign_at : Request → Bytes → Run (Server.State srv) SignResult
  sign_at req csr_id =
      map_error (context (codes "signing the certificate signing request: "))
        (sign_csr p srv s.client (sign_request ceil_days s.opts csr_id req))

  -- `Sign` once the identifier is known.
  unfoldable pub sign_identified :
      Request → CertificateRequest → Csr → Bytes → Run (Server.State srv) Bundle
  sign_identified req csr stored csr_id = do result ← sign_at req csr_id; complete csr stored result

  -- `Sign` once the request is stored.
  unfoldable pub sign_stored : Request → CertificateRequest → Csr → Run (Server.State srv) Bundle
  sign_stored req csr stored = do
    csr_id ← resolve_csr_id p srv s stored (csr_common_name csr)
    sign_identified req csr stored csr_id

  unfoldable pub store : Request → Run (Server.State srv) Csr
  store req =
      map_error (context (codes "importing the certificate signing request: "))
        (import_csr p srv s.client req.csr_pem s.opts.email)

  -- `Sign` once the request is read.
  unfoldable pub sign_csr_of : Request → CertificateRequest → Run (Server.State srv) Bundle
  sign_csr_of req csr = do stored ← store req; sign_stored req csr stored

  unfoldable pub sign : Request → Run (Server.State srv) Bundle
  sign req = do csr ← lift (read_request p req); sign_csr_of req csr
