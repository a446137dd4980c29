-- ===== src/Signer/Resolve.antt =====
-- internal/kmp/signer.go: `resolveCSRID`, `signRequest` and `csrCommonName`.
pub mod Laws
use kmp_issuer.Base.{
  Bool, true, false, not, ◌&&◌, List, [], ◌∷◌, ◌++◌, Option, none, some, Result, ok, err,
  if◌then◌else◌, is_nil, ℤ, pos, ltz,
}
use kmp_issuer.Text.{Bytes, codes, str_eq}
use kmp_issuer.X509.{CertificateRequest, Platform}
use kmp_issuer.Errors.{GoError, wrap}
use kmp_issuer.Client.Call.{Server, Run, return, throw, map_error}
use kmp_issuer.Client.Details.{SignRequest, default_sign_type, sign_type_with_root}
use kmp_issuer.Client.Csr.{Csr, find_csr_id}
use kmp_issuer.Signer.Options.{Signer, SigningOptions, invalid}

-- The duration in nanoseconds.
pub record Request : Type 0 where
  pub csr_pem : Bytes
  pub duration : ℤ
  pub is_ca : Bool

abbrev pub first_or_empty : List Bytes → Bytes
first_or_empty [] = []
first_or_empty (name ∷ names) = name

unfoldable pub csr_common_name : CertificateRequest → Bytes
csr_common_name csr =
    if not (is_nil csr.subject.common_name)
    then csr.subject.common_name
    else first_or_empty csr.dns_names

module _ (ceil_days : ℤ → ℤ) where
  -- `days := int32(math.Ceil(d.Hours() / 24))`, at least 1, where `ceil_days` stands for the
  -- arithmetic on floating-point numbers.
  unfoldable pub days_of : ℤ → ℤ
  days_of d = let days = ceil_days d in if ltz days (pos 1) then pos 1 else days

  abbrev pub validity_hint : Option ℤ → ℤ → Option ℤ
  validity_hint (some days) d = some days
  validity_hint none d = if ltz (pos 0) d then some (days_of d) else none

  abbrev pub intermediate_hint : Option Bool → Bool → Option Bool
  intermediate_hint (some b) is_ca = some b
  intermediate_hint none is_ca = if is_ca then some true else none

  unfoldable pub sign_request : SigningOptions → Bytes → Request → SignRequest
  sign_request o csr_id req =
      let sign_req : SignRequest = record {
        csr_id = csr_id;
        sign_type = default_sign_type o.sign_type;
        server_name = o.server_name;
        ca_name = o.ca_name;
        template_name = o.template_name;
        agent_name = o.agent_name;
        agent_response_timeout_seconds = o.agent_response_timeout_seconds;
        root_certificate_common_name = o.root_certificate_common_name;
        root_certificate_serial_number = o.root_certificate_serial_number;
        validity_days = o.validity_days;
        is_intermediate = o.is_intermediate;
      } in
      if not (str_eq sign_req.sign_type sign_type_with_root) then sign_req else record sign_req {
        validity_days = validity_hint o.validity_days req.duration;
        is_intermediate = intermediate_hint o.is_intermediate req.is_ca;
      }

module _ (p : Platform) (srv : Server) where
  abbrev pub no_lookup : Csr → GoError
  no_lookup stored = invalid (
      codes ": key manager plus accepted the request but reported no CSR id, "
      ++ codes
          "which signCSR needs. Set signing.csrLookupOperation to the operation that lists CSRs on this "
      ++ codes "build so the id can be looked up by common name. The import response was: "
      ++ stored.response)

  unfoldable pub resolve_csr_id : Signer → Csr → Bytes → Run (Server.State srv) Bytes
  resolve_csr_id s stored fallback =
      if not (is_nil stored.id)
      then return stored.id
      else if is_nil s.opts.csr_lookup_operation
      then throw (no_lookup stored)
      else map_error
          (λ e. wrap (codes "looking up the id of the imported certificate signing request: ") e [])
          (find_csr_id p srv s.client s.opts.csr_lookup_operation
            (if is_nil stored.common_name then fallback else stored.common_name))
