-- ===== src/Client/Certificate.antt =====
-- internal/kmp/client.go: `GetCertificate` and `Ping`.
pub mod Laws
use kmp_issuer.Base.{
  ℕ, ◌*◌, Bool, true, false, not, ◌&&◌, ◌||◌, List, [], ◌∷◌, Option, none, some, Result, ok, err,
  ltb, if◌then◌else◌, is_nil, map_err,
}
use kmp_issuer.Text.{Bytes, codes, contains, str_eq}
use kmp_issuer.Json.{Fields, end}
use kmp_issuer.X509.{Certificate, Platform}
use kmp_issuer.Errors.{
  ApiError, GoError, plain, api_caused, Found, as_api, is_auth_failure, error_text,
}
use kmp_issuer.Response.Collect.{collect_strings}
use kmp_issuer.Response.Status.{Response, truncated_body, message}
use kmp_issuer.Chain.Extract.{certificates_from_strings}
use kmp_issuer.Client.Call.{
  get, Server, Client, Run, ◌>>=◌, return, throw, lift, failure, is_success, call,
}
use kmp_issuer.Client.Details.{set_field}
use kmp_issuer.Client.Csr.{op_error, encoded}

abbrev pub op_get_certificate : Bytes
op_get_certificate = codes "getCertificate"

-- The details of the request.
unfoldable pub lookup_details : Bytes → Bytes → Fields
lookup_details common_name serial_number =
    set_field (codes "common_name") common_name
      (set_field (codes "serial_number") serial_number end)

abbrev pub unreadable : Response → GoError → GoError
unreadable r e =
    api_caused (record (failure op_get_certificate 0 true) { body = truncated_body r }) e

abbrev pub carries_none : Platform → Response → GoError
carries_none p r =
    api_caused
      (record (failure op_get_certificate 0 false) {
        message = message (Platform.unicode p) r;
        body = truncated_body r;
      })
      (plain (codes "the response carries no certificate"))

abbrev pub some_certificates :
    Platform → Response → List Certificate → Result GoError (List Certificate)
some_certificates p r [] = err (carries_none p r)
some_certificates p r (cert ∷ certs) = ok (cert ∷ certs)

-- What `GetCertificate` makes of a response.
unfoldable pub certificates_in : Platform → Response → Result GoError (List Certificate)
certificates_in p r = elim (certificates_from_strings p (collect_strings r.doc)) [
  | err e ↦ err (unreadable r e)
  | ok certs ↦ some_certificates p r certs
]

abbrev pub probe_name : Bytes
probe_name = codes "kmp-issuer-connectivity-probe.invalid"

-- The tests of `Ping` on an `*Error` in the chain.
unfoldable pub tolerates : Platform → Found → Bool
tolerates p f =
    if is_success f.call.status_code
      && (str_eq f.call.op op_get_certificate && elim f.cause [
        | none ↦ false
        | some e ↦ contains (error_text (Platform.unicode p) e) (codes "no certificate")
      ])
    then true
    else is_success f.call.status_code && not (is_nil f.call.api_status)

-- What `Ping` makes of the error of `GetCertificate`.
unfoldable pub ping_error : Platform → GoError → Result GoError (Unit {0})
ping_error p e =
    if is_auth_failure (Platform.unicode p) e
    then err e
    else elim (as_api e) [ none ↦ err e | some f ↦ if tolerates p f then ok tt else err e ]

abbrev pub ping_result : Platform → Result GoError (List Certificate) → Result GoError (Unit {0})
ping_result p (ok certs) = ok tt
ping_result p (err e) = ping_error p e

module _ (p : Platform) (srv : Server) (c : Client) where
  unfoldable pub get_certificate : Bytes → Bytes → Run (Server.State srv) (List Certificate)
  get_certificate common_name serial_number =
      if is_nil common_name && is_nil serial_number
      then throw (
          op_error op_get_certificate true
            (plain (codes "neither common name nor serial number is known")))
      else (do
        input ← lift (encoded p op_get_certificate (lookup_details common_name serial_number))
        parsed ← call p srv c get op_get_certificate (some input) none []
        lift (certificates_in p parsed))

  unfoldable pub ping : Run (Server.State srv) (Unit {0})
  ping s = let (r, t) = get_certificate probe_name [] s in (ping_result p r, t)
