-- ===== src/Client/Certificate/Laws/Probe.antt =====
-- When `Ping` succeeds, and an answer that it should accept and refuses.
use kmp_issuer.Base.{ℕ, ◌≡◌, refl, ap, ◌∙◌, inl, inr, [], none, some, Bool-cases, ok, err}
use kmp_issuer.Text.{Bytes}
use kmp_issuer.X509.{Platform}
use kmp_issuer.Errors.{as_api, is_auth_failure}
use kmp_issuer.Chain.Extract.{certificates_from_strings}
use kmp_issuer.Response.Collect.{collect_strings}
use kmp_issuer.Response.Status.{Response}
use kmp_issuer.Client.Call.{get, Server, Client, answered, limited, call_result, request_of, call}
use kmp_issuer.Client.Call.Runs.{asked_result, call_answered}
use kmp_issuer.Client.Csr.{encoded}
use kmp_issuer.Client.Certificate.{
  op_get_certificate, lookup_details, carries_none, certificates_in, get_certificate, probe_name,
  tolerates, ping_error, ping_result, ping,
}

ping_error-carries_none :
    (p : Platform) (r : Response) → ping_error p (carries_none p r) ≡ err (carries_none p r)
unfolding ping_error as_api tolerates
ping_error-carries_none p r =
    elim (Bool-cases (is_auth_failure (Platform.unicode p) (carries_none p r))) [
      | inl refused ↦ rw refused refl
      | inr accepted ↦ rw accepted refl
    ]

module _ (p : Platform) (srv : Server) (c : Client) where
  -- If the server answers the probe with a document that `call` accepts and that holds no
  -- certificate, so that the token was accepted, then `Ping` fails, with the error that the response
  -- carries no certificate.
  pub ping_no_certificate :
      (input : Bytes) (code : ℕ) (raw : Bytes) (r : Response) (s : Server.State srv)
      → encoded p op_get_certificate (lookup_details probe_name []) ≡ ok input
      → (Server.exchange srv (request_of p srv c get op_get_certificate (some input) none []) s).0
        ≡ answered code raw
      → call_result p op_get_certificate code (limited raw) ≡ ok r
      → certificates_from_strings p (collect_strings r.doc) ≡ ok []
      → (ping p srv c s).0 ≡ err (carries_none p r)
  unfolding ping get_certificate certificates_in
  ping_no_certificate input code raw r s sent got accepted empty =
      let none_found : certificates_in p r ≡ err (carries_none p r) =
        rw (certificates_in, empty) refl in
      let fetched : (get_certificate p srv c probe_name [] s).0 ≡ err (carries_none p r) =
        asked_result _ (λ i. call p srv c get op_get_certificate (some i) none [])
          (certificates_in p) s sent
          (call_answered p srv c get op_get_certificate (some input) none [] s got accepted)
        ∙ none_found in
      ap (ping_result p) fetched ∙ ping_error-carries_none p r
