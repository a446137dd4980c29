-- ===== src/Client/Certificate/Laws.antt =====
-- What `GetCertificate` promises of its certificates.
pub mod Probe
use kmp_issuer.Base.{
  ◌≡◌, ◌≢◌, refl, sym, ap, ◌∙◌, subst, Bool, true, false, ◌&&◌, List, [], ◌∷◌, Option, none, some,
  Bool-cases, inl, inr, Result, Result-cases, ok, err, ok-injective, err-ne-ok, if◌then◌else◌,
  is_nil,
}
use kmp_issuer.Text.{Bytes}
use kmp_issuer.X509.{Certificate, Platform}
use kmp_issuer.Chain.Build.Climb.{AllDiffer}
use kmp_issuer.Chain.Extract.{certificates_from_strings}
use kmp_issuer.Chain.Extract.Distinct.{certificates_from_strings-AllDiffer}
use kmp_issuer.Response.Collect.{collect_strings}
use kmp_issuer.Response.Status.{Response}
use kmp_issuer.Client.Call.{get, Server, Client, request_of, call}
use kmp_issuer.Client.Call.Runs.{IsAnswered, call-IsAnswered, asked_eq_ok, guard_eq_ok}
use kmp_issuer.Client.Csr.{encoded}
use kmp_issuer.Client.Certificate.{
  op_get_certificate, lookup_details, some_certificates, certificates_in, get_certificate,
}

some_certificates-eq-ok :
    (p : Platform) (r : Response) (found : List Certificate) {certs : List Certificate}
    → some_certificates p r found ≡ ok certs
    → (found ≡ certs) × (is_nil certs ≡ false)
some_certificates-eq-ok p r [] h = absurd (err-ne-ok h)
some_certificates-eq-ok p r (c ∷ cs) h =
    (ok-injective h, subst (λ l. is_nil l ≡ false) (ok-injective h) refl)

certificates_in-eq-ok :
    (p : Platform) (r : Response) {certs : List Certificate}
    → certificates_in p r ≡ ok certs
    → (certificates_from_strings p (collect_strings r.doc) ≡ ok certs) × (is_nil certs ≡ false)
unfolding certificates_in
certificates_in-eq-ok p r h =
    elim (Result-cases (certificates_from_strings p (collect_strings r.doc))) [
      | inl (found, e) ↦
          let (same, full) = some_certificates-eq-ok p r found (rw (certificates_in, e) at h) in
          (e ∙ ap ok same, full)
      | inr (e, failed) ↦ absurd (err-ne-ok (rw (certificates_in, failed) at h))
    ]

module _ (p : Platform) (srv : Server) (c : Client) where
  -- If `GetCertificate` returns certificates, a name or a serial number was given, the server
  -- accepted the call with a document, and the certificates are those that the document's texts
  -- hold: at least one, no two of them with the same bytes.
  pub get_certificate-AllDiffer :
      (common_name serial_number : Bytes) (certs : List Certificate) (s t : Server.State srv)
      → get_certificate p srv c common_name serial_number s ≡ (ok certs, t)
      → (is_nil common_name && is_nil serial_number ≡ false)
        × (is_nil certs ≡ false)
        × AllDiffer certs
        × ((input : Bytes) × (r : Response) × IsAnswered p srv
              (request_of p srv c get op_get_certificate (some input) none [])
              op_get_certificate
              r
              s
              t
            × (certificates_from_strings p (collect_strings r.doc) ≡ ok certs))
  unfolding get_certificate
  get_certificate-AllDiffer common_name serial_number certs s t h =
      let (given, h₁) = guard_eq_ok (is_nil common_name && is_nil serial_number) _ _ h in
      let (input, r, _, got, e) =
        asked_eq_ok (encoded p op_get_certificate (lookup_details common_name serial_number))
          (λ i. call p srv c get op_get_certificate (some i) none []) (certificates_in p) h₁ in
      let (found, full) = certificates_in-eq-ok p r e in
      (
        given,
        full,
        certificates_from_strings-AllDiffer p _ certs found,
        (input, r, call-IsAnswered p srv c get op_get_certificate (some input) none [] got, found),
      )
