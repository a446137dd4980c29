-- ===== src/Client/Sign/Laws.antt =====
-- What `SignCSR` promises of its result.
use kmp_issuer.Base.{
  ◌≡◌, sym, ap, subst, false, [], none, some, Bool-cases, inl, inr, ok, ok-injective, err-ne-ok,
  is_nil,
}
use kmp_issuer.Text.{Bytes}
use kmp_issuer.X509.{Platform}
use kmp_issuer.Response.Status.{Response}
use kmp_issuer.Response.Keys.{common_name_keys, serial_number_keys, certificate_id_keys}
use kmp_issuer.Client.Call.{post, Server, Client, request_of, call}
use kmp_issuer.Client.Call.Runs.{IsAnswered, call-IsAnswered, asked_eq_ok, guard_eq_ok}
use kmp_issuer.Client.Csr.{encoded, search}
use kmp_issuer.Client.Details.{SignRequest, sign_details}
use kmp_issuer.Client.Sign.{SignResult, op_sign_csr, identifies_nothing, sign_result, sign_csr}

sign_result-eq-ok :
    (p : Platform) (r : Response) {result : SignResult}
    → sign_result p r ≡ ok result
    → (identifies_nothing result ≡ false)
      × (result.common_name ≡ search p r common_name_keys)
      × (result.serial_number ≡ search p r serial_number_keys)
      × (result.certificate_id ≡ search p r certificate_id_keys)
unfolding sign_result
sign_result-eq-ok p r {result} h =
    let found : SignResult = record {
      certificate_id = search p r certificate_id_keys;
      common_name = search p r common_name_keys;
      serial_number = search p r serial_number_keys;
    } in
    elim (Bool-cases (identifies_nothing found)) [
      | inl nothing ↦ absurd (err-ne-ok (rw nothing at h))
      | inr something ↦
          let e : found ≡ result = ok-injective (rw something at h) in
          (
            subst (λ x. identifies_nothing x ≡ false) e something,
            sym (ap SignResult.common_name e),
            sym (ap SignResult.serial_number e),
            sym (ap SignResult.certificate_id e),
          )
    ]

module _ (p : Platform) (srv : Server) (c : Client) where
  -- If `SignCSR` returns a result, the request named a stored request, the server accepted the call
  -- with a document, the result is what the searches find in it, and one of the three identifiers
  -- of the result is not empty.
  pub sign_csr-IsAnswered :
      (req : SignRequest) (result : SignResult) (s t : Server.State srv)
      → sign_csr p srv c req s ≡ (ok result, t)
      → (is_nil req.csr_id ≡ false)
        × ((input : Bytes) × (r : Response) × (encoded p op_sign_csr (sign_details req) ≡ ok input)
            × IsAnswered p srv
                (request_of p srv c post op_sign_csr (some input) none [])
                op_sign_csr
                r
                s
                t
            × (identifies_nothing result ≡ false)
            × (result.common_name ≡ search p r common_name_keys)
            × (result.serial_number ≡ search p r serial_number_keys)
            × (result.certificate_id ≡ search p r certificate_id_keys))
  unfolding sign_csr
  sign_csr-IsAnswered req result s t h =
      let (given, h₁) = guard_eq_ok (is_nil req.csr_id) _ _ h in
      let (input, r, sent, got, e) =
        asked_eq_ok (encoded p op_sign_csr (sign_details req))
          (λ i. call p srv c post op_sign_csr (some i) none []) (sign_result p) h₁ in
      let (some_id, names, serial, certificate) = sign_result-eq-ok p r e in
      (
        given,
        (
          input,
          r,
          sent,
          call-IsAnswered p srv c post op_sign_csr (some input) none [] got,
          some_id,
          names,
          serial,
          certificate,
        ),
      )
