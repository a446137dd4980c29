-- ===== src/Client/Call/Permanent.antt =====
-- Which failures of `call` are permanent.
use kmp_issuer.Base.{
  ℕ, ◌≤◌, ◌≡◌, refl, sym, ◌∙◌, ◌↔◌, ◌⊎◌, true, false, Option, err, if◌then◌else◌, arith,
}
use mathlib.Core.Bool.{false≢true}
use kmp_issuer.Text.{Bytes}
use kmp_issuer.X509.{Platform}
use kmp_issuer.Errors.{
  GoError, is_permanent, as_api, is_invalid_config, is_unusable_response, permanent_status,
}
use kmp_issuer.Response.Status.{Response}
use kmp_issuer.Client.Call.{
  Method, Form, Exchange, not_built, not_answered, broken_off, answered, Server, Client, continue,
  lift, limited, is_success, call_result, read_exchange, request_of, do_request, call,
}
use kmp_issuer.Client.Call.Outcome.{permanent_of, call_result-is_permanent}
use kmp_issuer.Client.Call.Runs.{result_of}

-- The exchanges that a repetition of the request does not change: the request cannot be built, the
-- status is 2xx, so that the body is at fault, or the status is 4xx but neither 408 nor 429.
abbrev pub ForGood : Exchange → Type 0
ForGood (not_built e) = Unit
ForGood (not_answered e) = ⊥
ForGood (broken_off code e) = ⊥
ForGood (answered code raw) =
    ((200 ≤ code) × (code ≤ 299))
    ⊎ ((400 ≤ code) × (code ≤ 499) × (code ≡ 408 → ⊥) × (code ≡ 429 → ⊥))

for_good_iff :
    (code : ℕ)
    → ((if is_success code then true else permanent_status code) ≡ true) ↔ (
        ((200 ≤ code) × (code ≤ 299))
        ⊎ ((400 ≤ code) × (code ≤ 499) × (code ≡ 408 → ⊥) × (code ≡ 429 → ⊥)))
unfolding permanent_status
for_good_iff code = ground arith

never : (e : GoError) → is_permanent e ≡ false → (is_permanent e ≡ true) ↔ ⊥
never e h = (λ k. false≢true (sym h ∙ k), λ k. absurd k)

module _ (p : Platform) (srv : Server) (c : Client) (op : Bytes) where
  failure-ForGood :
      (x : Exchange) (e : GoError) (s t : Server.State srv)
      → continue {A = ℕ × Bytes} {B = Response}
          (read_exchange p srv c op x)
          (λ (code, raw). lift (call_result p op code raw))
          s
        ≡ (err e, t)
      → (is_permanent e ≡ true) ↔ ForGood x
  unfolding is_permanent as_api is_invalid_config is_unusable_response
  failure-ForGood (not_built text) e s t h = (λ _. tt, λ _. permanent_of (result_of h) refl)
  failure-ForGood (not_answered text) e s t h = never e (permanent_of (result_of h) refl)
  failure-ForGood (broken_off code text) e s t h = never e (permanent_of (result_of h) refl)
  failure-ForGood (answered code raw) e s t h =
      let same = call_result-is_permanent p op code (limited raw) e (result_of h) in
      (λ k. (for_good_iff code).0 (sym same ∙ k), λ k. same ∙ (for_good_iff code).1 k)

  -- An error of `call` is permanent exactly if the request could not be built, or the exchange ended
  -- with a status from 200 to 299, or with one from 400 to 499 other than 408 and 429; an error of
  -- the transport and an answer that breaks off are not permanent, whatever the status.
  pub call-ForGood :
      (m : Method) (q : Option Bytes) (body : Option Form) (kind : Bytes) (s t : Server.State srv)
      (e : GoError)
      → call p srv c m op q body kind s ≡ (err e, t)
      → (is_permanent e ≡ true)
        ↔ ForGood (Server.exchange srv (request_of p srv c m op q body kind) s).0
  unfolding call do_request
  call-ForGood m q body kind s t e h =
      failure-ForGood (Server.exchange srv (request_of p srv c m op q body kind) s).0 e _ t h
