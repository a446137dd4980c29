-- ===== src/Client/Call/Outcome.antt =====
-- What `call` and `callRaw` make of a status and a body, and when the failure is for good.
use kmp_issuer.Base.{
  inl, inr, ℕ, ◌≡◌, refl, sym, ap, subst, ◌∙◌, ◌↔◌, Bool, true, Bool-cases, Result, ok, err,
  err-ne-ok, err-injective, ok-injective, if◌then◌else◌, is_nil, Result-cases,
}
use mathlib.Core.Bool.{false≢true}
use kmp_issuer.Text.{Bytes}
use kmp_issuer.X509.{Platform}
use kmp_issuer.Errors.{
  GoError, is_permanent, as_api, is_invalid_config, is_unusable_response, permanent_status,
}
use kmp_issuer.Response.Status.{Response, parse_response, succeeded}
use kmp_issuer.Client.Call.{is_success, refusal, call_result, call_raw_result, reports_failure}

pub permanent_of :
    {A : Type 0} {x e : GoError} {b : Bool}
    → ◌≡◌ {A = Result GoError A} (err x) (err e)
    → is_permanent x ≡ b
    → is_permanent e ≡ b
permanent_of {b} h k = subst (λ y. is_permanent y ≡ b) (err-injective h) k

module _ (p : Platform) (op : Bytes) (code : ℕ) (raw : Bytes) where
  -- A status and a body are accepted exactly if the status is 2xx, the body is a document and that
  -- document does not report failure.
  pub call_result-eq-ok :
      (r : Response)
      → (call_result p op code raw ≡ ok r) ↔ (
          (is_success code ≡ true)
          × (parse_response (Platform.unmarshal p) raw ≡ ok r)
          × (succeeded (Platform.unicode p) r ≡ true))
  unfolding call_result
  call_result-eq-ok r = elim (Bool-cases (is_success code)) [
    | inl good ↦ elim (Result-cases (parse_response (Platform.unmarshal p) raw)) [
      | inl (parsed, read) ↦ elim (Bool-cases (succeeded (Platform.unicode p) parsed)) [
        | inl right ↦
            rw (good, read, right)
              (
                λ h. (
                  refl,
                  ap ok (ok-injective h),
                  subst (λ q. succeeded (Platform.unicode p) q ≡ true) (ok-injective h) right,
                ),
                λ (_, same, _). ap ok (ok-injective same),
              )
        | inr wrong ↦
            rw (good, read, wrong)
              (
                λ h. absurd (err-ne-ok h),
                λ (_, same, right). absurd (
                    false≢true (
                      sym wrong
                      ∙ subst (λ q. succeeded (Platform.unicode p) q ≡ true)
                          (sym (ok-injective same)) right)),
              )
      ]
      | inr (e, unread) ↦
          rw (good, unread) (λ h. absurd (err-ne-ok h), λ (_, same, _). absurd (err-ne-ok same))
    ]
    | inr bad ↦ rw bad (λ h. absurd (err-ne-ok h), λ h. absurd (false≢true h.0))
  ]

  refusal-is_permanent : is_permanent (refusal p op code raw) ≡ permanent_status code
  unfolding is_permanent as_api is_invalid_config is_unusable_response
  refusal-is_permanent = elim (Result-cases (parse_response (Platform.unmarshal p) raw)) [
    | inl (parsed, read) ↦ rw read refl
    | inr (e, unread) ↦ rw unread refl
  ]

  -- A failure of a status and a body is for good exactly if the status is 2xx, where the body is at fault, or if
  -- the status itself is one that a repetition does not change.
  pub call_result-is_permanent :
      (e : GoError)
      → call_result p op code raw ≡ err e
      → is_permanent e ≡ (if is_success code then true else permanent_status code)
  unfolding call_result is_permanent as_api is_invalid_config is_unusable_response
  call_result-is_permanent e h = elim (Bool-cases (is_success code)) [
    | inl good ↦ elim (Result-cases (parse_response (Platform.unmarshal p) raw)) [
      | inl (parsed, read) ↦ elim (Bool-cases (succeeded (Platform.unicode p) parsed)) [
        | inl right ↦ absurd (err-ne-ok (sym (rw (good, read, right) at h)))
        | inr wrong ↦ permanent_of (rw (good, read, wrong) at h) (rw good refl)
      ]
      | inr (_, unread) ↦ permanent_of (rw (good, unread) at h) (rw good refl)
    ]
    | inr bad ↦ permanent_of (rw bad at h) (rw bad refusal-is_permanent)
  ]

  -- A failure of `callRaw` at a status 2xx is for good exactly if the body is a document that
  -- reports failure; at another status, if a repetition does not change that status.
  call_raw_result-is_permanent :
      (e : GoError)
      → call_raw_result p op code raw ≡ err e
      → is_permanent e ≡ (
          if is_success code
          then reports_failure p (parse_response (Platform.unmarshal p) raw)
          else permanent_status code)
  unfolding call_raw_result is_permanent as_api is_invalid_config is_unusable_response
  call_raw_result-is_permanent e h = elim (Bool-cases (is_success code)) [
    | inl good ↦ elim (Result-cases (parse_response (Platform.unmarshal p) raw)) [
      | inl (parsed, read) ↦ elim (Bool-cases (succeeded (Platform.unicode p) parsed)) [
        | inl right ↦ elim (Bool-cases (is_nil raw)) [
          | inl empty ↦
              permanent_of (rw (good, read, right, empty) at h) (rw (good, read, right) refl)
          | inr full ↦ absurd (err-ne-ok (sym (rw (good, read, right, full) at h)))
        ]
        | inr wrong ↦ permanent_of (rw (good, read, wrong) at h) (rw (good, read, wrong) refl)
      ]
      | inr (_, unread) ↦ elim (Bool-cases (is_nil raw)) [
        | inl empty ↦ permanent_of (rw (good, unread, empty) at h) (rw (good, unread) refl)
        | inr full ↦ absurd (err-ne-ok (sym (rw (good, unread, full) at h)))
      ]
    ]
    | inr bad ↦ permanent_of (rw bad at h) (rw bad refusal-is_permanent)
  ]
