-- ===== src/Reconciler/Process/Laws.antt =====
-- What a run of `Reconcile` leaves and returns.
use kmp_issuer.Base.{
  ℕ, ◌≡◌, refl, sym, ◌∙◌, ap, subst, ◌↔◌, ◌⊎◌, inl, inr, true, false, Option, none, some, ok, err,
  err-ne-ok, err-injective, Bool-cases, ℤ, pos, ltz,
}
use mathlib.Core.Bool.{false≢true, true≢false}
use mathlib.Core.Option.{some-injective, none-ne-some}
use kmp_issuer.Text.{Bytes}
use kmp_issuer.Errors.{GoError, is_permanent}
use kmp_issuer.Api.Certificates.{
  KmpCertificate, KmpCertificateStatus, Condition, ConditionStatus, condition_true, condition_false,
  condition_ready,
}
use kmp_issuer.Reconciler.{Reconciler}
use kmp_issuer.Reconciler.Conditions.{Report}
use kmp_issuer.Reconciler.Conditions.Laws.{find_condition, set_condition_lem}
use kmp_issuer.Reconciler.Conditions.Kept.{UniqueTypes, set_condition-UniqueTypes}
use kmp_issuer.Reconciler.Renewal.{until, second}
use kmp_issuer.Reconciler.Renewal.Laws.{until-at_least}
use kmp_issuer.Reconciler.Need.{needed, current}
use kmp_issuer.Reconciler.Issue.{issue, issued_status}
use kmp_issuer.Reconciler.Issue.Trace.{IsIssued, issue-IsIssued}
use kmp_issuer.Reconciler.Process.{
  Outcome, after, with_condition, current_report, issued_report, failed_report, outcome_of_failure,
  text_of, process_issued, process,
}
use kmp_issuer.Reconciler.Process.Endings.{
  need, asked_state, Ending, kept, refused, made, needed-ne-current, process-Ending,
}

true-ne-false_status : condition_false ≡ condition_true → ⊥
true-ne-false_status h = cc

-- The condition Ready of a status, if it is there.
abbrev pub ReadyAs : KmpCertificateStatus → ConditionStatus → Type 0
ReadyAs status value =
    (c : Condition) × (find_condition condition_ready status.conditions ≡ some c)
    × (c.status ≡ value)

with_condition-ReadyAs :
    (time : ℕ) (report : Report) (status : KmpCertificateStatus)
    → report.condition_type ≡ condition_ready
    → ReadyAs (with_condition time report status) report.status
unfolding with_condition
with_condition-ReadyAs time report status e =
    let ((c, found, says, since), others) = set_condition_lem time report status.conditions in
    (c, rw (sym e) found, says.status)

ReadyAs-unique :
    (status : KmpCertificateStatus) {a b : ConditionStatus}
    → ReadyAs status a
    → ReadyAs status b
    → a ≡ b
ReadyAs-unique status (c, found, e) (d, got, f) =
    sym e ∙ ap (λ x. x.status) (some-injective c d (sym found ∙ got)) ∙ f

outcome_of_passing : (e : GoError) → is_permanent e ≡ false → (outcome_of_failure e).error ≡ some e
unfolding outcome_of_failure
outcome_of_passing e h = rw h refl

-- The controller does not come back to the certificate by itself.
abbrev pub Rests : Outcome → Type 0
Rests outcome = (outcome.requeue_after ≡ pos 0) × (outcome.error ≡ none)

module _ {S : Type 0} (r : Reconciler S) (certificate : KmpCertificate) (s : S) where
  -- The certificate was current, or one was issued.
  abbrev pub Succeeds : Type 0
  Succeeds =
      ((at : ℤ) × (need r certificate s ≡ current at))
      ⊎ ((status : KmpCertificateStatus) × (t : S) × (issue r certificate
              (asked_state r certificate s)
            ≡ (ok status, t)))

  ReadyAs-Ending :
      {x : (Outcome × KmpCertificateStatus) × S}
      → Ending r certificate s x
      → ReadyAs x.0.1 condition_true ↔ Succeeds
  unfolding process_issued
  ReadyAs-Ending (kept at e) = (
    λ _. inl (at, e),
    λ _. with_condition-ReadyAs _ (current_report certificate.generation) certificate.status refl,
  )
  ReadyAs-Ending (made reason at status t e got) = (
    λ _. inr (status, t, got),
    λ _. with_condition-ReadyAs _ (issued_report certificate.generation) status refl,
  )
  ReadyAs-Ending (refused reason at e t asked got) = (
    λ ready. absurd (
        true-ne-false_status (
          sym (
            ReadyAs-unique
              (with_condition (Reconciler.time_now r t)
                (failed_report certificate.generation (text_of r e)) certificate.status)
              ready
              (with_condition-ReadyAs _ (failed_report certificate.generation (text_of r e))
                certificate.status refl)))),
    λ success. absurd (elim success [
      | inl (time, e) ↦ needed-ne-current (sym asked ∙ e)
      | inr (status, u, made_as) ↦ err-ne-ok (ap (λ y. y.0) (sym got ∙ made_as))
    ]),
  )

  -- In the status that `Reconcile` is about to write the condition Ready is True exactly if the
  -- certificate in the Secret was found current or a new one was issued; otherwise it is not True,
  -- whatever it was before.
  pub process-ReadyAs : ReadyAs (process r certificate s).0.1 condition_true ↔ Succeeds
  process-ReadyAs = ReadyAs-Ending (process-Ending r certificate s)

  abbrev pub FailsForGood : Type 0
  FailsForGood =
      (reason : Bytes) × (at : Option ℤ) × (e : GoError) × (t : S) × (need r certificate s
        ≡ needed reason at)
      × (issue r certificate (asked_state r certificate s) ≡ (err e, t))
      × (is_permanent e ≡ true)

  returns_later : (at : Option ℤ) (t : S) → Rests (after (until r at t)) → ⊥
  returns_later at t rests =
      true≢false (subst (λ d. ltz d second ≡ false) rests.0 (until-at_least r at t))

  Rests-Ending :
      {x : (Outcome × KmpCertificateStatus) × S}
      → Ending r certificate s x
      → Rests x.0.0 ↔ FailsForGood
  unfolding process_issued outcome_of_failure
  Rests-Ending (kept at e) = (
    λ rests. absurd (returns_later (some at) _ rests),
    λ (reason, time, failure, t, asked, got, gone). absurd (needed-ne-current (sym asked ∙ e)),
  )
  Rests-Ending (made reason at status t e got) = (
    λ rests. absurd (returns_later status.renewal_time _ rests),
    λ (why, time, failure, u, asked, other, gone).
        absurd (err-ne-ok (ap (λ y. y.0) (sym other ∙ got))),
  )
  Rests-Ending (refused reason at e t asked got) = elim (Bool-cases (is_permanent e)) [
    | inl lasting ↦ (λ _. (reason, at, e, t, asked, got, lasting), λ _. rw lasting (refl, refl))
    | inr passing ↦ (
      λ rests. absurd (none-ne-some e (sym rests.1 ∙ outcome_of_passing e passing)),
      λ (why, time, failure, u, ask, other, gone). absurd (
          false≢true (
            sym passing
            ∙ ap is_permanent (err-injective (ap (λ y. y.0) (sym got ∙ other)))
            ∙ gone)),
    )
  ]

  -- Before it writes the status, `Reconcile` is to return neither an error nor a time to come back
  -- exactly if a new certificate was needed and `issue` failed with a permanent error. With every
  -- other end the certificate is looked at again.
  pub process-Rests : Rests (process r certificate s).0.0 ↔ FailsForGood
  process-Rests = Rests-Ending (process-Ending r certificate s)

  UniqueTypes-Ending :
      {x : (Outcome × KmpCertificateStatus) × S}
      → UniqueTypes certificate.status.conditions
      → Ending r certificate s x
      → UniqueTypes x.0.1.conditions
  unfolding process_issued with_condition issued_status
  UniqueTypes-Ending u (kept at e) = set_condition-UniqueTypes _ _ certificate.status.conditions u
  UniqueTypes-Ending u (refused reason at e t asked got) =
      set_condition-UniqueTypes _ _ certificate.status.conditions u
  UniqueTypes-Ending u (made reason at status t e got) =
      set_condition-UniqueTypes _ _ status.conditions (
        subst UniqueTypes
          (ap (λ x. x.conditions)
            (IsIssued.status_of
              (issue-IsIssued r certificate (asked_state r certificate s) t status got)))
          u)

  -- If no type of condition stands twice in the status of a certificate, none does in the status that
  -- `Reconcile` is about to write.
  pub process-UniqueTypes :
      UniqueTypes certificate.status.conditions
      → UniqueTypes (process r certificate s).0.1.conditions
  process-UniqueTypes u = UniqueTypes-Ending u (process-Ending r certificate s)
