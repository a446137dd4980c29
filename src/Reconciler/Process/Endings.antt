-- ===== src/Reconciler/Process/Endings.antt =====
-- The ends of a run of `Reconcile`, before the status is written.
use kmp_issuer.Base.{
  ◌≡◌, refl, sym, ◌∙◌, ap, subst, ◌⊎◌, inl, inr, Option, some, Result, ok, err, ℤ,
}
use kmp_issuer.Text.{Bytes}
use kmp_issuer.Errors.{GoError}
use kmp_issuer.Api.Certificates.{KmpCertificate, KmpCertificateStatus}
use kmp_issuer.Reconciler.{Reconciler}
use kmp_issuer.Reconciler.Renewal.{until}
use kmp_issuer.Reconciler.Need.{Need, needed, current, issuance_needed}
use kmp_issuer.Reconciler.Issue.{issue}
use kmp_issuer.Reconciler.Process.{
  Outcome, after, with_condition, current_report, process_issued, process_need, process,
}

pub needed-ne-current : {text : Bytes} {o : Option ℤ} {at : ℤ} → needed text o ≡ current at → ⊥
needed-ne-current h = cc

Need-cases :
    (n : Need)
    → ((at : ℤ) × (n ≡ current at)) ⊎ ((reason : Bytes) × (at : Option ℤ) × (n ≡ needed reason at))
Need-cases (current at) = inl (at, refl)
Need-cases (needed reason at) = inr (reason, at, refl)

run_cases :
    {S A : Type 0} (x : Result GoError A × S)
    → ((a : A) × (t : S) × (x ≡ (ok a, t))) ⊎ ((e : GoError) × (t : S) × (x ≡ (err e, t)))
run_cases (ok a, t) = inl (a, t, refl)
run_cases (err e, t) = inr (e, t, refl)

module _ {S : Type 0} (r : Reconciler S) (certificate : KmpCertificate) (s : S) where
  abbrev pub need : Need
  need = (issuance_needed r certificate s).0

  abbrev pub asked_state : S
  asked_state = (issuance_needed r certificate s).1

  -- The ends of `Reconcile` before the status is written: the certificate is current, a new one is
  -- refused, or issued.
  pub data Ending : (Outcome × KmpCertificateStatus) × S → Type 0 where
    kept :
        (at : ℤ)
        → need ≡ current at
        → Ending (
          (
            after (until r (some at) asked_state),
            with_condition
                (Reconciler.time_now r asked_state)
                (current_report certificate.generation)
                certificate.status,
          ),
          asked_state,
        )
    refused :
        (reason : Bytes) (at : Option ℤ) (e : GoError) (t : S)
        → need ≡ needed reason at
        → issue r certificate asked_state ≡ (err e, t)
        → Ending (process_issued r certificate (err e, t))
    made :
        (reason : Bytes) (at : Option ℤ) (status : KmpCertificateStatus) (t : S)
        → need ≡ needed reason at
        → issue r certificate asked_state ≡ (ok status, t)
        → Ending (process_issued r certificate (ok status, t))

  pub needed_ending :
      (n : Need) (at : ℤ)
      → n ≡ current at
      → (t : S)
      → process_need r certificate (n, t) ≡ (
        (
          after (until r (some at) t),
          with_condition
              (Reconciler.time_now r t)
              (current_report certificate.generation)
              certificate.status,
        ),
        t,
      )
  unfolding process_need
  needed_ending n at e t = rw e refl

  asked_ending :
      (n : Need) (reason : Bytes) (at : Option ℤ)
      → n ≡ needed reason at
      → (t : S)
      → process_need r certificate (n, t) ≡ process_issued r certificate (issue r certificate t)
  unfolding process_need
  asked_ending n reason at e t = rw e refl

  pub process-Ending : Ending (process r certificate s)
  unfolding process
  process-Ending = elim (Need-cases need) [
    | inl (at, e) ↦ subst Ending (sym (needed_ending need at e asked_state)) (kept at e)
    | inr (reason, at, e) ↦
        let ends : process_need r certificate (need, asked_state)
            ≡ process_issued r certificate (issue r certificate asked_state) =
          asked_ending need reason at e asked_state in
        elim (run_cases (issue r certificate asked_state)) [
          | inl (status, t, got) ↦
              subst Ending (sym (ends ∙ ap (process_issued r certificate) got))
                (made reason at status t e got)
          | inr (failure, t, got) ↦
              subst Ending (sym (ends ∙ ap (process_issued r certificate) got))
                (refused reason at failure t e got)
        ]
  ]
