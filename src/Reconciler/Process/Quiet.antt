-- ===== src/Reconciler/Process/Quiet.antt =====
-- A run of `Reconcile` that finds nothing to do writes nothing.
use kmp_issuer.Base.{ℕ, ◌≡◌, refl, ap, subst, ◌∙◌, Bool, true, false, some, ok, if◌then◌else◌, ℤ}
use kmp_issuer.Api.Certificates.{KmpCertificate, KmpCertificateStatus}
use kmp_issuer.Cluster.Access.{NamespacedName, Cluster, Library}
use kmp_issuer.Reconciler.{Reconciler}
use kmp_issuer.Reconciler.Conditions.{Report, set_condition}
use kmp_issuer.Reconciler.Conditions.Kept.{set_condition-set_condition}
use kmp_issuer.Reconciler.Renewal.{until}
use kmp_issuer.Reconciler.Need.{current}
use kmp_issuer.Reconciler.Process.{
  Outcome, done, after, with_condition, current_report, write_status, process, reconcile_read,
  reconcile,
}
use kmp_issuer.Reconciler.Process.Endings.{need, asked_state, needed_ending}

-- `equality.Semantic.DeepEqual` accepts a value and itself.
abbrev pub EqualsItself : Library → Type 0
EqualsItself l = (a : KmpCertificateStatus) → Library.deep_equal l a a ≡ true

-- A status that a report has left is left as it is by the same report.
reported_again :
    (time later : ℕ) (report : Report) (old status : KmpCertificateStatus)
    → with_condition time report old ≡ status
    → with_condition later report status ≡ status
unfolding with_condition
reported_again time later report old status e =
    let again : (set_condition later report status.conditions).1 ≡ status.conditions =
      subst (λ x. (set_condition later report x).1 ≡ x) (ap (λ x. x.conditions) e)
        (ap (λ x. x.1) (set_condition-set_condition time later report old.conditions)) in
    rw again refl

unless : {A : Type 0} (test : Bool) (x y : A) → test ≡ false → (if test then x else y) ≡ y
unless test x y h = rw h refl

module _ {S : Type 0} (r : Reconciler S) where
  write_status_unchanged :
      EqualsItself (Reconciler.library r)
      → (name : NamespacedName) (certificate : KmpCertificate) (outcome : Outcome)
        (status : KmpCertificateStatus) (t : S)
      → status ≡ certificate.status
      → write_status r name certificate ((outcome, status), t) ≡ (outcome, t)
  unfolding write_status
  write_status_unchanged itself name certificate outcome status t e =
      rw (e, itself certificate.status) refl

  -- If a run of `Reconcile` reads a certificate that is not deleted, finds it current, and its status
  -- is as an earlier run that found it current left it, for the same generation, and
  -- `equality.Semantic.DeepEqual` accepts a status and itself, then the run writes
  -- nothing: it leaves the state of its two reads, and returns the time until the renewal.
  pub reconcile_settled :
      EqualsItself (Reconciler.library r)
      → (name : NamespacedName) (certificate : KmpCertificate) (earlier : ℕ)
        (old : KmpCertificateStatus) (at : ℤ) (s t : S)
      → Cluster.get_certificate (Reconciler.cluster r) name s ≡ (ok certificate, t)
      → certificate.is_deleted ≡ false
      → need r certificate t ≡ current at
      → with_condition earlier (current_report certificate.generation) old ≡ certificate.status
      → reconcile r name s
        ≡ (after (until r (some at) (asked_state r certificate t)), asked_state r certificate t)
  unfolding reconcile reconcile_read process
  reconcile_settled itself name certificate earlier old at s t read alive found left =
      let u = asked_state r certificate t in
      ap (reconcile_read r name) read
      ∙ unless certificate.is_deleted (done, t)
          (write_status r name certificate (process r certificate t)) alive
      ∙ ap (write_status r name certificate)
          (needed_ending r certificate t (need r certificate t) at found u)
      ∙ write_status_unchanged itself name certificate _ _ u
          (reported_again earlier _ _ old certificate.status left)
