-- ===== src/Reconciler/Process.antt =====
-- internal/controllers/kmpcertificate_controller.go: `Reconcile`.
pub mod Endings
pub mod Laws
pub mod Quiet
pub mod Misconfigured
use kmp_issuer.Base.{
  ℕ, Bool, true, false, ◌&&◌, List, [], ◌∷◌, ◌++◌, Option, none, some, Result, ok, err,
  if◌then◌else◌, ℤ, pos, ◌==◌,
}
use kmp_issuer.Text.{Bytes, codes, str_eq}
use kmp_issuer.X509.{Platform}
use kmp_issuer.Errors.{GoError, plain, wrap, error_text, is_permanent}
use kmp_issuer.Api.Certificates.{
  KmpCertificate, KmpCertificateStatus, Condition, ConditionStatus, condition_true, condition_false,
  condition_ready,
}
use kmp_issuer.Cluster.Access.{
  NamespacedName, name_text, Library, ApiFailure, not_found, other_failure, Cluster, EventType,
  normal, warning,
}
use kmp_issuer.Reconciler.{Reconciler}
use kmp_issuer.Reconciler.Conditions.{Report, set_condition, condition_status_eq, int_eq}
use kmp_issuer.Reconciler.Renewal.{until, issuance_failure_requeue}
use kmp_issuer.Reconciler.Need.{Need, needed, current, issuance_needed}
use kmp_issuer.Reconciler.Issue.{issue}

-- What `Reconcile` returns: `RequeueAfter` of the `ctrl.Result`, zero where it is not set, and the
-- error.
pub record Outcome : Type 0 where
  pub requeue_after : ℤ
  pub error : Option GoError

abbrev pub done : Outcome
done = record { requeue_after = pos 0; error = none }

abbrev pub failed_with : GoError → Outcome
failed_with e = record { requeue_after = pos 0; error = some e }

abbrev pub after : ℤ → Outcome
after d = record { requeue_after = d; error = none }

abbrev pub issued : Bytes
issued = codes "Issued"

abbrev pub failed : Bytes
failed = codes "Failed"

abbrev pub issued_message : Bytes
issued_message = codes "Key Manager Plus issued the certificate"

abbrev pub ready_report : ℤ → ConditionStatus → Bytes → Bytes → Report
ready_report generation status reason message = record {
  generation = generation;
  condition_type = condition_ready;
  status = status;
  reason = reason;
  message = message;
}

abbrev pub current_report : ℤ → Report
current_report generation =
    ready_report generation condition_true issued (codes "The Secret holds a current certificate")

abbrev pub issued_report : ℤ → Report
issued_report generation = ready_report generation condition_true issued issued_message

abbrev pub failed_report : ℤ → Bytes → Report
failed_report generation text = ready_report generation condition_false failed text

-- A status with a condition recorded at a time.
unfoldable pub with_condition : ℕ → Report → KmpCertificateStatus → KmpCertificateStatus
with_condition time report status = record status {
  conditions = (set_condition time report status.conditions).1;
}

-- What becomes of a failure: a permanent one is not tried again.
unfoldable pub outcome_of_failure : GoError → Outcome
outcome_of_failure e =
    if is_permanent e
    then done
    else record { requeue_after = issuance_failure_requeue; error = some e }

-- The error of a status that is not written replaces the outcome.
abbrev pub outcome_of_update : NamespacedName → Outcome → Result Bytes (Unit {0}) → Outcome
outcome_of_update name outcome (ok _) = outcome
outcome_of_update name outcome (err e) =
    failed_with
      (wrap (codes "updating the status of " ++ name_text name ++ codes ": ") (plain e) [])

module _ {S : Type 0} (r : Reconciler S) where
  abbrev text_of : GoError → Bytes
  text_of e = error_text (Platform.unicode (Reconciler.platform r)) e

  -- `Reconcile` once `issue` has returned.
  unfoldable pub process_issued :
      KmpCertificate
      → Result GoError KmpCertificateStatus × S
      → (Outcome × KmpCertificateStatus) × S
  process_issued certificate (err e, t) =
      let status =
        with_condition (Reconciler.time_now r t) (failed_report certificate.generation (text_of e))
          certificate.status in
      (
        (outcome_of_failure e, status),
        Cluster.event (Reconciler.cluster r) warning failed (text_of e) t,
      )
  process_issued certificate (ok issued_as, t) =
      let status =
        with_condition (Reconciler.time_now r t) (issued_report certificate.generation) issued_as in
      let v = Cluster.event (Reconciler.cluster r) normal issued issued_message t in
      ((after (until r issued_as.renewal_time v), status), v)

  unfoldable pub process_need : KmpCertificate → Need × S → (Outcome × KmpCertificateStatus) × S
  process_need certificate (current renew_at, t) =
      let status =
        with_condition (Reconciler.time_now r t) (current_report certificate.generation)
          certificate.status in
      ((after (until r (some renew_at) t), status), t)
  process_need certificate (needed reason renew_at, t) =
      process_issued certificate (issue r certificate t)

  -- `Reconcile` between the read of the certificate and the deferred write of its status.
  unfoldable pub process : KmpCertificate → S → (Outcome × KmpCertificateStatus) × S
  process certificate s = process_need certificate (issuance_needed r certificate s)

  -- The deferred function.
  unfoldable pub write_status :
      NamespacedName → KmpCertificate → (Outcome × KmpCertificateStatus) × S → Outcome × S
  write_status name certificate ((outcome, status), t) =
      if Library.deep_equal (Reconciler.library r) certificate.status status
      then (outcome, t)
      else (let (answer, v) =
            Cluster.update_status (Reconciler.cluster r) (record certificate { status = status })
              t in
          (outcome_of_update name outcome answer, v))

  unfoldable pub reconcile_read :
      NamespacedName → Result ApiFailure KmpCertificate × S → Outcome × S
  reconcile_read name (err (not_found e), t) = (done, t)
  reconcile_read name (err (other_failure e), t) = (failed_with (plain e), t)
  reconcile_read name (ok certificate, t) =
      if certificate.is_deleted
      then (done, t)
      else write_status name certificate (process certificate t)

  unfoldable pub reconcile : NamespacedName → S → Outcome × S
  reconcile name s = reconcile_read name (Cluster.get_certificate (Reconciler.cluster r) name s)
