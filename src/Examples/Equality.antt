-- ===== src/Examples/Equality.antt =====
-- A comparison of statuses for tests, in place of that of apimachinery.
use kmp_issuer.Base.{
  ◌≡◌, refl, Bool, true, false, ◌&&◌, List, [], ◌∷◌, Option, none, some, ℤ, ◌==◌, ==_iff,
}
use kmp_issuer.Text.{str_eq, str_eq_refl}
use kmp_issuer.Api.Certificates.{KmpCertificateStatus, Condition}
use kmp_issuer.Reconciler.Conditions.{condition_status_eq, int_eq}
use kmp_issuer.Reconciler.Conditions.Laws.{condition_status_eq_iff, int_eq_iff}

unfoldable pub condition_eq : Condition → Condition → Bool
condition_eq a b =
    str_eq a.condition_type b.condition_type
    && condition_status_eq a.status b.status
    && int_eq a.observed_generation b.observed_generation
    && a.last_transition_time == b.last_transition_time
    && str_eq a.reason b.reason
    && str_eq a.message b.message

unfoldable pub conditions_eq : List Condition → List Condition → Bool
conditions_eq [] [] = true
conditions_eq (a ∷ rest) (b ∷ others) = condition_eq a b && conditions_eq rest others
conditions_eq _ _ = false

unfoldable pub time_eq : Option ℤ → Option ℤ → Bool
time_eq none none = true
time_eq (some a) (some b) = int_eq a b
time_eq _ _ = false

unfoldable pub status_eq : KmpCertificateStatus → KmpCertificateStatus → Bool
status_eq a b =
    conditions_eq a.conditions b.conditions
    && str_eq a.serial_number b.serial_number
    && str_eq a.csr_id b.csr_id
    && time_eq a.not_before b.not_before
    && time_eq a.not_after b.not_after
    && time_eq a.renewal_time b.renewal_time

condition_eq_refl : (c : Condition) → condition_eq c c ≡ true
unfolding condition_eq
condition_eq_refl c =
    rw
      (
        str_eq_refl c.condition_type,
        (condition_status_eq_iff c.status c.status).1 refl,
        (int_eq_iff c.observed_generation c.observed_generation).1 refl,
        (==_iff c.last_transition_time c.last_transition_time).1 refl,
        str_eq_refl c.reason,
        str_eq_refl c.message,
      )
      refl

conditions_eq_refl : (cs : List Condition) → conditions_eq cs cs ≡ true
unfolding conditions_eq
conditions_eq_refl [] = refl
conditions_eq_refl (c ∷ cs) = rw (condition_eq_refl c, conditions_eq_refl cs) refl

time_eq_refl : (t : Option ℤ) → time_eq t t ≡ true
unfolding time_eq
time_eq_refl none = refl
time_eq_refl (some t) = (int_eq_iff t t).1 refl

pub status_eq_refl : (a : KmpCertificateStatus) → status_eq a a ≡ true
unfolding status_eq
status_eq_refl a =
    rw
      (
        conditions_eq_refl a.conditions,
        str_eq_refl a.serial_number,
        str_eq_refl a.csr_id,
        time_eq_refl a.not_before,
        time_eq_refl a.not_after,
        time_eq_refl a.renewal_time,
      )
      refl
