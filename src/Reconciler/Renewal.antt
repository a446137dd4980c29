-- ===== src/Reconciler/Renewal.antt =====
-- internal/controllers/kmpcertificate_controller.go: `renewalTime`, `now` and `until`.
pub mod Laws
use Prim.Native.Nat.{min}
use kmp_issuer.Base.{
  ℕ, suc, ◌+◌, ◌-◌, ◌*◌, ◌/◌, ◌^◌, Bool, Option, none, some, if◌then◌else◌, ltz, ℤ, pos, negsuc,
  sub_nat, neg_nat, ◌-ℤ◌,
}
use kmp_issuer.X509.{Certificate}
use kmp_issuer.Reconciler.{Reconciler}

abbrev pub renewal_fraction : ℕ
renewal_fraction = 3

abbrev pub second : ℤ
second = pos 1000000000

abbrev pub issuance_failure_requeue : ℤ
issuance_failure_requeue = pos (60 * 1000000000)

abbrev pub max_duration : ℕ
max_duration = 2 ^ 63 - 1

-- `t.Sub(u)` of two times, from their difference: durations end at those of 64 bits.
unfoldable pub saturated : ℤ → ℤ
saturated (pos n) = pos (min n max_duration)
saturated (negsuc n) = negsuc (min n max_duration)

-- `d / renewalFraction`, which Go rounds toward zero.
unfoldable pub fraction : ℤ → ℤ
fraction (pos n) = pos (n / renewal_fraction)
fraction (negsuc n) = neg_nat (suc n / renewal_fraction)

unfoldable pub lifetime : Certificate → ℤ
lifetime leaf = saturated (sub_nat leaf.not_after leaf.not_before)

unfoldable pub renewal_window : Certificate → Option ℤ → ℤ
renewal_window leaf none = fraction (lifetime leaf)
renewal_window leaf (some d) = if ltz (pos 0) d then d else fraction (lifetime leaf)

unfoldable pub renewal_time : Certificate → Option ℤ → ℤ
renewal_time leaf renew_before = pos leaf.not_after -ℤ renewal_window leaf renew_before

-- `if r.Clock != nil { return r.Clock() }`
abbrev pub or_time_now : {S : Type 0} → Option (S → ℕ) → (S → ℕ) → S → ℕ
or_time_now none time_now s = time_now s
or_time_now (some clock) time_now s = clock s

module _ {S : Type 0} (r : Reconciler S) where
  unfoldable pub now : S → ℕ
  now s = or_time_now (Reconciler.clock r) (Reconciler.time_now r) s

  unfoldable pub until : Option ℤ → S → ℤ
  until none s = issuance_failure_requeue
  until (some at) s =
      let wait = saturated (at -ℤ pos (now s)) in if ltz wait second then second else wait
