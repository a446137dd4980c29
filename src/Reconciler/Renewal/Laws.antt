-- ===== src/Reconciler/Renewal/Laws.antt =====
-- The bounds of the time of the renewal and of the wait.
use Prim.Native.Nat.{min}
use kmp_issuer.Base.{
  ℕ, suc, ◌+◌, ◌-◌, ◌/◌, ◌≤◌, ◌≡◌, refl, ap, true, false, Option, none, some, arith, inl, inr,
  Bool-cases, ltz, ltb, leb, ℤ, pos, sub_nat, ◌-ℤ◌,
}
use kmp_issuer.X509.{Certificate}
use kmp_issuer.Reconciler.{Reconciler}
use kmp_issuer.Reconciler.Renewal.{
  saturated, fraction, lifetime, renewal_window, renewal_time, max_duration, second, now, until,
}

-- `a ≤ b`
abbrev pub AtMost : ℤ → ℤ → Type 0
AtMost a b = ltz b a ≡ false

-- The wait is a second at least.
pub until-at_least :
    {S : Type 0} (r : Reconciler S) (at : Option ℤ) (s : S) → AtMost second (until r at s)
unfolding until
until-at_least r none s = refl
until-at_least r (some at) s = elim (Bool-cases (ltz (saturated (at -ℤ pos (now r s))) second)) [
  | inl short ↦ rw short refl
  | inr long ↦ rw long long
]

not_ltb : (a b : ℕ) → b ≤ a → ltb a b ≡ false
not_ltb a b h = ground arith

sub_nat_le : (a b : ℕ) → b ≤ a → sub_nat a b ≡ pos (a - b)
sub_nat_le a b h = ground arith

min_le : (a b : ℕ) → a ≤ b → min a b ≡ a
min_le a b h = omega arith

lifetime_short :
    (leaf : Certificate)
    → leaf.not_before ≤ leaf.not_after
    → leaf.not_after - leaf.not_before ≤ max_duration
    → lifetime leaf ≡ pos (leaf.not_after - leaf.not_before)
unfolding lifetime saturated
lifetime_short leaf ordered short =
    rw (sub_nat_le leaf.not_after leaf.not_before ordered) (ap pos (min_le _ _ short))

-- The renewal of a certificate without `renewBefore`, for one that ends when it begins or later and
-- whose lifetime is a duration of 64 bits: it falls on the beginning of the last third of the
-- lifetime, so not before the certificate begins, nor after it ends.
pub renewal_time-third :
    (leaf : Certificate)
    → leaf.not_before ≤ leaf.not_after
    → leaf.not_after - leaf.not_before ≤ max_duration
    → (at : ℕ) × (renewal_time leaf none ≡ pos at)
      × (leaf.not_after ≡ at + (leaf.not_after - leaf.not_before) / 3)
      × (leaf.not_before ≤ at)
      × (at ≤ leaf.not_after)
unfolding renewal_time renewal_window fraction
renewal_time-third leaf ordered short =
    let b = leaf.not_before in
    let a = leaf.not_after in
    let h : b ≤ a = ordered in
    (
      a - (a - b) / 3,
      rw (lifetime_short leaf ordered short) (sub_nat_le a ((a - b) / 3) (omega arith)),
      omega arith,
      omega arith,
      omega arith,
    )

positive : (d : ℕ) → ltz (pos 0) (pos (suc d)) ≡ true
positive d = ground arith

sub_nat_past : (t a b : ℕ) → a - b ≤ t → ltz (pos t) (sub_nat a b) ≡ false
sub_nat_past t a b h = elim (Bool-cases (leb b a)) [
  | inl fits ↦ rw fits (not_ltb t (a - b) h)
  | inr less ↦ rw less refl
]

-- A `renewBefore` of the lifetime of the certificate or more makes the renewal due from the moment
-- that the certificate begins, so that it is asked for at every reconciliation.
renewal_time-always_due :
    (leaf : Certificate) (d t : ℕ)
    → leaf.not_after ≤ leaf.not_before + suc d
    → leaf.not_before ≤ t
    → AtMost (renewal_time leaf (some (pos (suc d)))) (pos t)
unfolding renewal_time renewal_window
renewal_time-always_due leaf d t long begun =
    let h : leaf.not_after ≤ leaf.not_before + suc d = long in
    let k : leaf.not_before ≤ t = begun in
    rw (positive d) (sub_nat_past t leaf.not_after (suc d) (omega arith))
