-- ===== src/Text/Decimal.antt =====
-- `strconv.FormatInt(z, 10)`, `strconv.Itoa` and `strconv.ParseInt(s, 10, 64)`, as response.go,
-- client.go and create.go call them. Every error of `ParseInt` is `none`.
use kmp_issuer.Base.{
  ℕ, zero, suc, ◌+◌, ◌-◌, ◌*◌, ◌/◌, ◌%◌, ◌^◌, ◌≤◌, ◌<◌, ◌≡◌, refl, ◌||◌, [], ◌∷◌, Option, none,
  some, arith, ltb, ◌==◌, if◌then◌else◌, ℤ, pos, negsuc, inl, inr, Bool-cases,
}
use kmp_issuer.Text.{Bytes}

-- One digit for each round; `n` rounds are enough, since `n / 10` is below `n`.
digits_from : ℕ → ℕ → Bytes → Bytes
digits_from zero n out = (b'0' + n) ∷ out
digits_from (suc fuel) n out =
    let rest = digits_from fuel (n / 10) ((b'0' + n % 10) ∷ out) in
    if ltb n 10 then (b'0' + n) ∷ out else rest

unfoldable pub format_int : ℤ → Bytes
unfolding digits_from
format_int (pos n) = digits_from n n []
format_int (negsuc n) = b'-' ∷ digits_from (suc n) (suc n) []

scan_digits : Bytes → ℕ → Option ℕ
scan_digits [] n = some n
scan_digits (c ∷ s) n =
    if ltb c b'0' || ltb b'9' c then none else scan_digits s (n * 10 + (c - b'0'))

parse_digits : Bytes → Option ℕ
unfolding scan_digits
parse_digits [] = none
parse_digits (c ∷ s) = scan_digits (c ∷ s) 0

abbrev pub cutoff : ℕ
cutoff = 2 ^ 63

at_least_zero : Option ℕ → Option ℤ
at_least_zero none = none
at_least_zero (some n) = if ltb n cutoff then some (pos n) else none

below_zero : Option ℕ → Option ℤ
below_zero none = none
below_zero (some zero) = some (pos 0)
below_zero (some (suc n)) = if ltb n cutoff then some (negsuc n) else none

unfoldable pub parse_int : Bytes → Option ℤ
unfolding parse_digits at_least_zero below_zero
parse_int [] = none
parse_int (c ∷ s) =
    if c == b'-'
    then below_zero (parse_digits s)
    else if c == b'+'
    then at_least_zero (parse_digits s)
    else at_least_zero (parse_digits (c ∷ s))

-- The integers that an int64 holds.
abbrev pub InRange : ℤ → Type 0
InRange (pos n) = n < cutoff
InRange (negsuc n) = n < cutoff

scan_digits-digits_from :
    (fuel n : ℕ) (out : Bytes)
    → n ≤ fuel
    → scan_digits (digits_from fuel n out) 0 ≡ scan_digits out n
unfolding scan_digits digits_from
scan_digits-digits_from zero n out h = ground arith
scan_digits-digits_from (suc fuel) n out h =
    ground (arith, scan_digits-digits_from fuel (n / 10) ((b'0' + n % 10) ∷ out))

-- The first byte is a digit, so it is no sign.
abbrev BeginsWithDigit : Bytes → Type 0
BeginsWithDigit [] = ⊥
BeginsWithDigit (c ∷ s) = (b'0' ≤ c) × (c ≤ b'9')

digits_from-BeginsWithDigit :
    (fuel n : ℕ) (out : Bytes) → n ≤ fuel → BeginsWithDigit (digits_from fuel n out)
unfolding digits_from
digits_from-BeginsWithDigit zero n out h = omega arith
digits_from-BeginsWithDigit (suc fuel) n out h =
    ground (arith, digits_from-BeginsWithDigit fuel (n / 10) ((b'0' + n % 10) ∷ out))

-- On a text that begins with a digit both parsers are one scan.
parse_digits_of_digit : (s : Bytes) → BeginsWithDigit s → parse_digits s ≡ scan_digits s 0
unfolding parse_digits
parse_digits_of_digit [] h = elim h [ ]
parse_digits_of_digit (c ∷ s) h = refl

parse_int_of_digit : (s : Bytes) → BeginsWithDigit s → parse_int s ≡ at_least_zero (scan_digits s 0)
unfolding parse_int
parse_int_of_digit [] h = elim h [ ]
parse_int_of_digit (c ∷ s) h = ground arith

-- Reading a printed int64 gives it back.
parse_int-format_int : (z : ℤ) → InRange z → parse_int (format_int z) ≡ some z
unfolding format_int
parse_int-format_int (pos n) h =
    rw
      (
        parse_int_of_digit _ (digits_from-BeginsWithDigit n n [] (omega arith)),
        scan_digits-digits_from n n [] (omega arith),
      )
      (unfold scan_digits at_least_zero in ground arith)
parse_int-format_int (negsuc n) h =
    unfold parse_int in
    rw
      (
        parse_digits_of_digit _ (digits_from-BeginsWithDigit (suc n) (suc n) [] (omega arith)),
        scan_digits-digits_from (suc n) (suc n) [] (omega arith),
      )
      (unfold scan_digits below_zero in ground arith)

at_least_zero-InRange : (o : Option ℕ) (z : ℤ) → at_least_zero o ≡ some z → InRange z
unfolding at_least_zero
at_least_zero-InRange none z h = cc
at_least_zero-InRange (some n) (pos m) h = ground arith
at_least_zero-InRange (some n) (negsuc m) h = ground arith

below_zero-InRange : (o : Option ℕ) (z : ℤ) → below_zero o ≡ some z → InRange z
unfolding below_zero
below_zero-InRange none z h = cc
below_zero-InRange (some zero) (pos m) h = ground arith
below_zero-InRange (some (suc n)) (pos m) h = ground arith
below_zero-InRange (some zero) (negsuc m) h = ground arith
below_zero-InRange (some (suc n)) (negsuc m) h = ground arith

-- What is read fits an int64.
parse_int-InRange : (s : Bytes) (z : ℤ) → parse_int s ≡ some z → InRange z
unfolding parse_int
parse_int-InRange [] z h = cc
parse_int-InRange (c ∷ s) z h = elim (Bool-cases (c == b'-')) [
  | inl minus ↦ below_zero-InRange (parse_digits s) z (rw minus at h)
  | inr other ↦ elim (Bool-cases (c == b'+')) [
    | inl plus ↦ at_least_zero-InRange (parse_digits s) z (rw (other, plus) at h)
    | inr digit ↦ at_least_zero-InRange (parse_digits (c ∷ s)) z (rw (other, digit) at h)
  ]
]
