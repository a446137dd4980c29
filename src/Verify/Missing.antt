-- ===== src/Verify/Missing.antt =====
-- When nothing is missing.
use kmp_issuer.Base.{
  ◌≡◌, refl, ◌↔◌, inl, inr, Bool, true, List, [], ◌∷◌, ◌++◌, any, In, here, there, sym, ◌∙◌,
  Bool-cases, In-cons_cases, subst,
}
use mathlib.Core.Bool.{false≢true, or-true}
use mathlib.Core.List.{cons-ne-nil}
use kmp_issuer.Text.{Bytes}
use kmp_issuer.Verify.{missing_from}

module _ {ℓ} {A : Type ℓ} (test : A → Bool) where
  pub any-In : (xs : List A) → any test xs ≡ true → (x : A) × In x xs × (test x ≡ true)
  any-In [] h = absurd (false≢true h)
  any-In (x ∷ xs) h = elim (Bool-cases (test x)) [
    | inl passes ↦ (x, here refl, passes)
    | inr fails ↦ let (y, i, e) = any-In xs (rw fails at h) in (y, there i, e)
  ]

  pub In-any : (xs : List A) (x : A) → In x xs → test x ≡ true → any test xs ≡ true
  In-any [] x i e = elim i [ ]
  In-any (y ∷ xs) x i e = elim (In-cons_cases i) [
    | inl same ↦ rw (subst (λ z. test z ≡ true) (sym same) e)
    | inr j ↦ rw (In-any xs x j e) (or-true (test y))
  ]

pub any_iff {ℓ} :
    {A : Type ℓ} (test : A → Bool) (xs : List A)
    → (any test xs ≡ true) ↔ ((x : A) × In x xs × (test x ≡ true))
any_iff test xs = (any-In test xs, λ (x, i, e). In-any test xs x i e)

pub append-eq-nil {ℓ} : {A : Type ℓ} (xs ys : List A) → xs ++ ys ≡ [] → (xs ≡ []) × (ys ≡ [])
append-eq-nil [] ys h = (refl, h)
append-eq-nil (x ∷ xs) ys h = cc

pub missing_from-eq-nil :
    (present : Bytes → Bool) (describe : Bytes → Bytes) (wants : List Bytes)
    → (missing_from present describe wants ≡ [])
      ↔ ((want : Bytes) → In want wants → present want ≡ true)
unfolding missing_from
missing_from-eq-nil present describe [] = (λ _ want i. elim i [ ], λ _. refl)
missing_from-eq-nil present describe (w ∷ wants) =
    let (to, from) = missing_from-eq-nil present describe wants in
    elim (Bool-cases (present w)) [
      | inl found ↦ (
        λ h want i. elim (In-cons_cases i) [
          | inl e ↦ subst (λ z. present z ≡ true) e found
          | inr j ↦ to (rw found at h) want j
        ],
        λ f. rw found (from λ want j. f want (there j)),
      )
      | inr lost ↦ (
        λ h. absurd (cons-ne-nil _ _ (rw lost at h)),
        λ f. absurd (false≢true (sym lost ∙ f w (here refl))),
      )
    ]

-- The same, for a test that decides a predicate.
pub missing_from_iff {ℓ} :
    {P : Bytes → Type ℓ} {present : Bytes → Bool}
    → ((want : Bytes) → (present want ≡ true) ↔ P want)
    → (describe : Bytes → Bytes) (wants : List Bytes)
    → (missing_from present describe wants ≡ []) ↔ ((want : Bytes) → In want wants → P want)
missing_from_iff {present} d describe wants =
    let (to, from) = missing_from-eq-nil present describe wants in
    (λ h want i. (d want).0 (to h want i), λ f. from (λ want i. (d want).1 (f want i)))
