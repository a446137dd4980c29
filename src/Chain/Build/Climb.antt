-- ===== src/Chain/Build/Climb.antt =====
-- What `popIssuer` takes out of the candidates, and the chain that the loop of `BuildBundle` climbs.
use kmp_issuer.Base.{
  ℕ, zero, suc, ◌≤◌, ◌≡◌, ◌≢◌, refl, sym, ap, ◌⊎◌, inl, inr, true, false, List, [], ◌∷◌, Option,
  none, some, arith, length, if◌then◌else◌, In, here, there, In-cons_cases, All, Bool-cases,
}
use kmp_issuer.X509.{Certificate, Platform}
use kmp_issuer.Chain.Build.{is_issuer, pop_issuer, is_self_signed, climb}

module _ (p : Platform) where
  -- `pop_issuer` as a relation: the first candidate that is an issuer goes.
  pub data Pops (child : Certificate)
      : List Certificate → Certificate → List Certificate → Type 0 where
    take :
        {issuer : Certificate} {rest : List Certificate}
        → is_issuer p child issuer ≡ true
        → Pops child (issuer ∷ rest) issuer rest
    skip :
        {candidate issuer : Certificate} {candidates rest : List Certificate}
        → is_issuer p child candidate ≡ false
        → Pops child candidates issuer rest
        → Pops child (candidate ∷ candidates) issuer (candidate ∷ rest)

  -- What a result of `pop_issuer` says.
  abbrev pub PopsResult :
      Certificate → List Certificate → Option (Certificate × List Certificate) → Type 0
  PopsResult child candidates none = All (λ c. is_issuer p child c ≡ false) candidates
  PopsResult child candidates (some (issuer, rest)) = Pops child candidates issuer rest

  skip_result :
      (child c : Certificate) (candidates : List Certificate)
      (o : Option (Certificate × List Certificate))
      → is_issuer p child c ≡ false
      → PopsResult child candidates o
      → PopsResult child
          (c ∷ candidates)
          (elim o [ none ↦ none | some (issuer, left) ↦ some (issuer, c ∷ left) ])
  skip_result child c candidates none other h = (other, h)
  skip_result child c candidates (some (issuer, rest)) other h = skip other h

  pub pop_issuer-PopsResult :
      (child : Certificate) (candidates : List Certificate)
      → PopsResult child candidates (pop_issuer p candidates child)
  unfolding pop_issuer
  pop_issuer-PopsResult child [] = tt
  pop_issuer-PopsResult child (c ∷ candidates) = elim (Bool-cases (is_issuer p child c)) [
    | inl is ↦ rw is (take is)
    | inr other ↦ rw other (
        skip_result child c candidates (pop_issuer p candidates child) other
          (pop_issuer-PopsResult child candidates))
  ]

  pub Pops-is_issuer :
      {child issuer : Certificate} {candidates rest : List Certificate}
      → Pops child candidates issuer rest
      → is_issuer p child issuer ≡ true
  Pops-is_issuer (take is) = is
  Pops-is_issuer (skip other h) = Pops-is_issuer h

  pub Pops-length :
      {child issuer : Certificate} {candidates rest : List Certificate}
      → Pops child candidates issuer rest
      → length candidates ≡ suc (length rest)
  Pops-length (take is) = refl
  Pops-length (skip other h) = ap suc (Pops-length h)

  pub Pops-In_issuer :
      {child issuer : Certificate} {candidates rest : List Certificate}
      → Pops child candidates issuer rest
      → In issuer candidates
  Pops-In_issuer (take is) = here refl
  Pops-In_issuer (skip other h) = there (Pops-In_issuer h)

  pub Pops-In_rest :
      {child issuer : Certificate} {candidates rest : List Certificate} {c : Certificate}
      → Pops child candidates issuer rest
      → In c rest
      → In c candidates
  Pops-In_rest (take is) i = there i
  Pops-In_rest (skip other h) i = elim (In-cons_cases i) [
    | inl e ↦ here e
    | inr j ↦ there (Pops-In_rest h j)
  ]

  -- A candidate is taken or stays.
  pub Pops-In_cases :
      {child issuer : Certificate} {candidates rest : List Certificate} {c : Certificate}
      → Pops child candidates issuer rest
      → In c candidates
      → (issuer ≡ c) ⊎ In c rest
  Pops-In_cases (take is) i = In-cons_cases i
  Pops-In_cases (skip other h) i = elim (In-cons_cases i) [
    | inl e ↦ inr (here e)
    | inr j ↦ elim (Pops-In_cases h j) [ inl e ↦ inl e | inr k ↦ inr (there k) ]
  ]

  -- A property that the candidates share holds of the issuer and of the rest.
  pub Pops-All {ℓ} :
      (P : Certificate → Type ℓ) {child issuer : Certificate} {candidates rest : List Certificate}
      → Pops child candidates issuer rest
      → All P candidates
      → P issuer × All P rest
  Pops-All P (take is) a = a
  Pops-All P (skip other h) (c, a) = let (i, r) = Pops-All P h a in (i, (c, r))

-- No two certificates of the list have the same bytes.
abbrev pub Differs : Certificate → Certificate → Type 0
Differs c d = c.raw ≢ d.raw

abbrev pub AllDiffer : List Certificate → Type 0
AllDiffer [] = Unit
AllDiffer (c ∷ certs) = All (Differs c) certs × AllDiffer certs

module _ (p : Platform) where
  pub Pops-AllDiffer :
      {child issuer : Certificate} {candidates rest : List Certificate}
      → Pops p child candidates issuer rest
      → AllDiffer candidates
      → All (Differs issuer) rest × AllDiffer rest
  Pops-AllDiffer (take is) a = a
  Pops-AllDiffer (skip {candidate} {issuer} other h) (c, a) =
      let (i, r) = Pops-AllDiffer h a in
      let (apart, cs) = Pops-All p (Differs candidate) h c in ((λ e. apart (sym e), i), (cs, r))

  -- The loop of `BuildBundle` as a relation between what remains, the certificate reached and the
  -- chain above it.
  pub data Climbs : List Certificate → Certificate → List Certificate → Type 0 where
    no_issuer :
        {remaining : List Certificate} {current : Certificate}
        → All (λ c. is_issuer p current c ≡ false) remaining
        → Climbs remaining current []
    root :
        {remaining rest : List Certificate} {current issuer : Certificate}
        → Pops p current remaining issuer rest
        → is_self_signed p issuer ≡ true
        → Climbs remaining current (issuer ∷ [])
    higher :
        {remaining rest above : List Certificate} {current issuer : Certificate}
        → Pops p current remaining issuer rest
        → is_self_signed p issuer ≡ false
        → Climbs rest issuer above
        → Climbs remaining current (issuer ∷ above)

  -- One round on top of the others.
  round-Climbs :
      (fuel : ℕ) (remaining : List Certificate) (current : Certificate)
      (o : Option (Certificate × List Certificate))
      → PopsResult p current remaining o
      → length remaining ≤ suc fuel
      → ((rest : List Certificate) (issuer : Certificate)
          → length rest ≤ fuel
          → Climbs rest issuer (climb p fuel rest issuer))
      → Climbs remaining current (elim o [
        | none ↦ []
        | some (issuer, rest) ↦
            issuer ∷ (if is_self_signed p issuer then [] else climb p fuel rest issuer)
      ])
  round-Climbs fuel remaining current none h le ih = no_issuer h
  round-Climbs fuel remaining current (some (issuer, rest)) h le ih =
      elim (Bool-cases (is_self_signed p issuer)) [
        | inl self ↦ rw self (root h self)
        | inr not_self ↦
            rw not_self (higher h not_self (ih rest issuer (omega (arith, Pops-length p h))))
      ]

  nil_of_length : (certs : List Certificate) → length certs ≤ 0 → certs ≡ []
  nil_of_length [] h = refl
  nil_of_length (c ∷ certs) h = absurd (omega arith)

  -- With as many rounds as certificates remain the loop is run to its end.
  pub climb-Climbs :
      (fuel : ℕ) (remaining : List Certificate) (current : Certificate)
      → length remaining ≤ fuel
      → Climbs remaining current (climb p fuel remaining current)
  unfolding climb
  climb-Climbs zero remaining current le = rw (nil_of_length remaining le) (no_issuer tt)
  climb-Climbs (suc fuel) remaining current le =
      round-Climbs fuel remaining current (pop_issuer p remaining current)
        (pop_issuer-PopsResult p current remaining) le (climb-Climbs fuel)
