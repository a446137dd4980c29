-- ===== src/Chain/Build/Ascent.antt =====
-- The chain that the loop of `BuildBundle` climbs: every certificate is signed by the next one, and
-- the climb ends only where it has to.
use kmp_issuer.Base.{
  ◌≡◌, ◌⊎◌, inl, inr, true, false, List, [], ◌∷◌, In, here, there, In-cons_cases, In_subst, In-All,
  All-of_In,
}
use mathlib.Core.Bool.{and-eq-true_iff}
use kmp_issuer.Text.{str_eq_iff}
use kmp_issuer.X509.{Certificate, Platform}
use kmp_issuer.Chain.Build.{is_issuer, is_self_signed}
use kmp_issuer.Chain.Build.Climb.{
  Climbs, no_issuer, root, higher, Pops-is_issuer, Pops-In_issuer, Pops-In_rest, Pops-In_cases,
  Pops-AllDiffer, Differs, AllDiffer,
}

module _ (p : Platform) where
  -- Each certificate names the next as its issuer, and is signed by it.
  abbrev pub IsSignedChain : Certificate → List Certificate → Type 0
  IsSignedChain child [] = Unit
  IsSignedChain child (issuer ∷ above) =
      (issuer.raw_subject ≡ child.raw_issuer)
      × (Platform.signed_by p child issuer ≡ true)
      × IsSignedChain issuer above

  is_issuer-true :
      {child issuer : Certificate}
      → is_issuer p child issuer ≡ true
      → (issuer.raw_subject ≡ child.raw_issuer) × (Platform.signed_by p child issuer ≡ true)
  unfolding is_issuer
  is_issuer-true {child} {issuer} h =
      let (same, signed) = (and-eq-true_iff _ _).0 h in
      ((str_eq_iff issuer.raw_subject child.raw_issuer).0 same, signed)

  pub Climbs-IsSignedChain :
      {remaining above : List Certificate} {current : Certificate}
      → Climbs p remaining current above
      → IsSignedChain current above
  Climbs-IsSignedChain (no_issuer h) = tt
  Climbs-IsSignedChain (root h self) =
      let (names, signed) = is_issuer-true (Pops-is_issuer p h) in (names, signed, tt)
  Climbs-IsSignedChain (higher h not_self r) =
      let (names, signed) = is_issuer-true (Pops-is_issuer p h) in
      (names, signed, Climbs-IsSignedChain r)

  pub Climbs-In :
      {remaining above : List Certificate} {current c : Certificate}
      → Climbs p remaining current above
      → In c above
      → In c remaining
  Climbs-In (no_issuer h) i = elim i [ ]
  Climbs-In (root h self) i = elim (In-cons_cases i) [
    | inl e ↦ In_subst e (Pops-In_issuer p h)
    | inr j ↦ elim j [ ]
  ]
  Climbs-In (higher h not_self r) i = elim (In-cons_cases i) [
    | inl e ↦ In_subst e (Pops-In_issuer p h)
    | inr j ↦ Pops-In_rest p h (Climbs-In r j)
  ]

  pub Climbs-AllDiffer :
      {remaining above : List Certificate} {current : Certificate}
      → Climbs p remaining current above
      → AllDiffer remaining
      → AllDiffer above
  Climbs-AllDiffer (no_issuer h) a = tt
  Climbs-AllDiffer (root h self) a = (tt, tt)
  Climbs-AllDiffer (higher {above} {issuer} h not_self r) a =
      let (apart, rest) = Pops-AllDiffer p h a in
      (
        All-of_In (Differs issuer) above (λ c i. In-All (Differs issuer) (Climbs-In r i) apart),
        Climbs-AllDiffer r rest,
      )

  -- The last certificate of a chain.
  abbrev pub top : Certificate → List Certificate → Certificate
  top current [] = current
  top current (issuer ∷ above) = top issuer above

  -- A certificate that remained was taken, or the climb ended at a self-signed certificate, or at
  -- one that it did not issue.
  pub Climbs-top :
      {remaining above : List Certificate} {current : Certificate} (c : Certificate)
      → Climbs p remaining current above
      → In c remaining
      → In c above
        ⊎ (is_self_signed p (top current above) ≡ true)
        ⊎ (is_issuer p (top current above) c ≡ false)
  Climbs-top c (no_issuer {current} h) i =
      inr (inr (In-All (λ c. is_issuer p current c ≡ false) i h))
  Climbs-top c (root h self) i = inr (inl self)
  Climbs-top c (higher h not_self r) i = elim (Pops-In_cases p h i) [
    | inl e ↦ inl (here e)
    | inr j ↦ elim (Climbs-top c r j) [ inl k ↦ inl (there k) | inr ends ↦ inr ends ]
  ]
