-- ===== src/Chain/Build/Others.antt =====
-- What `BuildBundle` starts its climb with: the certificates that are not the leaf.
use kmp_issuer.Base.{
  ap, sym, ◌∙◌, inl, inr, List, [], ◌∷◌, In, here, there, In-cons_cases, In-All, All-of_In,
  Bool-cases,
}
use kmp_issuer.Text.{str_eq, str_eq_iff, str_eq-eq-false}
use kmp_issuer.X509.{Certificate}
use kmp_issuer.Chain.Build.{others}
use kmp_issuer.Chain.Build.Climb.{Differs, AllDiffer}

pub others-In :
    (leaf : Certificate) {c : Certificate} (certs : List Certificate)
    → In c (others leaf certs)
    → In c certs × Differs c leaf
unfolding others
others-In leaf [] i = elim i [ ]
others-In leaf {c} (d ∷ certs) i = elim (Bool-cases (str_eq d.raw leaf.raw)) [
  | inl same ↦ let (j, apart) = others-In leaf certs (rw same at i) in (there j, apart)
  | inr differs ↦ elim (In-cons_cases (rw differs at i)) [
    | inl e ↦ (here e, λ same. str_eq-eq-false d.raw leaf.raw differs (ap Certificate.raw e ∙ same))
    | inr j ↦ let (k, apart) = others-In leaf certs j in (there k, apart)
  ]
]

pub In-others :
    (leaf : Certificate) {c : Certificate} (certs : List Certificate)
    → In c certs
    → Differs c leaf
    → In c (others leaf certs)
unfolding others
In-others leaf [] i apart = elim i [ ]
In-others leaf {c} (d ∷ certs) i apart = elim (Bool-cases (str_eq d.raw leaf.raw)) [
  | inl same ↦ rw same (elim (In-cons_cases i) [
    | inl e ↦ absurd (apart (ap Certificate.raw (sym e) ∙ (str_eq_iff d.raw leaf.raw).0 same))
    | inr j ↦ In-others leaf certs j apart
  ])
  | inr differs ↦
      rw differs
        (elim (In-cons_cases i) [ inl e ↦ here e | inr j ↦ there (In-others leaf certs j apart) ])
]

pub others-AllDiffer :
    (leaf : Certificate) (certs : List Certificate)
    → AllDiffer certs
    → AllDiffer (others leaf certs)
unfolding others
others-AllDiffer leaf [] a = tt
others-AllDiffer leaf (d ∷ certs) (apart, a) = elim (Bool-cases (str_eq d.raw leaf.raw)) [
  | inl same ↦ rw same (others-AllDiffer leaf certs a)
  | inr differs ↦ rw differs (
    All-of_In (Differs d) _ (λ c i. In-All (Differs d) (others-In leaf certs i).0 apart),
    others-AllDiffer leaf certs a,
  )
]
