-- ===== src/Chain/Extract/Distinct.antt =====
-- The certificates that `certificatesFromStrings` returns have different bytes.
use kmp_issuer.Base.{
  ◌≡◌, sym, ap, ◌∙◌, inl, inr, true, List, [], ◌∷◌, ◌++◌, none, All, All-append, All-of_In, In-All,
  Bool-cases, Option-cases, ok, arith, subst,
}
use kmp_issuer.Text.{Bytes, codes, contains, member, str_eq_refl}
use mathlib.Core.Bool.{true≢false}
use kmp_issuer.X509.{Certificate, Platform}
use kmp_issuer.Chain.Build.Climb.{Differs, AllDiffer}
use kmp_issuer.Chain.Extract.{
  Scan, add, add_all, scan_value, scan_values, finish, certificates_from_strings,
  parse_base64_certificate,
}

-- The certificates kept differ, and the bytes of each are among those seen.
record IsDistinct (s : Scan) : Type 0 where
  differ : AllDiffer s.certs
  seen_all : All (λ c. member c.raw s.seen ≡ true) s.certs

AllDiffer-concat :
    (certs : List Certificate) (c : Certificate)
    → AllDiffer certs
    → All (λ d. Differs d c) certs
    → AllDiffer (certs ++ c ∷ [])
AllDiffer-concat [] c a h = (tt, tt)
AllDiffer-concat (d ∷ certs) c (apart, a) (hd, h) =
    (All-append (Differs d) certs (c ∷ []) apart (hd, tt), AllDiffer-concat certs c a h)

member-cons : (x y : Bytes) (l : List Bytes) → member x l ≡ true → member x (y ∷ l) ≡ true
unfolding member
member-cons x y l h = ground arith

member_head : (x : Bytes) (l : List Bytes) → member x (x ∷ l) ≡ true
unfolding member
member_head x l = rw str_eq_refl

add-IsDistinct : (cert : Certificate) {s : Scan} → IsDistinct s → IsDistinct (add cert s)
unfolding add
add-IsDistinct cert {s} h = elim (Bool-cases (member cert.raw s.seen)) [
  | inl dup ↦ rw dup h
  | inr new ↦ rw new (record {
    differ = AllDiffer-concat s.certs cert h.differ (
        All-of_In _ s.certs
          λ d i e. true≢false (sym (In-All _ i h.seen_all) ∙ ap (λ x. member x s.seen) e ∙ new));
    seen_all =
        All-append _ s.certs (cert ∷ [])
          (All-of_In _ s.certs λ d i. member-cons d.raw cert.raw s.seen (In-All _ i h.seen_all))
          (member_head cert.raw s.seen, tt);
  })
]

add_all-IsDistinct :
    (certs : List Certificate) {s : Scan} → IsDistinct s → IsDistinct (add_all certs s)
unfolding add_all
add_all-IsDistinct [] h = h
add_all-IsDistinct (cert ∷ certs) h = add_all-IsDistinct certs (add-IsDistinct cert h)

module _ (p : Platform) where
  scan_value-IsDistinct :
      (value : Bytes) {s : Scan} → IsDistinct s → IsDistinct (scan_value p value s)
  unfolding scan_value
  scan_value-IsDistinct value {s} h = elim (Bool-cases (contains value (codes "-----BEGIN"))) [
    | inl pem ↦ rw pem (add_all-IsDistinct _ (record { differ = h.differ; seen_all = h.seen_all }))
    | inr other ↦ elim (Option-cases (parse_base64_certificate p value)) [
      | inl nothing ↦ rw (other, nothing) h
      | inr (cert, found) ↦ rw (other, found) (add-IsDistinct cert h)
    ]
  ]

  scan_values-IsDistinct :
      (values : List Bytes) {s : Scan} → IsDistinct s → IsDistinct (scan_values p values s)
  unfolding scan_values
  scan_values-IsDistinct [] h = h
  scan_values-IsDistinct (value ∷ values) h =
      scan_values-IsDistinct values (scan_value-IsDistinct value h)

  finish-certs : (s : Scan) {certs : List Certificate} → finish p s ≡ ok certs → s.certs ≡ certs
  finish-certs s h = ground arith

  -- No two certificates that `certificatesFromStrings` returns have the same bytes.
  pub certificates_from_strings-AllDiffer :
      (values : List Bytes) (certs : List Certificate)
      → certificates_from_strings p values ≡ ok certs
      → AllDiffer certs
  unfolding certificates_from_strings
  certificates_from_strings-AllDiffer values certs h =
      subst AllDiffer
        (finish-certs (scan_values p values (record { certs = []; seen = []; first_err = none })) h)
        (IsDistinct.differ (scan_values-IsDistinct values (record { differ = tt; seen_all = tt })))
