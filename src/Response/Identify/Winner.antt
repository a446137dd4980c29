-- ===== src/Response/Identify/Winner.antt =====
-- Which of the candidates `findIDForCommonName` answers with.
use kmp_issuer.Base.{
  ℕ, ◌≤◌, ◌≡◌, refl, ap, subst, ◌≢◌, sym, ◌∙◌, ◌⊎◌, inl, inr, true, false, ◌&&◌, List, [], ◌∷◌,
  Option, none, some, arith, is_nil, ℤ, pos, negsuc, ltz, In, here, there, Bool-cases,
}
use mathlib.Core.Option.{none-ne-some}
use kmp_issuer.Text.{Bytes, Unicode}
use kmp_issuer.Text.Decimal.{parse_int}
use kmp_issuer.Json.{Json}
use kmp_issuer.Response.Keys.{wanted_keys}
use kmp_issuer.Response.Identify.{
  Best, none_yet, offer, offer_parsed, answer, find_id_for_common_name,
}
use kmp_issuer.Response.Identify.Candidates.{offer_all, candidates, walk-candidates}

-- The value that is kept never falls.
ltz_irrefl : (z : ℤ) → ltz z z ≡ false
ltz_irrefl (pos n) = ground arith
ltz_irrefl (negsuc n) = ground arith

not-ltz_trans : (a b c : ℤ) → ltz b a ≡ false → ltz c b ≡ false → ltz c a ≡ false
not-ltz_trans (pos a) (pos b) (pos c) h k = ground arith
not-ltz_trans (pos a) (pos b) (negsuc c) h k = ground arith
not-ltz_trans (pos a) (negsuc b) (pos c) h k = ground arith
not-ltz_trans (pos a) (negsuc b) (negsuc c) h k = ground arith
not-ltz_trans (negsuc a) (pos b) (pos c) h k = ground arith
not-ltz_trans (negsuc a) (pos b) (negsuc c) h k = ground arith
not-ltz_trans (negsuc a) (negsuc b) (pos c) h k = ground arith
not-ltz_trans (negsuc a) (negsuc b) (negsuc c) h k = ground arith

ltz_asymm : (a b : ℤ) → ltz a b ≡ true → ltz b a ≡ false
ltz_asymm (pos a) (pos b) h = ground arith
ltz_asymm (pos a) (negsuc b) h = ground arith
ltz_asymm (negsuc a) (pos b) h = ground arith
ltz_asymm (negsuc a) (negsuc b) h = ground arith

offer_parsed-grows :
    (o : Option ℤ) (id : Bytes) (b : Best)
    → ltz (offer_parsed o id b).best_value b.best_value ≡ false
unfolding offer_parsed
offer_parsed-grows (some numeric) id b = elim (Bool-cases (ltz b.best_value numeric)) [
  | inl higher ↦ rw higher (ltz_asymm b.best_value numeric higher)
  | inr lower ↦ rw lower (ltz_irrefl b.best_value)
]
offer_parsed-grows none id b = elim (Bool-cases (ltz b.best_value (pos 0) && is_nil b.best)) [
  | inl first ↦ rw first (ltz_irrefl b.best_value)
  | inr later ↦ rw later (ltz_irrefl b.best_value)
]

offer_all-grows :
    (xs : List Bytes) (b : Best) → ltz (offer_all xs b).best_value b.best_value ≡ false
unfolding offer
offer_all-grows [] b = ltz_irrefl b.best_value
offer_all-grows (x ∷ xs) b =
    not-ltz_trans b.best_value (offer x b).best_value (offer_all xs (offer x b)).best_value
      (offer_parsed-grows (parse_int x) x b) (offer_all-grows xs (offer x b))

-- After an identifier with a number has been offered, that number is not above the value kept.
offer_parsed-covers :
    (id : Bytes) (b : Best) (z : ℤ) → ltz (offer_parsed (some z) id b).best_value z ≡ false
unfolding offer_parsed
offer_parsed-covers id b z = elim (Bool-cases (ltz b.best_value z)) [
  | inl higher ↦ rw higher (ltz_irrefl z)
  | inr lower ↦ rw lower lower
]

offer_all-covers :
    (id : Bytes) (z : ℤ) {xs : List Bytes} (b : Best)
    → In id xs
    → parse_int id ≡ some z
    → ltz (offer_all xs b).best_value z ≡ false
unfolding offer
offer_all-covers id z b (here {x} {xs} e) h =
    not-ltz_trans z (offer x b).best_value (offer_all xs (offer x b)).best_value
      (rw (e, h) (offer_parsed-covers id b z)) (offer_all-grows xs (offer x b))
offer_all-covers id z b (there {x} i) h = offer_all-covers id z (offer x b) i h

number-ne-nil : (s : Bytes) (z : ℤ) → parse_int s ≡ some z → ¬ (is_nil s ≡ true)
unfolding parse_int
number-ne-nil [] z h k = cc
number-ne-nil (c ∷ s) z h k = cc

-- The value kept is that of the identifier kept, once it is not the initial one.
abbrev IsExact : Best → Type 0
IsExact b = (b.best_value ≡ negsuc 0) ⊎ (parse_int b.best ≡ some b.best_value)

offer_parsed-IsExact :
    (o : Option ℤ) (id : Bytes) (b : Best)
    → parse_int id ≡ o
    → IsExact b
    → IsExact (offer_parsed o id b)
unfolding offer_parsed
offer_parsed-IsExact (some numeric) id b e h = elim (Bool-cases (ltz b.best_value numeric)) [
  | inl higher ↦ rw higher (inr e)
  | inr lower ↦ rw lower h
]
offer_parsed-IsExact none id b e h = elim (Bool-cases (ltz b.best_value (pos 0) && is_nil b.best)) [
  | inl first ↦ rw first (elim h [
    | inl initial ↦ inl initial
    | inr exact ↦ absurd (number-ne-nil b.best b.best_value exact (ground arith))
  ])
  | inr later ↦ rw later h
]

offer_all-IsExact : (xs : List Bytes) (b : Best) → IsExact b → IsExact (offer_all xs b)
unfolding offer
offer_all-IsExact [] b h = h
offer_all-IsExact (x ∷ xs) b h =
    offer_all-IsExact xs (offer x b) (offer_parsed-IsExact (parse_int x) x b refl h)

-- The identifier kept is one that was offered.
offer_parsed-best :
    (o : Option ℤ) (id : Bytes) (b : Best)
    → ((offer_parsed o id b).best ≡ b.best) ⊎ ((offer_parsed o id b).best ≡ id)
unfolding offer_parsed
offer_parsed-best (some numeric) id b = ground arith
offer_parsed-best none id b = ground arith

offer_all-In :
    (xs : List Bytes) (b : Best) → ((offer_all xs b).best ≡ b.best) ⊎ In (offer_all xs b).best xs
unfolding offer
offer_all-In [] b = inl refl
offer_all-In (x ∷ xs) b = elim (offer_all-In xs (offer x b)) [
  | inr later ↦ inr (there later)
  | inl kept ↦ elim (offer_parsed-best (parse_int x) x b) [
    | inl old ↦ inl (kept ∙ old)
    | inr new ↦ inr (here (sym (kept ∙ new)))
  ]
]

offer_parsed-found : (o : Option ℤ) (id : Bytes) (b : Best) → (offer_parsed o id b).found ≡ true
unfolding offer_parsed
offer_parsed-found (some numeric) id b = ground arith
offer_parsed-found none id b = ground arith

offer_all-found_keeps :
    (xs : List Bytes) (b : Best) → b.found ≡ true → (offer_all xs b).found ≡ true
unfolding offer
offer_all-found_keeps [] b h = h
offer_all-found_keeps (x ∷ xs) b h =
    offer_all-found_keeps xs (offer x b) (offer_parsed-found (parse_int x) x b)

offer_all-found : {x : Bytes} {xs : List Bytes} (b : Best) → In x xs → (offer_all xs b).found ≡ true
unfolding offer
offer_all-found b (here {x} {xs} e) =
    offer_all-found_keeps xs (offer x b) (offer_parsed-found (parse_int x) x b)
offer_all-found b (there {x} {xs} i) =
    offer_all-found_keeps xs (offer x b) (offer_parsed-found (parse_int x) x b)

-- A value that covers a natural number is one, and at least as large.
covers_pos : (a : ℤ) (v : ℕ) → ltz a (pos v) ≡ false → (w : ℕ) × (a ≡ pos w) × (v ≤ w)
covers_pos (pos w) v h = (w, refl, ground arith)
covers_pos (negsuc w) v h = cc

answer_some : (b : Best) (s : Bytes) → answer b ≡ some s → b.best ≡ s
answer_some b s h = ground arith

answer_of_number :
    (b : Best) (z : ℤ) → b.found ≡ true → parse_int b.best ≡ some z → answer b ≡ some b.best
answer_of_number b z found exact = elim (Bool-cases (is_nil b.best)) [
  | inl empty ↦ absurd (number-ne-nil b.best z exact empty)
  | inr full ↦ ground arith
]

pos-ne-negsuc : (m n : ℕ) → pos m ≢ negsuc n
pos-ne-negsuc m n h = cc

answer-ne-nil : (b : Best) → answer b ≢ some []
answer-ne-nil b h = ground arith

module _ (u : Unicode) (doc : Json) (common_name : Bytes) (id_keys names : List Bytes) where
  -- The identifiers in the records of `doc` that bear the common name.
  abbrev pub ids_of : List Bytes
  ids_of = candidates u (wanted_keys u id_keys) (wanted_keys u names) common_name doc

  abbrev final : Best
  final = offer_all ids_of none_yet

  find_id-answer :
      is_nil common_name ≡ false
      → find_id_for_common_name u doc common_name id_keys names ≡ answer final
  unfolding find_id_for_common_name
  find_id-answer named = rw (named, walk-candidates)

  find_id-named :
      {id : Bytes}
      → find_id_for_common_name u doc common_name id_keys names ≡ some id
      → is_nil common_name ≡ false
  unfolding find_id_for_common_name
  find_id-named h = elim (Bool-cases (is_nil common_name)) [
    | inl empty ↦ absurd (none-ne-some _ (rw empty at h))
    | inr named ↦ named
  ]

  -- What `findIDForCommonName` answers is an identifier of a record that bears the common name.
  pub find_id-In :
      {id : Bytes}
      → find_id_for_common_name u doc common_name id_keys names ≡ some id
      → In id ids_of
  find_id-In {id} h =
      let e : answer final ≡ some id = sym (find_id-answer (find_id-named h)) ∙ h in
      let kept : final.best ≡ id = answer_some final id e in
      elim (offer_all-In ids_of none_yet) [
        | inl empty ↦ absurd (answer-ne-nil final (rw (sym kept ∙ empty) at e))
        | inr i ↦ subst (λ s. In s ids_of) kept i
      ]

  -- Where some record with the common name has an identifier that is the numeral of `v`, the answer
  -- of `findIDForCommonName` is such an identifier, its number is `v` or more, and so it is no
  -- smaller than that of any other candidate.
  pub find_id_highest :
      (id : Bytes) (v : ℕ)
      → is_nil common_name ≡ false
      → In id ids_of
      → parse_int id ≡ some (pos v)
      → (best : Bytes) × (w : ℕ) × (find_id_for_common_name u doc common_name id_keys names
          ≡ some best)
        × In best ids_of
        × (parse_int best ≡ some (pos w))
        × (v ≤ w)
  find_id_highest id v named i e =
      let (w, is_w, le) =
        covers_pos final.best_value v (offer_all-covers id (pos v) none_yet i e) in
      let exact : parse_int final.best ≡ some (pos w) =
        elim (offer_all-IsExact ids_of none_yet (inl refl)) [
          | inl initial ↦ absurd (pos-ne-negsuc w 0 (sym is_w ∙ initial))
          | inr number ↦ number ∙ ap {B = Option ℤ} some is_w
        ] in
      let found =
        find_id-answer named ∙ answer_of_number final (pos w) (offer_all-found none_yet i) exact in
      (final.best, w, found, find_id-In found, exact, le)
