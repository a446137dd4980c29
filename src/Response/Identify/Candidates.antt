-- ===== src/Response/Identify/Candidates.antt =====
-- The identifiers that the walk of `findIDForCommonName` comes across, in its order, as a list.
use mathlib.Core.List.{foldl}
use kmp_issuer.Base.{
  ◌≡◌, refl, sym, inl, inr, Bool-cases, Option-cases, ap, ap₂, fun_ext, ◌∙◌, List, [], ◌∷◌, ◌++◌,
  none, some, arith, if◌then◌else◌,
}
use kmp_issuer.Text.{Bytes, Unicode}
use kmp_issuer.Text.Order.{insert, sort_by_key}
use kmp_issuer.Json.{Json, null, boolean, num, str, arr, obj, Items, nil, cons, Fields, end, field}
use kmp_issuer.Response.Keys.{is_wanted, scalar_string}
use kmp_issuer.Response.Collect.{in_turn}
use kmp_issuer.Response.Identify.{
  Best, offer, run_all, record_matches, offer_ids, walk, walk_fields, walk_items,
}

-- The walk over one identifier after the other.
abbrev pub offer_all : List Bytes → Best → Best
offer_all out b = foldl (λ c id. offer id c) b out

offer_all-append :
    (xs ys : List Bytes) (b : Best) → offer_all (xs ++ ys) b ≡ offer_all ys (offer_all xs b)
offer_all-append [] ys b = refl
offer_all-append (x ∷ xs) ys b = offer_all-append xs ys (offer x b)

-- Each output as a step of the walk.
steps : List (Bytes × List Bytes) → List (Bytes × (Best → Best))
steps [] = []
steps ((key, out) ∷ rest) = (key, offer_all out) ∷ steps rest

steps-insert :
    (k : Bytes) (out : List Bytes) (l : List (Bytes × List Bytes))
    → steps (insert k out l) ≡ insert k (offer_all out) (steps l)
unfolding steps insert
steps-insert k out [] = refl
steps-insert k out ((j, other) ∷ rest) = ground (arith, steps-insert k out rest)

steps-sort_by_key : (l : List (Bytes × List Bytes)) → steps (sort_by_key l) ≡ sort_by_key (steps l)
unfolding steps sort_by_key
steps-sort_by_key [] = refl
steps-sort_by_key ((k, out) ∷ rest) =
    steps-insert k out (sort_by_key rest) ∙ ap (insert k (offer_all out)) (steps-sort_by_key rest)

run_all-steps :
    (l : List (Bytes × List Bytes)) (b : Best) → run_all (steps l) b ≡ offer_all (in_turn l) b
unfolding steps run_all in_turn
run_all-steps [] b = refl
run_all-steps ((k, out) ∷ rest) b =
    run_all-steps rest (offer_all out b) ∙ sym (offer_all-append out (in_turn rest) b)

run_all_of_steps :
    {walks : List (Bytes × (Best → Best))} (outs : List (Bytes × List Bytes)) (own : List Bytes)
    (b : Best) {c : Best}
    → walks ≡ steps outs
    → c ≡ offer_all own b
    → run_all (sort_by_key walks) c ≡ offer_all (own ++ in_turn (sort_by_key outs)) b
run_all_of_steps outs own b p q =
    rw (p, q, ← steps-sort_by_key, run_all-steps, offer_all-append) refl

module _ (u : Unicode) (ids names : List Bytes) (common_name : Bytes) where
  -- The identifiers of one map.
  unfoldable pub own_ids : Fields → List Bytes
  own_ids end = []
  own_ids (field key value fs) =
      let rest = own_ids fs in
      if is_wanted u ids key
      then elim (scalar_string value) [ some id ↦ id ∷ rest | none ↦ rest ]
      else rest

  unfoldable pub matched_ids : Fields → List Bytes
  matched_ids fs = if record_matches u ids names common_name fs then own_ids fs else []

  -- The identifiers of the matching records of a document.
  unfoldable mutual
    pub candidates : Json → List Bytes
    candidates (obj fs) = matched_ids fs ++ in_turn (sort_by_key (candidate_fields fs))
    candidates (arr items) = candidate_items items
    candidates null = []
    candidates (boolean _) = []
    candidates (num n) = []
    candidates (str s) = []

    pub candidate_fields : Fields → List (Bytes × List Bytes)
    candidate_fields end = []
    candidate_fields (field key value fs) = (key, candidates value) ∷ candidate_fields fs

    pub candidate_items : Items → List Bytes
    candidate_items nil = []
    candidate_items (cons item items) = candidates item ++ candidate_items items

  offer_ids-own_ids :
      (fs : Fields) (b : Best) → offer_ids u ids names common_name fs b ≡ offer_all (own_ids fs) b
  unfolding offer_ids own_ids
  offer_ids-own_ids end b = refl
  offer_ids-own_ids (field key value fs) b = elim (Bool-cases (is_wanted u ids key)) [
    | inr other ↦ rw other (offer_ids-own_ids fs b)
    | inl e ↦ elim (Option-cases (scalar_string value)) [
      | inl no_scalar ↦ rw (e, no_scalar) (offer_ids-own_ids fs b)
      | inr (id, f) ↦ rw (e, f) (offer_ids-own_ids fs (offer id b))
    ]
  ]

  own_step :
      (fs : Fields) (b : Best)
      → (if record_matches u ids names common_name fs
          then offer_ids u ids names common_name fs b
          else b)
        ≡ offer_all (matched_ids fs) b
  unfolding matched_ids
  own_step fs b = ground (arith, offer_ids-own_ids fs b)

  mutual
    unfolding walk candidates steps

    walk-candidates_lem :
        (d : Json) (b : Best) → walk u ids names common_name d b ≡ offer_all (candidates d) b
    walk-candidates_lem (obj fs) b =
        run_all_of_steps (candidate_fields fs) (matched_ids fs) b (walk_fields-candidate_fields fs)
          (own_step fs b)
    walk-candidates_lem (arr items) b = walk_items-candidate_items items b
    walk-candidates_lem null b = refl
    walk-candidates_lem (boolean _) b = refl
    walk-candidates_lem (num n) b = refl
    walk-candidates_lem (str s) b = refl

    walk_fields-candidate_fields :
        (fs : Fields) → walk_fields u ids names common_name fs ≡ steps (candidate_fields fs)
    walk_fields-candidate_fields end = refl
    walk_fields-candidate_fields (field key value fs) =
        ap₂ (λ (f : Best → Best) (l : List (Bytes × (Best → Best))). (key, f) ∷ l)
          (fun_ext (walk-candidates_lem value)) (walk_fields-candidate_fields fs)

    walk_items-candidate_items :
        (items : Items) (b : Best)
        → walk_items u ids names common_name items b ≡ offer_all (candidate_items items) b
    walk_items-candidate_items nil b = refl
    walk_items-candidate_items (cons item items) b =
        walk_items-candidate_items items (walk u ids names common_name item b)
        ∙ ap (offer_all (candidate_items items)) (walk-candidates_lem item b)
        ∙ sym (offer_all-append (candidates item) (candidate_items items) b)

  -- The walk over a document is the walk over the list of its candidates.
  pub walk-candidates :
      (d : Json) (b : Best) → walk u ids names common_name d b ≡ offer_all (candidates d) b
  walk-candidates d b = walk-candidates_lem d b
