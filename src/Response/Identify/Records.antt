-- ===== src/Response/Identify/Records.antt =====
-- Every candidate of `findIDForCommonName` stands in a record that bears the common name.
use kmp_issuer.Base.{
  ◌≡◌, ap, ◌∙◌, ◌⊎◌, Option, In-cons_cases, inl, inr, true, List, [], ◌∷◌, some, In,
  In-append_cases, In-append_left, In-append_right, Bool-cases, Option-cases,
}
use kmp_issuer.Text.{Bytes, Unicode, equal_fold, trim_space}
use kmp_issuer.Text.Order.{insert, sort_by_key, text_le}
use kmp_issuer.Json.{Json, null, boolean, num, str, arr, obj, Items, nil, cons, Fields, end, field}
use kmp_issuer.Json.Within.{
  HasField, first, later, HasItem, head, next, Within, whole_doc, in_field, in_item,
}
use kmp_issuer.Response.Keys.{is_wanted, scalar_string, wanted_keys}
use kmp_issuer.Response.Collect.{in_turn}
use kmp_issuer.Response.Identify.{record_matches, find_id_for_common_name}
use kmp_issuer.Response.Identify.Candidates.{
  own_ids, matched_ids, candidates, candidate_fields, candidate_items,
}
use kmp_issuer.Response.Identify.Winner.{find_id-In}

In-insert :
    {s : Bytes} (k : Bytes) (out : List Bytes) (l : List (Bytes × List Bytes))
    → In s (in_turn (insert k out l))
    → In s out ⊎ In s (in_turn l)
unfolding in_turn insert
In-insert k out [] i = In-append_cases out i
In-insert k out ((j, other) ∷ rest) i = elim (Bool-cases (text_le k j)) [
  | inl before ↦ In-append_cases out (rw before at i)
  | inr after ↦ elim (In-append_cases other (rw after at i)) [
    | inl l ↦ inr (In-append_left (in_turn rest) l)
    | inr r ↦ elim (In-insert k out rest r) [
      | inl l ↦ inl l
      | inr m ↦ inr (In-append_right other m)
    ]
  ]
]

not-In-nil : {s : Bytes} → ¬ In s []
not-In-nil i = elim i [ ]

-- Sorting by key adds nothing.
In-sort_by_key :
    {s : Bytes} (l : List (Bytes × List Bytes)) → In s (in_turn (sort_by_key l)) → In s (in_turn l)
unfolding in_turn sort_by_key
In-sort_by_key [] i = i
In-sort_by_key ((k, out) ∷ rest) i = elim (In-insert k out (sort_by_key rest) i) [
  | inl l ↦ In-append_left (in_turn rest) l
  | inr r ↦ In-append_right out (In-sort_by_key rest r)
]

module _ (u : Unicode) (ids names : List Bytes) (common_name : Bytes) where
  -- An entry of the map has one of the searched names, and its scalar is the common name.
  pub record BearsName (r : Fields) : Type 0 where
    pub key : Bytes
    pub value : Json
    pub name : Bytes
    pub entry : HasField key value r
    pub name_key : is_wanted u names key ≡ true
    pub scalar : scalar_string value ≡ some name
    pub equal : equal_fold u (trim_space name) common_name ≡ true

  -- An entry of the map stands under an identifier key, and its scalar is `id`.
  pub record BearsId (r : Fields) (id : Bytes) : Type 0 where
    pub key : Bytes
    pub value : Json
    pub entry : HasField key value r
    pub id_key : is_wanted u ids key ≡ true
    pub scalar : scalar_string value ≡ some id

  name_later : (k : Bytes) (v : Json) {fs : Fields} → BearsName fs → BearsName (field k v fs)
  name_later k v b = record {
    key = b.key;
    value = b.value;
    name = b.name;
    entry = later b.entry;
    name_key = b.name_key;
    scalar = b.scalar;
    equal = b.equal;
  }

  record_matches-BearsName :
      (fs : Fields) → record_matches u ids names common_name fs ≡ true → BearsName fs
  unfolding record_matches
  record_matches-BearsName end h = cc
  record_matches-BearsName (field k v fs) h = elim (Bool-cases (is_wanted u names k)) [
    | inr other ↦ name_later k v (record_matches-BearsName fs (rw other at h))
    | inl wanted ↦ elim (Option-cases (scalar_string v)) [
      | inl no_scalar ↦ name_later k v (record_matches-BearsName fs (rw (wanted, no_scalar) at h))
      | inr (name, scalar) ↦ elim (Bool-cases (equal_fold u (trim_space name) common_name)) [
        | inl equal ↦ record {
          key = k;
          value = v;
          name = name;
          entry = first;
          name_key = wanted;
          scalar = scalar;
          equal = equal;
        }
        | inr differs ↦
            name_later k v (record_matches-BearsName fs (rw (wanted, scalar, differs) at h))
      ]
    ]
  ]

  id_later :
      (k : Bytes) (v : Json) {fs : Fields} {id : Bytes} → BearsId fs id → BearsId (field k v fs) id
  id_later k v b = record {
    key = b.key;
    value = b.value;
    entry = later b.entry;
    id_key = b.id_key;
    scalar = b.scalar;
  }

  own_ids-BearsId :
      {id : Bytes} (fs : Fields) → In id (own_ids u ids names common_name fs) → BearsId fs id
  unfolding own_ids
  own_ids-BearsId end i = elim i [ ]
  own_ids-BearsId {id} (field k v fs) i = elim (Bool-cases (is_wanted u ids k)) [
    | inr other ↦ id_later k v (own_ids-BearsId fs (rw other at i))
    | inl wanted ↦ elim (Option-cases (scalar_string v)) [
      | inl no_scalar ↦ id_later k v (own_ids-BearsId fs (rw (wanted, no_scalar) at i))
      | inr (s, scalar) ↦ elim (In-cons_cases (rw (wanted, scalar) at i)) [
        | inl e ↦ record {
          key = k;
          value = v;
          entry = first;
          id_key = wanted;
          scalar = scalar ∙ ap {B = Option Bytes} some e;
        }
        | inr j ↦ id_later k v (own_ids-BearsId fs j)
      ]
    ]
  ]

  -- A map of the document that bears the name, and `id` as an identifier.
  pub record IsRecordOf (id : Bytes) (d : Json) : Type 0 where
    pub fields : Fields
    pub within : Within fields d
    pub named : BearsName fields
    pub identified : BearsId fields id

  in_value :
      (k : Bytes) (v : Json) {id : Bytes} {fs : Fields}
      → HasField k v fs
      → IsRecordOf id v
      → IsRecordOf id (obj fs)
  in_value k v e r = record {
    fields = r.fields;
    within = in_field k v e r.within;
    named = r.named;
    identified = r.identified;
  }

  in_element :
      (v : Json) {id : Bytes} {xs : Items} → HasItem v xs → IsRecordOf id v → IsRecordOf id (arr xs)
  in_element v e r = record {
    fields = r.fields;
    within = in_item v e r.within;
    named = r.named;
    identified = r.identified;
  }

  matched_ids-IsRecordOf :
      {id : Bytes} (fs : Fields)
      → In id (matched_ids u ids names common_name fs)
      → IsRecordOf id (obj fs)
  unfolding matched_ids
  matched_ids-IsRecordOf fs i = elim (Bool-cases (record_matches u ids names common_name fs)) [
    | inl matches ↦ record {
      fields = fs;
      within = whole_doc;
      named = record_matches-BearsName fs matches;
      identified = own_ids-BearsId fs (rw matches at i);
    }
    | inr differs ↦ absurd (not-In-nil (rw differs at i))
  ]

  mutual
    unfolding candidates in_turn

    candidates-IsRecordOf :
        {id : Bytes} (d : Json) → In id (candidates u ids names common_name d) → IsRecordOf id d
    candidates-IsRecordOf (obj fs) i =
        elim (In-append_cases (matched_ids u ids names common_name fs) i) [
          | inl own ↦ matched_ids-IsRecordOf fs own
          | inr deep ↦
              let (k, v, e, r) =
                candidate_fields-IsRecordOf fs
                  (In-sort_by_key (candidate_fields u ids names common_name fs) deep) in
              in_value k v e r
        ]
    candidates-IsRecordOf (arr items) i =
        let (v, e, r) = candidate_items-IsRecordOf items i in in_element v e r
    candidates-IsRecordOf null i = elim i [ ]
    candidates-IsRecordOf (boolean b) i = elim i [ ]
    candidates-IsRecordOf (num n) i = elim i [ ]
    candidates-IsRecordOf (str s) i = elim i [ ]

    candidate_fields-IsRecordOf :
        {id : Bytes} (fs : Fields)
        → In id (in_turn (candidate_fields u ids names common_name fs))
        → (k : Bytes) × (v : Json) × HasField k v fs × IsRecordOf id v
    candidate_fields-IsRecordOf end i = elim i [ ]
    candidate_fields-IsRecordOf (field k v fs) i =
        elim (In-append_cases (candidates u ids names common_name v) i) [
          | inl own ↦ (k, v, first, candidates-IsRecordOf v own)
          | inr deep ↦ let (j, w, e, r) = candidate_fields-IsRecordOf fs deep in (j, w, later e, r)
        ]

    candidate_items-IsRecordOf :
        {id : Bytes} (items : Items)
        → In id (candidate_items u ids names common_name items)
        → (v : Json) × HasItem v items × IsRecordOf id v
    candidate_items-IsRecordOf nil i = elim i [ ]
    candidate_items-IsRecordOf (cons v items) i =
        elim (In-append_cases (candidates u ids names common_name v) i) [
          | inl own ↦ (v, head, candidates-IsRecordOf v own)
          | inr deep ↦ let (w, e, r) = candidate_items-IsRecordOf items deep in (w, next e, r)
        ]

-- An identifier that `findIDForCommonName` answers with stands, in a map somewhere in the
-- document, under an identifier key, and the same map has, under a name key, a scalar that equals
-- the common name but for case and surrounding space.
pub find_id-IsRecordOf :
    (u : Unicode) (doc : Json) (common_name : Bytes) (id_keys name_keys : List Bytes) (id : Bytes)
    → find_id_for_common_name u doc common_name id_keys name_keys ≡ some id
    → IsRecordOf u (wanted_keys u id_keys) (wanted_keys u name_keys) common_name id doc
find_id-IsRecordOf u doc common_name id_keys name_keys id h =
    candidates-IsRecordOf u _ _ common_name doc (find_id-In u doc common_name id_keys name_keys h)
