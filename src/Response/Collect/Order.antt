-- ===== src/Response/Collect/Order.antt =====
-- `collectStrings` and `collectStringsFor` do not depend on the order of `range`.
use kmp_issuer.Base.{◌≡◌, refl, ap, ap₂, ◌∙◌, List, ◌++◌}
use kmp_issuer.Text.{Bytes, Unicode}
use kmp_issuer.Text.Order.{insert, insert_comm, sort_by_key}
use kmp_issuer.Json.{Json, Items, Fields}
use kmp_issuer.Json.Order.{
  SameDoc, same, same_arr, same_obj, SameItems, same_nil, same_cons, SameFields, same_end,
  same_field, swap, both,
}
use kmp_issuer.Response.Keys.{wanted_keys}
use kmp_issuer.Response.Keys.Order.{scalar_string-SameDoc}
use kmp_issuer.Response.Collect.{
  in_turn, collect_strings, collect_fields, collect_items, own_value, collect_wanted, wanted_fields,
  wanted_items, collect_strings_for,
}

mutual
  unfolding collect_strings sort_by_key

  collect_strings-SameDoc_lem : {d e : Json} → SameDoc d e → collect_strings d ≡ collect_strings e
  collect_strings-SameDoc_lem same = refl
  collect_strings-SameDoc_lem (same_arr h) = collect_items-SameItems h
  collect_strings-SameDoc_lem (same_obj h) = ap in_turn (sort-collect_fields h)

  collect_items-SameItems : {xs ys : Items} → SameItems xs ys → collect_items xs ≡ collect_items ys
  collect_items-SameItems same_nil = refl
  collect_items-SameItems (same_cons h k) =
      ap₂ ◌++◌ (collect_strings-SameDoc_lem h) (collect_items-SameItems k)

  sort-collect_fields :
      {fs gs : Fields}
      → SameFields fs gs
      → sort_by_key (collect_fields fs) ≡ sort_by_key (collect_fields gs)
  sort-collect_fields same_end = refl
  sort-collect_fields (same_field {k} h r) =
      ap₂ (insert k) (collect_strings-SameDoc_lem h) (sort-collect_fields r)
  sort-collect_fields (swap {k} {j} ne) = insert_comm k j _ _ _ ne
  sort-collect_fields (both h r) = sort-collect_fields h ∙ sort-collect_fields r

-- Whatever the order in which `range` visits the entries of the maps of a document, the strings
-- that `collectStrings` returns are the same, in the same order.
pub collect_strings-SameDoc : {d e : Json} → SameDoc d e → collect_strings d ≡ collect_strings e
collect_strings-SameDoc h = collect_strings-SameDoc_lem h

module _ (u : Unicode) (wanted : List Bytes) where
  own_value-SameDoc :
      (k : Bytes) {v w : Json} → SameDoc v w → own_value u wanted k v ≡ own_value u wanted k w
  unfolding own_value
  own_value-SameDoc k h = rw (scalar_string-SameDoc h, own_value)

  mutual
    unfolding collect_wanted sort_by_key

    collect_wanted-SameDoc :
        {d e : Json} → SameDoc d e → collect_wanted u wanted d ≡ collect_wanted u wanted e
    collect_wanted-SameDoc same = refl
    collect_wanted-SameDoc (same_arr h) = wanted_items-SameItems h
    collect_wanted-SameDoc (same_obj h) = ap in_turn (sort-wanted_fields h)

    wanted_items-SameItems :
        {xs ys : Items} → SameItems xs ys → wanted_items u wanted xs ≡ wanted_items u wanted ys
    wanted_items-SameItems same_nil = refl
    wanted_items-SameItems (same_cons h k) =
        ap₂ ◌++◌ (collect_wanted-SameDoc h) (wanted_items-SameItems k)

    sort-wanted_fields :
        {fs gs : Fields}
        → SameFields fs gs
        → sort_by_key (wanted_fields u wanted fs) ≡ sort_by_key (wanted_fields u wanted gs)
    sort-wanted_fields same_end = refl
    sort-wanted_fields (same_field {k} h r) =
        ap₂ (insert k) (ap₂ ◌++◌ (own_value-SameDoc k h) (collect_wanted-SameDoc h))
          (sort-wanted_fields r)
    sort-wanted_fields (swap {k} {j} ne) = insert_comm k j _ _ _ ne
    sort-wanted_fields (both h r) = sort-wanted_fields h ∙ sort-wanted_fields r

-- Whatever the order in which `range` visits the entries of the maps of a document, the values
-- that `collectStringsFor` returns for given keys are the same, in the same order.
collect_strings_for-SameDoc :
    (u : Unicode) (keys : List Bytes) {d e : Json}
    → SameDoc d e
    → collect_strings_for u d keys ≡ collect_strings_for u e keys
unfolding collect_strings_for
collect_strings_for-SameDoc u keys h = collect_wanted-SameDoc u (wanted_keys u keys) h
