-- ===== src/Response/Collect.antt =====
-- internal/kmp/response.go: `collectStrings` and `collectStringsFor`.
pub mod Order
use kmp_issuer.Base.{List, [], ◌∷◌, ◌++◌, Option, none, some, if◌then◌else◌}
use kmp_issuer.Text.{Bytes, Unicode}
use kmp_issuer.Text.Order.{sort_by_key}
use kmp_issuer.Json.{Json, null, boolean, num, str, arr, obj, Items, nil, cons, Fields, end, field}
use kmp_issuer.Response.Keys.{wanted_keys, is_wanted, scalar_string}

-- The outputs of the values of a map, one after the other.
unfoldable pub in_turn : List (Bytes × List Bytes) → List Bytes
in_turn [] = []
in_turn ((key, out) ∷ rest) = out ++ in_turn rest

unfoldable mutual
  pub collect_strings : Json → List Bytes
  collect_strings (str s) = s ∷ []
  collect_strings (obj fs) = in_turn (sort_by_key (collect_fields fs))
  collect_strings (arr items) = collect_items items
  collect_strings null = []
  collect_strings (boolean b) = []
  collect_strings (num n) = []

  pub collect_fields : Fields → List (Bytes × List Bytes)
  collect_fields end = []
  collect_fields (field key value fs) = (key, collect_strings value) ∷ collect_fields fs

  pub collect_items : Items → List Bytes
  collect_items nil = []
  collect_items (cons item items) = collect_strings item ++ collect_items items

module _ (u : Unicode) (wanted : List Bytes) where
  -- What an entry adds by itself, before the walk goes into its value.
  unfoldable pub own_value : Bytes → Json → List Bytes
  own_value key value =
      if is_wanted u wanted key
      then elim (scalar_string value) [ some s ↦ s ∷ [] | none ↦ [] ]
      else []

  unfoldable mutual
    pub collect_wanted : Json → List Bytes
    collect_wanted (obj fs) = in_turn (sort_by_key (wanted_fields fs))
    collect_wanted (arr items) = wanted_items items
    collect_wanted null = []
    collect_wanted (boolean b) = []
    collect_wanted (num n) = []
    collect_wanted (str s) = []

    pub wanted_fields : Fields → List (Bytes × List Bytes)
    wanted_fields end = []
    wanted_fields (field key value fs) =
        (key, own_value key value ++ collect_wanted value) ∷ wanted_fields fs

    pub wanted_items : Items → List Bytes
    wanted_items nil = []
    wanted_items (cons item items) = collect_wanted item ++ wanted_items items

unfoldable pub collect_strings_for : Unicode → Json → List Bytes → List Bytes
collect_strings_for u doc keys = collect_wanted u (wanted_keys u keys) doc
