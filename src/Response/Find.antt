-- ===== src/Response/Find.antt =====
-- internal/kmp/response.go: `findString` and `findScalar`.
pub mod Order
use kmp_issuer.Base.{Bool, List, [], ◌∷◌, Option, none, some, if◌then◌else◌}
use kmp_issuer.Text.{Bytes, Unicode}
use kmp_issuer.Text.Order.{sort_by_key}
use kmp_issuer.Json.{Json, null, boolean, num, str, arr, obj, Items, nil, cons, Fields, end, field}
use kmp_issuer.Response.Keys.{wanted_keys, is_wanted, scalar_string}

-- The first answer in the order of the sorted keys.
unfoldable pub first_found : List (Bytes × Option Bytes) → Option Bytes
first_found [] = none
first_found ((key, some s) ∷ rest) = some s
first_found ((key, none) ∷ rest) = first_found rest

module _ (u : Unicode) (wanted : List Bytes) where
  -- The first loop over a map, in the order of `range`: a match at this level.
  unfoldable pub find_here : Fields → Option Bytes
  find_here end = none
  find_here (field key value fs) =
      let rest = find_here fs in
      if is_wanted u wanted key
      then elim (scalar_string value) [ some s ↦ some s | none ↦ rest ]
      else rest

  -- The answer of the second loop over a map is the first among the answers of its values, taken
  -- by sorted key; `find_fields` pairs each key with the answer of its value.
  unfoldable mutual
    pub find_scalar : Json → Option Bytes
    find_scalar (obj fs) = elim (find_here fs) [
      | some s ↦ some s
      | none ↦ first_found (sort_by_key (find_fields fs))
    ]
    find_scalar (arr items) = find_items items
    find_scalar null = none
    find_scalar (boolean b) = none
    find_scalar (num n) = none
    find_scalar (str s) = none

    pub find_fields : Fields → List (Bytes × Option Bytes)
    find_fields end = []
    find_fields (field key value fs) = (key, find_scalar value) ∷ find_fields fs

    pub find_items : Items → Option Bytes
    find_items nil = none
    find_items (cons item items) =
        let rest = find_items items in elim (find_scalar item) [ some s ↦ some s | none ↦ rest ]

unfoldable pub find_string : Unicode → Json → List Bytes → Option Bytes
find_string u doc keys = find_scalar u (wanted_keys u keys) doc
