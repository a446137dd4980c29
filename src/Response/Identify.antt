-- ===== src/Response/Identify.antt =====
-- internal/kmp/response.go: `findIDForCommonName` and `recordMatches`.
pub mod Candidates
pub mod Winner
pub mod Records
use kmp_issuer.Base.{
  ℕ, Bool, true, false, not, ◌&&◌, List, [], ◌∷◌, Option, none, some, if◌then◌else◌, is_nil, ℤ, pos,
  negsuc, ltz,
}
use kmp_issuer.Text.{Bytes, Unicode, equal_fold, trim_space}
use kmp_issuer.Text.Order.{sort_by_key}
use kmp_issuer.Text.Decimal.{parse_int}
use kmp_issuer.Json.{Json, null, boolean, num, str, arr, obj, Items, nil, cons, Fields, end, field}
use kmp_issuer.Response.Keys.{wanted_keys, is_wanted, scalar_string}

-- The variables `best`, `bestValue` and `found` of the walk.
pub record Best : Type 0 where
  pub best : Bytes
  pub best_value : ℤ
  pub found : Bool

abbrev pub none_yet : Best
none_yet = record { best = []; best_value = negsuc 0; found = false }

-- What the walk does with the scalar under an identifier key of a matching record, from what
-- `strconv.ParseInt` makes of it.
unfoldable pub offer_parsed : Option ℤ → Bytes → Best → Best
offer_parsed (some numeric) id b =
    if ltz b.best_value numeric
    then record { best = id; best_value = numeric; found = true }
    else record b { found = true }
offer_parsed none id b =
    if ltz b.best_value (pos 0) && is_nil b.best
    then record b { best = id; found = true }
    else record b { found = true }

unfoldable pub offer : Bytes → Best → Best
offer id b = offer_parsed (parse_int id) id b

-- Calls of `walk` one after the other, on the values of a map by sorted key.
unfoldable pub run_all : List (Bytes × (Best → Best)) → Best → Best
run_all [] b = b
run_all ((key, walk) ∷ rest) b = run_all rest (walk b)

module _ (u : Unicode) (ids names : List Bytes) (common_name : Bytes) where
  -- The loop of `recordMatches`.
  unfoldable pub record_matches : Fields → Bool
  record_matches end = false
  record_matches (field key value fs) =
      let rest = record_matches fs in
      if is_wanted u names key
      then elim (scalar_string value) [
        | some name ↦ if equal_fold u (trim_space name) common_name then true else rest
        | none ↦ rest
      ]
      else rest

  -- The loop over a matching record.
  unfoldable pub offer_ids : Fields → Best → Best
  offer_ids end b = b
  offer_ids (field key value fs) b = offer_ids fs (
      if is_wanted u ids key
      then elim (scalar_string value) [ some id ↦ offer id b | none ↦ b ]
      else b)

  unfoldable mutual
    pub walk : Json → Best → Best
    walk (obj fs) b =
        run_all (sort_by_key (walk_fields fs)) (if record_matches fs then offer_ids fs b else b)
    walk (arr items) b = walk_items items b
    walk null b = b
    walk (boolean _) b = b
    walk (num n) b = b
    walk (str s) b = b

    pub walk_fields : Fields → List (Bytes × (Best → Best))
    walk_fields end = []
    walk_fields (field key value fs) = (key, walk value) ∷ walk_fields fs

    pub walk_items : Items → Best → Best
    walk_items nil b = b
    walk_items (cons item items) b = walk_items items (walk item b)

abbrev pub answer : Best → Option Bytes
answer b = if b.found && not (is_nil b.best) then some b.best else none

unfoldable pub find_id_for_common_name :
    Unicode → Json → Bytes → List Bytes → List Bytes → Option Bytes
find_id_for_common_name u doc common_name id_keys name_keys =
    if is_nil common_name
    then none
    else answer (walk u (wanted_keys u id_keys) (wanted_keys u name_keys) common_name doc none_yet)
