-- ===== src/Cluster/Data.antt =====
-- The data of a Secret: a Go map from keys to bytes.
use kmp_issuer.Base.{
  ◌≡◌, refl, sym, ◌∙◌, Bool, true, false, List, [], ◌∷◌, Option, none, some, if◌then◌else◌,
  Bool-cases, inl, inr, subst,
}
use mathlib.Core.Bool.{false≢true}
use kmp_issuer.Text.{Bytes, str_eq, str_eq_iff}

abbrev pub SecretData : Type 0
SecretData = List (Bytes × Bytes)

-- `v, ok := data[key]`
unfoldable pub lookup_key : Bytes → SecretData → Option Bytes
lookup_key key [] = none
lookup_key key ((k, v) ∷ rest) =
    let later = lookup_key key rest in if str_eq key k then some v else later

-- `data[key] = value`
unfoldable pub set_key : Bytes → Bytes → SecretData → SecretData
set_key key value [] = (key, value) ∷ []
set_key key value ((k, v) ∷ rest) =
    let later = set_key key value rest in
    if str_eq key k then (key, value) ∷ rest else (k, v) ∷ later

abbrev pub bytes_or_empty : Option Bytes → Bytes
bytes_or_empty none = []
bytes_or_empty (some v) = v

-- `data[key]`
abbrev pub get_or_empty : Bytes → SecretData → Bytes
get_or_empty key d = bytes_or_empty (lookup_key key d)

-- A later entry of a key is hidden by an earlier one.
hidden :
    {A : Type 0} (b : Bool) (x y z : A)
    → (if b then x else y) ≡ (if b then x else if b then z else y)
hidden true x y z = refl
hidden false x y z = refl

pub lookup_key-set_key :
    (j k v : Bytes) (d : SecretData)
    → lookup_key j (set_key k v d) ≡ (if str_eq j k then some v else lookup_key j d)
unfolding lookup_key set_key
lookup_key-set_key j k v [] = refl
lookup_key-set_key j k v ((i, w) ∷ d) = elim (Bool-cases (str_eq k i)) [
  | inl same ↦ rw same (
      subst
        (λ x.
          (if str_eq j k then some v else lookup_key j d)
          ≡ (if str_eq j k then some v else if str_eq j x then some w else lookup_key j d))
        ((str_eq_iff k i).0 same) (hidden (str_eq j k) (some v) (lookup_key j d) (some w)))
  | inr other ↦ elim (Bool-cases (str_eq j i)) [
    | inl found ↦ elim (Bool-cases (str_eq j k)) [
      | inl both ↦ absurd (
          false≢true (
            sym other
            ∙ (str_eq_iff k i).1 (sym ((str_eq_iff j k).0 both) ∙ (str_eq_iff j i).0 found)))
      | inr apart ↦ rw (other, found, apart) refl
    ]
    | inr later ↦ rw (other, later) (lookup_key-set_key j k v d)
  ]
]
