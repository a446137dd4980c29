-- ===== src/Text/Order.antt =====
-- The order of texts by their bytes, and sorting by key (`sortedKeys` of internal/kmp/response.go).
use kmp_issuer.Base.{
  ◌≡◌, refl, ◌≢◌, Bool, true, false, List, [], ◌∷◌, arith, ltb, ◌==◌, if◌then◌else◌,
}
use kmp_issuer.Text.{Bytes}

unfoldable pub text_le : Bytes → Bytes → Bool
text_le [] t = true
text_le (x ∷ xs) [] = false
text_le (x ∷ xs) (y ∷ ys) = if ltb x y then true else if x == y then text_le xs ys else false

pub text_le_antisymm : (s t : Bytes) → text_le s t ≡ true → text_le t s ≡ true → s ≡ t
unfolding text_le
text_le_antisymm [] [] h k = refl
text_le_antisymm [] (y ∷ ys) h k = cc
text_le_antisymm (x ∷ xs) [] h k = cc
text_le_antisymm (x ∷ xs) (y ∷ ys) h k = ground (arith, text_le_antisymm xs ys)

pub text_le_total : (s t : Bytes) → text_le s t ≡ false → text_le t s ≡ true
unfolding text_le
text_le_total [] t h = cc
text_le_total (x ∷ xs) [] h = refl
text_le_total (x ∷ xs) (y ∷ ys) h = ground (arith, text_le_total xs ys)

pub text_le_trans : (s t r : Bytes) → text_le s t ≡ true → text_le t r ≡ true → text_le s r ≡ true
unfolding text_le
text_le_trans [] t r h k = refl
text_le_trans (x ∷ xs) [] r h k = cc
text_le_trans (x ∷ xs) (y ∷ ys) [] h k = cc
text_le_trans (x ∷ xs) (y ∷ ys) (z ∷ zs) h k = ground (arith, text_le_trans xs ys zs)

module _ {ℓ} {A : Type ℓ} where
  unfoldable pub insert : Bytes → A → List (Bytes × A) → List (Bytes × A)
  insert k a [] = (k, a) ∷ []
  insert k a ((j, b) ∷ rest) =
      if text_le k j then (k, a) ∷ (j, b) ∷ rest else (j, b) ∷ insert k a rest

  -- The entries of a map in the order of their keys: `for _, key := range sortedKeys(m)`.
  unfoldable pub sort_by_key : List (Bytes × A) → List (Bytes × A)
  unfolding insert
  sort_by_key [] = []
  sort_by_key ((k, a) ∷ rest) = insert k a (sort_by_key rest)

  -- Two insertions under different keys can be made in either order.
  pub insert_comm :
      (k j : Bytes) (a b : A) (rest : List (Bytes × A))
      → k ≢ j
      → insert k a (insert j b rest) ≡ insert j b (insert k a rest)
  unfolding insert
  insert_comm k j a b [] ne = ground (arith, text_le_antisymm k j, text_le_total k j)
  insert_comm k j a b ((i, c) ∷ rest) ne = ground (
    arith,
    text_le_antisymm k j,
    text_le_total k j,
    text_le_trans k j i,
    text_le_trans j k i,
    text_le_total k i,
    text_le_total j i,
    text_le_trans j i k,
    text_le_trans k i j,
    insert_comm k j a b rest ne,
  )
