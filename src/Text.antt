-- ===== src/Text.antt =====
-- Go's strings: sequences of bytes, and the functions of the package `strings` that the program
-- calls (internal/kmp and internal/controllers). What depends on Go's Unicode case tables is the
-- parameter `Unicode`; on texts of ASCII bytes it is written out.
pub mod Order
pub mod Decimal
use Prim.Native.Char.{code}
use Prim.Native.String.{String}
use mathlib.Core.Bool.{true≢false}
use kmp_issuer.Base.{
  ℕ, zero, suc, ◌+◌, ◌≡◌, refl, sym, ◌∙◌, ◌≢◌, ◌↔◌, Bool, true, false, ◌&&◌, ◌||◌, List, [], ◌∷◌,
  ◌++◌, map, reverse, Option, none, some, arith, ltb, leb, ◌==◌, if◌then◌else◌, Bool-cases, inl,
  inr, length, is_nil, any, take,
}

abbrev pub Bytes : Type 0
Bytes = List ℕ

-- The code points of a literal, which are its bytes: the source's literals are ASCII.
abbrev pub codes : String → Bytes
codes String.[] = []
codes (String.◌∷◌ c s) = code c ∷ codes s

-- `s == t`, and `bytes.Equal`
unfoldable pub str_eq : Bytes → Bytes → Bool
str_eq [] [] = true
str_eq (x ∷ xs) (y ∷ ys) = x == y && str_eq xs ys
str_eq _ _ = false

-- `strings.HasPrefix`
unfoldable pub has_prefix : Bytes → Bytes → Bool
has_prefix s [] = true
has_prefix (x ∷ xs) (p ∷ ps) = x == p && has_prefix xs ps
has_prefix [] (p ∷ ps) = false

-- `strings.Contains`
unfoldable pub contains : Bytes → Bytes → Bool
unfolding has_prefix
contains [] sub = has_prefix [] sub
contains (x ∷ xs) sub = has_prefix (x ∷ xs) sub || contains xs sub

-- The UTF-8 encodings of the characters that `unicode.IsSpace` accepts.
abbrev spaces : List Bytes
spaces =
    (9 ∷ [])
    ∷ (10 ∷ [])
    ∷ (11 ∷ [])
    ∷ (12 ∷ [])
    ∷ (13 ∷ [])
    ∷ (32 ∷ [])
    ∷ (0xC2 ∷ 0x85 ∷ [])
    ∷ (0xC2 ∷ 0xA0 ∷ [])
    ∷ (0xE1 ∷ 0x9A ∷ 0x80 ∷ [])
    ∷ (0xE2 ∷ 0x80 ∷ 0x80 ∷ [])
    ∷ (0xE2 ∷ 0x80 ∷ 0x81 ∷ [])
    ∷ (0xE2 ∷ 0x80 ∷ 0x82 ∷ [])
    ∷ (0xE2 ∷ 0x80 ∷ 0x83 ∷ [])
    ∷ (0xE2 ∷ 0x80 ∷ 0x84 ∷ [])
    ∷ (0xE2 ∷ 0x80 ∷ 0x85 ∷ [])
    ∷ (0xE2 ∷ 0x80 ∷ 0x86 ∷ [])
    ∷ (0xE2 ∷ 0x80 ∷ 0x87 ∷ [])
    ∷ (0xE2 ∷ 0x80 ∷ 0x88 ∷ [])
    ∷ (0xE2 ∷ 0x80 ∷ 0x89 ∷ [])
    ∷ (0xE2 ∷ 0x80 ∷ 0x8A ∷ [])
    ∷ (0xE2 ∷ 0x80 ∷ 0xA8 ∷ [])
    ∷ (0xE2 ∷ 0x80 ∷ 0xA9 ∷ [])
    ∷ (0xE2 ∷ 0x80 ∷ 0xAF ∷ [])
    ∷ (0xE2 ∷ 0x81 ∷ 0x9F ∷ [])
    ∷ (0xE3 ∷ 0x80 ∷ 0x80 ∷ [])
    ∷ []

-- The rest of `s` behind the prefix `p`.
cut_prefix : Bytes → Bytes → Option Bytes
cut_prefix s [] = some s
cut_prefix (x ∷ xs) (p ∷ ps) = if x == p then cut_prefix xs ps else none
cut_prefix [] (p ∷ ps) = none

cut_any : List Bytes → Bytes → Option Bytes
unfolding cut_prefix
cut_any [] s = none
cut_any (p ∷ ps) s = elim (cut_prefix s p) [ some rest ↦ some rest | none ↦ cut_any ps s ]

-- Every round removes a byte at least, so the length of the text is fuel enough.
trim_from : ℕ → List Bytes → Bytes → Bytes
trim_from zero set s = s
trim_from (suc fuel) set s = elim (cut_any set s) [ none ↦ s | some rest ↦ trim_from fuel set rest ]

-- `strings.TrimSpace`
unfoldable pub trim_space : Bytes → Bytes
unfolding trim_from cut_any
trim_space s =
    let left = trim_from (length s) spaces s in
    reverse (trim_from (length left) (map reverse spaces) (reverse left))

-- What the program reads of Go's Unicode tables: the case functions on texts that are not ASCII,
-- and `strconv.Quote` (the verb `%q`), which asks them what is printable.
pub record Unicode : Type 0 where
  pub lower : Bytes → Bytes
  pub fold_eq : Bytes → Bytes → Bool
  pub quote : Bytes → Bytes

unfoldable pub is_ascii : Bytes → Bool
is_ascii [] = true
is_ascii (c ∷ s) = ltb c 128 && is_ascii s

unfoldable pub lower_byte : ℕ → ℕ
lower_byte c = if leb b'A' c && leb c b'Z' then c + 32 else c

-- `strings.ToLower`
unfoldable pub to_lower : Unicode → Bytes → Bytes
unfolding is_ascii lower_byte
to_lower u s = if is_ascii s then map lower_byte s else Unicode.lower u s

-- `strings.EqualFold`
unfoldable pub equal_fold : Unicode → Bytes → Bytes → Bool
unfolding is_ascii lower_byte str_eq
equal_fold u s t =
    if is_ascii s && is_ascii t
    then str_eq (map lower_byte s) (map lower_byte t)
    else Unicode.fold_eq u s t

-- `strings.Join`
unfoldable pub join : List Bytes → Bytes → Bytes
join [] sep = []
join (s ∷ []) sep = s
join (s ∷ rest) sep = s ++ (sep ++ join rest sep)

-- Whether a text is one of a list.
unfoldable pub member : Bytes → List Bytes → Bool
unfolding str_eq
member k [] = false
member k (j ∷ js) = str_eq k j || member k js

pub str_eq_iff : (s t : Bytes) → (str_eq s t ≡ true) ↔ (s ≡ t)
unfolding str_eq
str_eq_iff [] [] = (λ _. refl, λ _. refl)
str_eq_iff [] (y ∷ ys) = (λ e. cc, λ e. cc)
str_eq_iff (x ∷ xs) [] = (λ e. cc, λ e. cc)
str_eq_iff (x ∷ xs) (y ∷ ys) =
    let (to, from) = str_eq_iff xs ys in (λ e. ground (arith, to), λ e. ground (arith, from))

pub str_eq_refl : (s : Bytes) → str_eq s s ≡ true
str_eq_refl s = (str_eq_iff s s).1 refl

pub str_eq_comm : (s t : Bytes) → str_eq s t ≡ str_eq t s
str_eq_comm s t = elim (Bool-cases (str_eq s t)) [
  | inl same ↦ same ∙ sym ((str_eq_iff t s).1 (sym ((str_eq_iff s t).0 same)))
  | inr apart ↦ elim (Bool-cases (str_eq t s)) [
    | inl same ↦ (str_eq_iff s t).1 (sym ((str_eq_iff t s).0 same)) ∙ sym same
    | inr other ↦ apart ∙ sym other
  ]
]

pub str_eq-eq-false : (s t : Bytes) → str_eq s t ≡ false → s ≢ t
str_eq-eq-false s t h e = true≢false (sym ((str_eq_iff s t).1 e) ∙ h)
