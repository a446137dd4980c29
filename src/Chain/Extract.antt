-- ===== src/Chain/Extract.antt =====
-- internal/kmp/chain.go: `certificatesFromStrings` and the functions that it calls.
pub mod Distinct
pub mod Fuel
use kmp_issuer.Base.{
  ℕ, zero, suc, Bool, true, false, ◌||◌, List, [], ◌∷◌, ◌++◌, Option, none, some, Result, ok, err,
  ltb, ◌==◌, if◌then◌else◌, length, is_nil,
}
use kmp_issuer.Text.{Bytes, codes, contains, str_eq, member}
use kmp_issuer.X509.{Certificate, Platform, Block}
use kmp_issuer.Errors.{GoError, plain, wrap}
use kmp_issuer.Chain.Build.{pem_certificate_type}

is_blank : ℕ → Bool
is_blank c = c == b'\n' || c == b'\r' || c == b'\t' || c == b' '

-- The `strings.Map` that drops line breaks, tabs and spaces.
unfoldable pub compact_text : Bytes → Bytes
unfolding is_blank
compact_text [] = []
compact_text (c ∷ s) = let rest = compact_text s in if is_blank c then rest else c ∷ rest

-- The certificates read so far are returned with an error.
abbrev pub Parsed : Type 0
Parsed = List Certificate × Option GoError

abbrev pub add_first : Certificate → Parsed → Parsed
add_first cert (certs, e) = (cert ∷ certs, e)

-- The variables of `certificatesFromStrings`.
pub record Scan : Type 0 where
  pub certs : List Certificate
  pub seen : List Bytes
  pub first_err : Option GoError

-- The closure `add`.
unfoldable pub add : Certificate → Scan → Scan
add cert s =
    if member cert.raw s.seen
    then s
    else record s { certs = s.certs ++ cert ∷ []; seen = cert.raw ∷ s.seen }

unfoldable pub add_all : List Certificate → Scan → Scan
add_all [] s = s
add_all (cert ∷ certs) s = add_all certs (add cert s)

abbrev pub keep_first : Option GoError → Option GoError → Option GoError
keep_first (some e) later = some e
keep_first none later = later

module _ (p : Platform) where
  -- One round of the loop of `parsePEMCertificates`, from what `pem.Decode` returns, with the later
  -- rounds as a function of the rest.
  unfoldable pub parse_block : (Bytes → Parsed) → Option (Block × Bytes) → Parsed
  parse_block later none = ([], none)
  parse_block later (some (block, rest)) =
      if str_eq block.block_type pem_certificate_type
      then elim (Platform.parse_certificate p block.bytes) [
        | err e ↦ ([], some (wrap (codes "parsing certificate: ") (plain e) []))
        | ok cert ↦ add_first cert (later rest)
      ]
      else later rest

  -- The fuel counts the rounds: `parse_pem_certificates` gives one more than there are bytes.
  unfoldable pub parse_blocks : ℕ → Bytes → Parsed
  parse_blocks zero rest = ([], none)
  parse_blocks (suc fuel) rest = parse_block (parse_blocks fuel) (Platform.pem_decode p rest)

  unfoldable pub parse_pem_certificates : Bytes → Parsed
  parse_pem_certificates text = parse_blocks (suc (length text)) text

  unfoldable pub parse_base64_certificate : Bytes → Option Certificate
  parse_base64_certificate value =
      let compact = compact_text value in
      if ltb (length compact) 128 then none else elim (Platform.base64_decode p compact) [
        | none ↦ none
        | some der ↦ elim (Platform.parse_certificate p der) [ err e ↦ none | ok cert ↦ some cert ]
      ]

  -- One round of the loop of `certificatesFromStrings`.
  unfoldable pub scan_value : Bytes → Scan → Scan
  scan_value value s =
      if contains value (codes "-----BEGIN")
      then (let (parsed, e) = parse_pem_certificates value in
          add_all parsed (record s { first_err = keep_first s.first_err e }))
      else elim (parse_base64_certificate value) [ none ↦ s | some cert ↦ add cert s ]

  unfoldable pub scan_values : List Bytes → Scan → Scan
  scan_values [] s = s
  scan_values (value ∷ values) s = scan_values values (scan_value value s)

  abbrev pub finish : Scan → Result GoError (List Certificate)
  finish s = elim s.first_err [
    | some e ↦ if is_nil s.certs then err e else ok s.certs
    | none ↦ ok s.certs
  ]

  unfoldable pub certificates_from_strings : List Bytes → Result GoError (List Certificate)
  certificates_from_strings values =
      finish (scan_values values (record { certs = []; seen = []; first_err = none }))
