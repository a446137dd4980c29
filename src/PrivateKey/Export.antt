-- ===== src/PrivateKey/Export.antt =====
-- internal/kmp/privatekey.go: `ParseExportedPrivateKey`, `isKeyStore` and `MatchesCertificate`.
pub mod Choice
use kmp_issuer.Base.{
  ℕ, suc, ◌*◌, Bool, true, false, not, ◌&&◌, ◌||◌, List, [], ◌∷◌, ◌++◌, Option, none, some, Result,
  ok, err, ltb, leb, ◌==◌, if◌then◌else◌, length, take, is_nil,
}
use kmp_issuer.Text.{Bytes, codes, str_eq}
use kmp_issuer.X509.{PublicKey, comparable, opaque, key_equal, Certificate, Platform}
use kmp_issuer.Errors.{GoError, plain, wrap}
use kmp_issuer.Response.Collect.{collect_strings}
use kmp_issuer.Response.Status.{parse_response}
use kmp_issuer.Chain.Extract.{keep_first}
use kmp_issuer.PrivateKey.Pem.{
  Key, KeyPlatform, Candidate, is_key, no_key, unreadable, parse_private_key_candidate,
}

-- `PrivateKey` of the source.
pub record EscrowedKey : Type 0 where
  pub key : Key
  pub pem : Bytes

abbrev pub pem_private_key_type : Bytes
pem_private_key_type = codes "PRIVATE KEY"

abbrev pub jks_magic : Bytes
jks_magic = 0xFE ∷ 0xED ∷ 0xFE ∷ 0xED ∷ []

abbrev pub is_printable : ℕ → Bool
is_printable b = b == b'\n' || (b == b'\r' || (b == b'\t' || (leb 0x20 b && ltb b 0x7F)))

unfoldable pub printable_count : Bytes → ℕ
printable_count [] = 0
printable_count (b ∷ s) = let rest = printable_count s in if is_printable b then suc rest else rest

unfoldable pub is_mostly_text : Bytes → Bool
is_mostly_text data_bytes =
    let start = take 512 data_bytes in leb (length start * 9) (printable_count start * 10)

abbrev pub starts_sequence : Bytes → Bool
starts_sequence [] = false
starts_sequence (b ∷ s) = b == 0x30

unfoldable pub is_key_store : Bytes → Bool
is_key_store data_bytes =
    if leb 4 (length data_bytes) && str_eq (take 4 data_bytes) jks_magic
    then true
    else ltb 2 (length data_bytes)
      && (starts_sequence data_bytes && not (is_mostly_text data_bytes))

module _ (p : Platform) (q : KeyPlatform) where
  -- The candidates: the export itself, and the strings of a JSON envelope.
  unfoldable pub export_candidates : Bytes → List Bytes
  export_candidates data_bytes =
      data_bytes ∷ elim (parse_response (Platform.unmarshal p) data_bytes) [
        | err _ ↦ []
        | ok parsed ↦ collect_strings parsed.doc
      ]

  unfoldable pub encode_key : Key → Result GoError EscrowedKey
  encode_key key = elim (KeyPlatform.marshal_pkcs8 q key) [
    | err e ↦ err (wrap (codes "re-encoding the exported private key: ") (plain e) [])
    | ok der ↦ ok (record {
      key = key;
      pem =
          Platform.pem_encode p
            (record { block_type = pem_private_key_type; headers = []; bytes = der });
    })
  ]

  -- What follows the loop.
  unfoldable pub no_candidate : Bytes → Option GoError → GoError
  no_candidate data_bytes (some e) = e
  no_candidate data_bytes none =
      if is_key_store data_bytes
      then plain (
          codes "the export is a key store, which this controller cannot open: "
          ++ codes "ask Key Manager Plus for the PrivateKey file type instead of KeyStore")
      else plain (codes "no private key found in the export")

  -- One round of the loop, from what becomes of its candidate, with the later rounds as a function
  -- of the first error.
  unfoldable pub try_candidate :
      (Option GoError → Result GoError EscrowedKey)
      → Option GoError
      → Candidate
      → Result GoError EscrowedKey
  try_candidate later first_err (is_key key) = encode_key key
  try_candidate later first_err no_key = later first_err
  try_candidate later first_err (unreadable e) = later (keep_first first_err (some e))

  unfoldable pub first_key :
      Bytes → Bytes → List Bytes → Option GoError → Result GoError EscrowedKey
  first_key data_bytes password [] first_err = err (no_candidate data_bytes first_err)
  first_key data_bytes password (candidate ∷ candidates) first_err =
      try_candidate (first_key data_bytes password candidates) first_err
        (parse_private_key_candidate p q candidate password)

  unfoldable pub parse_exported_private_key : Bytes → Bytes → Result GoError EscrowedKey
  parse_exported_private_key data_bytes password =
      if is_nil data_bytes
      then err (plain (codes "the export is empty"))
      else first_key data_bytes password (export_candidates data_bytes) none

-- `matcher.Equal(signer.Public())`, for the key of the certificate.
abbrev pub cert_key_equal : PublicKey → PublicKey → Bool
cert_key_equal (opaque k) public = false
cert_key_equal (comparable k) public = key_equal k public

unfoldable pub matches_certificate : Key → Certificate → Bool
matches_certificate key cert = elim key.public_key [
  | none ↦ false
  | some public ↦ cert_key_equal cert.public_key public
]
