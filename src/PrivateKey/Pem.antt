-- ===== src/PrivateKey/Pem.antt =====
-- internal/kmp/privatekey.go: `parsePEMPrivateKey`, `parseDERPrivateKey` and
-- `parsePrivateKeyCandidate`.
pub mod Fuel
use kmp_issuer.Base.{
  ℕ, zero, suc, Bool, [], ◌++◌, Option, none, some, Result, ok, err, ltb, if◌then◌else◌, length,
  is_nil,
}
use kmp_issuer.Text.{Bytes, codes, contains, str_eq}
use kmp_issuer.X509.{PublicKey, Platform, Block}
use kmp_issuer.Errors.{GoError, plain, wrap}
use kmp_issuer.Chain.Extract.{compact_text}

-- A parsed key: its material, and what its method `Public` returns, if it has one.
pub record Key : Type 0 where
  pub material : Bytes
  pub public_key : Option PublicKey

-- The functions of `crypto/x509` on private keys. Errors are their texts.
pub record KeyPlatform : Type 0 where
  pub parse_pkcs8 : Bytes → Result Bytes Key
  pub parse_pkcs1 : Bytes → Result Bytes Key
  pub parse_ec : Bytes → Result Bytes Key
  pub marshal_pkcs8 : Key → Result Bytes Bytes
  -- What the header of a block says: `x509.IsEncryptedPEMBlock`.
  pub is_encrypted : Block → Bool
  pub decrypt : Block → Bytes → Result Bytes Bytes

-- What became of a candidate: a key, no key (`errNoPrivateKey`), or a key that cannot be read.
pub data Candidate : Type 0 where
  is_key : Key → Candidate
  no_key : Candidate
  unreadable : GoError → Candidate

module _ (p : Platform) (q : KeyPlatform) where
  unfoldable pub parse_der_private_key : Bytes → Result GoError Key
  parse_der_private_key der = elim (KeyPlatform.parse_pkcs8 q der) [
    | ok key ↦ ok key
    | err _ ↦ elim (KeyPlatform.parse_pkcs1 q der) [
      | ok key ↦ ok key
      | err _ ↦ elim (KeyPlatform.parse_ec q der) [
        | ok key ↦ ok key
        | err _ ↦ err (plain (codes "the key is not in PKCS#8, PKCS#1 or SEC 1 form"))
      ]
    ]
  ]

  -- The bytes of a block, decrypted where its header says so.
  unfoldable pub block_der : Block → Bytes → Result GoError Bytes
  block_der block password =
      if KeyPlatform.is_encrypted q block
      then (if is_nil password
          then err
              (plain (codes "the exported private key is encrypted but no password is configured"))
          else elim (KeyPlatform.decrypt q block password) [
            | err e ↦ err (wrap (codes "decrypting the exported private key: ") (plain e) [])
            | ok der ↦ ok der
          ])
      else if str_eq block.block_type (codes "ENCRYPTED PRIVATE KEY")
      then err (
          plain (
            codes "the exported private key uses PKCS#8 encryption, which this controller "
            ++ codes "cannot decrypt: configure Key Manager Plus to export the key unencrypted"))
      else ok block.bytes

  unfoldable pub read_block : Block → Bytes → Candidate
  read_block block password = elim (block_der block password) [
    | err e ↦ unreadable e
    | ok der ↦ elim (parse_der_private_key der) [
      | err e ↦ unreadable (wrap (codes "parsing the exported private key: ") e [])
      | ok key ↦ is_key key
    ]
  ]

  -- One round of the loop of `parsePEMPrivateKey`, with the later rounds as a function of the rest.
  unfoldable pub next_block : (Bytes → Candidate) → Bytes → Option (Block × Bytes) → Candidate
  next_block later password none = no_key
  next_block later password (some (block, rest)) =
      if contains block.block_type (codes "PRIVATE KEY")
      then read_block block password
      else later rest

  -- The fuel counts the rounds: one more than there are bytes is enough.
  unfoldable pub find_block : ℕ → Bytes → Bytes → Candidate
  find_block zero password rest = no_key
  find_block (suc fuel) password rest =
      next_block (find_block fuel password) password (Platform.pem_decode p rest)

  unfoldable pub parse_pem_private_key : Bytes → Bytes → Candidate
  parse_pem_private_key text password = find_block (suc (length text)) password text

  unfoldable pub parse_private_key_candidate : Bytes → Bytes → Candidate
  parse_private_key_candidate candidate password =
      if contains candidate (codes "-----BEGIN")
      then parse_pem_private_key candidate password
      else (let compact = compact_text candidate in
          if ltb (length compact) 64 then no_key else elim (Platform.base64_decode p compact) [
            | none ↦ no_key
            | some der ↦ elim (parse_der_private_key der) [ err _ ↦ no_key | ok key ↦ is_key key ]
          ])
