-- ===== src/X509.antt =====
-- What internal/kmp reads of certificates and requests, and the functions of Go's `crypto/x509`,
-- `encoding/pem`, `encoding/base64`, `encoding/json` and `net` that it calls and that are not under
-- the repository: the fields of `Platform`, a parameter of the models.
use kmp_issuer.Base.{
  ℕ, ◌<◌, ◌≡◌, Bool, false, ◌&&◌, List, [], ◌∷◌, ◌++◌, Option, some, Result, length, ◌==◌,
  if◌then◌else◌,
}
use kmp_issuer.Text.{Bytes, Unicode, str_eq}
use kmp_issuer.Json.{Json}

-- A `crypto.PublicKey`: of a type with the method `Equal`, by its key material, or of another type.
pub data PublicKey : Type 0 where
  comparable : Bytes → PublicKey
  opaque : Bytes → PublicKey

-- `matcher.Equal(key)`, for a matcher with the given key material.
unfoldable pub key_equal : Bytes → PublicKey → Bool
key_equal k (comparable j) = str_eq k j
key_equal k (opaque j) = false

pub record Subject : Type 0 where
  pub common_name : Bytes
  pub organization : List Bytes
  pub organizational_unit : List Bytes

-- An `x509.Certificate`. IP addresses are their bytes (4 or 16), URIs their texts, times nanoseconds.
pub record Certificate : Type 0 where
  pub raw : Bytes
  pub raw_subject : Bytes
  pub raw_issuer : Bytes
  pub subject : Subject
  pub dns_names : List Bytes
  pub ip_addresses : List Bytes
  pub email_addresses : List Bytes
  pub uris : List Bytes
  pub not_before : ℕ
  pub not_after : ℕ
  pub public_key : PublicKey

-- An `x509.CertificateRequest`. Its key is nil where Go does not know the algorithm.
pub record CertificateRequest : Type 0 where
  pub subject : Subject
  pub dns_names : List Bytes
  pub ip_addresses : List Bytes
  pub email_addresses : List Bytes
  pub uris : List Bytes
  pub public_key : Option PublicKey

-- A `pem.Block`, with the entries of its headers.
pub record Block : Type 0 where
  pub block_type : Bytes
  pub headers : List (Bytes × Bytes)
  pub bytes : Bytes

-- Errors of these functions are their texts.
pub record Platform : Type 0 where
  pub unicode : Unicode
  pub unmarshal : Bytes → Result Bytes Json
  pub marshal : Json → Result Bytes Bytes
  pub pem_decode : Bytes → Option (Block × Bytes)
  pub pem_encode : Block → Bytes
  pub base64_decode : Bytes → Option Bytes
  pub parse_certificate : Bytes → Result Bytes Certificate
  pub parse_certificate_request : Bytes → Result Bytes CertificateRequest
  -- `csr.CheckSignature()`
  pub check_signature : CertificateRequest → Result Bytes (Unit {0})
  -- `child.CheckSignatureFrom(parent) == nil`
  pub signed_by : Certificate → Certificate → Bool
  -- `net.ParseIP`
  pub parse_ip : Bytes → Option Bytes
  -- `ip.String()`
  pub ip_string : Bytes → Bytes

-- `pem.Decode` returns what stands behind the block that it found.
abbrev pub DecodesShorter : Platform → Type 0
DecodesShorter p =
    (s : Bytes) (b : Block) (rest : Bytes)
    → Platform.pem_decode p s ≡ some (b, rest)
    → length rest < length s

v4_in_v6 : Bytes
v4_in_v6 = 0 ∷ 0 ∷ 0 ∷ 0 ∷ 0 ∷ 0 ∷ 0 ∷ 0 ∷ 0 ∷ 0 ∷ 0xFF ∷ 0xFF ∷ []

-- `net.IP.Equal`: an IPv4 address and its form in IPv6 are the same address.
unfoldable pub ip_equal : Bytes → Bytes → Bool
unfolding v4_in_v6
ip_equal a b =
    if length a == length b
    then str_eq a b
    else if length a == 4 && length b == 16
    then str_eq (v4_in_v6 ++ a) b
    else if length a == 16 && length b == 4
    then str_eq a (v4_in_v6 ++ b)
    else false
