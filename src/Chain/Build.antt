-- ===== src/Chain/Build.antt =====
-- internal/kmp/chain.go: `BuildBundle` and the functions that it calls.
pub mod Climb
pub mod Others
pub mod Ascent
pub mod Bundles
use kmp_issuer.Base.{
  ℕ, zero, suc, ◌≡◌, Bool, true, false, not, ◌&&◌, List, [], ◌∷◌, ◌++◌, Option, none, some, Result,
  ok, err, ◌>>=◌, if◌then◌else◌, length,
}
use kmp_issuer.Text.{Bytes, codes, str_eq}
use kmp_issuer.X509.{PublicKey, comparable, opaque, key_equal, Certificate, Platform}
use kmp_issuer.Errors.{GoError, plain}

pub record Bundle : Type 0 where
  pub chain_pem : Bytes
  pub leaf : Certificate

abbrev pub pem_certificate_type : Bytes
pem_certificate_type = codes "CERTIFICATE"

-- The loop of `findLeaf` over the certificates.
unfoldable pub find_key : Bytes → List Certificate → Result GoError Certificate
find_key key [] =
    err (plain (codes "none of the returned certificates matches the public key of the request"))
find_key key (cert ∷ certs) =
    let rest = find_key key certs in if key_equal key cert.public_key then ok cert else rest

-- `findLeaf` on the certificates `cert ∷ certs`: `certs[0]` is the first of them.
unfoldable pub find_leaf :
    Certificate → List Certificate → Option PublicKey → Result GoError Certificate
find_leaf cert certs none = ok cert
find_leaf cert certs (some (opaque key)) = ok cert
find_leaf cert certs (some (comparable key)) = find_key key (cert ∷ certs)

-- The loop that fills `remaining`.
unfoldable pub others : Certificate → List Certificate → List Certificate
others leaf [] = []
others leaf (cert ∷ certs) =
    let rest = others leaf certs in if str_eq cert.raw leaf.raw then rest else cert ∷ rest

module _ (p : Platform) where
  -- The two tests of `popIssuer`.
  unfoldable pub is_issuer : Certificate → Certificate → Bool
  is_issuer child candidate =
      str_eq candidate.raw_subject child.raw_issuer && Platform.signed_by p child candidate

  -- `none` is a nil issuer.
  unfoldable pub pop_issuer :
      List Certificate → Certificate → Option (Certificate × List Certificate)
  pop_issuer [] child = none
  pop_issuer (candidate ∷ candidates) child =
      let rest = pop_issuer candidates child in
      if is_issuer child candidate
      then some (candidate, candidates)
      else elim rest [ none ↦ none | some (issuer, left) ↦ some (issuer, candidate ∷ left) ]

  unfoldable pub is_self_signed : Certificate → Bool
  is_self_signed cert = str_eq cert.raw_subject cert.raw_issuer && Platform.signed_by p cert cert

  -- The loop of `BuildBundle`: what it appends to the chain above `current`. Each round takes a
  -- certificate out of `remaining`, whose length is the fuel.
  unfoldable pub climb : ℕ → List Certificate → Certificate → List Certificate
  climb zero remaining current = []
  climb (suc fuel) remaining current = elim (pop_issuer remaining current) [
    | none ↦ []
    | some (issuer, rest) ↦
        let above = climb fuel rest issuer in issuer ∷ (if is_self_signed issuer then [] else above)
  ]

  unfoldable pub chain_above : Certificate → List Certificate → List Certificate
  chain_above leaf certs =
      let remaining = others leaf certs in climb (length remaining) remaining leaf

  unfoldable pub encode_certificates : List Certificate → Bytes
  encode_certificates [] = []
  encode_certificates (cert ∷ certs) =
      Platform.pem_encode p
        (record { block_type = pem_certificate_type; headers = []; bytes = cert.raw })
      ++ encode_certificates certs

  unfoldable pub build_bundle : List Certificate → Option PublicKey → Result GoError Bundle
  build_bundle [] csr_public_key = err (plain (codes "no certificates to build a chain from"))
  build_bundle (cert ∷ certs) csr_public_key = do
    leaf ← find_leaf cert certs csr_public_key
    ok (record {
      chain_pem = encode_certificates (leaf ∷ chain_above leaf (cert ∷ certs));
      leaf = leaf;
    })
