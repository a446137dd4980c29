-- ===== src/Chain/Build/Bundles.antt =====
-- What a bundle is: the leaf that was asked for, and the chain above it.
use kmp_issuer.Base.{
  ◌≡◌, refl, subst, sym, ap, ◌∙◌, ◌⊎◌, inl, inr, true, false, List, [], ◌∷◌, Option, none, some, In,
  here, there, In-cons_cases, All-of_In, Bool-cases, ok, >>=-eq-ok, ok-injective, err-ne-ok,
}
use mathlib.Core.Bool.{true≢false}
use native.Mathlib.Nat.{le_refl}
use kmp_issuer.Text.{Bytes}
use kmp_issuer.X509.{Certificate, Platform, PublicKey, comparable, opaque, key_equal}
use kmp_issuer.Chain.Build.{
  Bundle, find_key, find_leaf, others, is_issuer, is_self_signed, chain_above, encode_certificates,
  build_bundle,
}
use kmp_issuer.Chain.Build.Climb.{Climbs, climb-Climbs, Differs, AllDiffer}
use kmp_issuer.Chain.Build.Others.{others-In, In-others, others-AllDiffer}
use kmp_issuer.Chain.Build.Ascent.{
  IsSignedChain, Climbs-IsSignedChain, Climbs-In, Climbs-AllDiffer, Climbs-top, top,
}

find_key-In :
    (key : Bytes) (certs : List Certificate) {leaf : Certificate}
    → find_key key certs ≡ ok leaf
    → In leaf certs × (key_equal key leaf.public_key ≡ true)
unfolding find_key
find_key-In key [] h = cc
find_key-In key (cert ∷ certs) {leaf} h = elim (Bool-cases (key_equal key cert.public_key)) [
  | inl matches ↦ let e : cert ≡ leaf = ok-injective (rw matches at h) in (here e, rw (← e) matches)
  | inr other ↦ let (i, matches) = find_key-In key certs (rw other at h) in (there i, matches)
]

find_leaf-In :
    (cert : Certificate) (certs : List Certificate) (key : Option PublicKey) {leaf : Certificate}
    → find_leaf cert certs key ≡ ok leaf
    → In leaf (cert ∷ certs)
unfolding find_leaf
find_leaf-In cert certs none h = here (ok-injective h)
find_leaf-In cert certs (some (opaque key)) h = here (ok-injective h)
find_leaf-In cert certs (some (comparable key)) h = (find_key-In key (cert ∷ certs) h).0

find_key-total :
    (key : Bytes) (certs : List Certificate) {c : Certificate}
    → In c certs
    → key_equal key c.public_key ≡ true
    → (leaf : Certificate) × (find_key key certs ≡ ok leaf)
unfolding find_key
find_key-total key [] i h = elim i [ ]
find_key-total key (cert ∷ certs) {c} i h = elim (Bool-cases (key_equal key cert.public_key)) [
  | inl matches ↦ (cert, rw matches)
  | inr other ↦ elim (In-cons_cases i) [
    | inl e ↦
        absurd
          (true≢false (sym h ∙ ap (λ d. key_equal key (Certificate.public_key d)) (sym e) ∙ other))
    | inr j ↦ let (leaf, found) = find_key-total key certs j h in (leaf, rw other found)
  ]
]

module _ (p : Platform) where
  -- A bundle over the certificates: its text encodes its leaf and a chain of signatures above it,
  -- all of them given, none of them the leaf again.
  pub record IsChainBundle (certs : List Certificate) (b : Bundle) : Type 0 where
    pub above : List Certificate
    pub text : b.chain_pem ≡ encode_certificates p (b.leaf ∷ above)
    pub signed : IsSignedChain p b.leaf above
    pub leaf_given : In b.leaf certs
    pub given : (c : Certificate) → In c above → In c certs × Differs c b.leaf
    -- A certificate that was given and is left out is the leaf's copy, or the last of the chain is
    -- self-signed or was not issued by it.
    pub complete :
        (c : Certificate)
        → In c certs
        → Differs c b.leaf
        → In c above
          ⊎ (is_self_signed p (top p b.leaf above) ≡ true)
          ⊎ (is_issuer p (top p b.leaf above) c ≡ false)

  climbed :
      (leaf : Certificate) (certs : List Certificate)
      → Climbs p (others leaf certs) leaf (chain_above p leaf certs)
  unfolding chain_above
  climbed leaf certs = climb-Climbs p _ (others leaf certs) leaf (le_refl _)

  bundle_of :
      (leaf : Certificate) (certs : List Certificate)
      → In leaf certs
      → IsChainBundle certs (record {
        chain_pem = encode_certificates p (leaf ∷ chain_above p leaf certs);
        leaf = leaf;
      })
  bundle_of leaf certs i = record {
    above = chain_above p leaf certs;
    text = refl;
    signed = Climbs-IsSignedChain p (climbed leaf certs);
    leaf_given = i;
    given = λ c j. others-In leaf certs (Climbs-In p (climbed leaf certs) j);
    complete = λ c j apart. Climbs-top p c (climbed leaf certs) (In-others leaf certs j apart);
  }

  -- Every bundle that `BuildBundle` returns is the leaf with a chain above it in which each
  -- certificate names the next as its issuer and is signed by it. All are among the given
  -- certificates, none above the leaf is the leaf again, and a given certificate is left out only
  -- if it has the bytes of the leaf, or the chain ends at a self-signed certificate, or the last
  -- certificate of the chain was not issued by it.
  pub build_bundle-IsChainBundle :
      (certs : List Certificate) (key : Option PublicKey) (b : Bundle)
      → build_bundle p certs key ≡ ok b
      → IsChainBundle certs b
  unfolding build_bundle
  build_bundle-IsChainBundle [] key b h = absurd (err-ne-ok h)
  build_bundle-IsChainBundle (cert ∷ certs) key b h =
      let (leaf, found, e) = >>=-eq-ok (find_leaf cert certs key) _ h in
      subst (IsChainBundle (cert ∷ certs)) (ok-injective e)
        (bundle_of leaf (cert ∷ certs) (find_leaf-In cert certs key found))

  -- For the key of a request of a type that can be compared, `BuildBundle` returns a bundle exactly
  -- if one of the certificates carries that key, and then the leaf of the bundle carries it.
  pub build_bundle-key_equal :
      (certs : List Certificate) (key : Bytes)
      → ((c : Certificate)
          → In c certs
          → key_equal key c.public_key ≡ true
          → (b : Bundle) × (build_bundle p certs (some (comparable key)) ≡ ok b))
        × ((b : Bundle)
            → build_bundle p certs (some (comparable key)) ≡ ok b
            → In b.leaf certs × (key_equal key b.leaf.public_key ≡ true))
  unfolding build_bundle find_leaf
  build_bundle-key_equal [] key = (λ c i h. elim i [ ], λ b h. absurd (err-ne-ok h))
  build_bundle-key_equal (cert ∷ certs) key = (
    λ c i h.
        let (leaf, found) = find_key-total key (cert ∷ certs) i h in
        (
          record {
            chain_pem = encode_certificates p (leaf ∷ chain_above p leaf (cert ∷ certs));
            leaf = leaf;
          },
          rw found,
        ),
    λ b h.
        let (leaf, found, e) = >>=-eq-ok (find_key key (cert ∷ certs)) _ h in
        subst
          (λ d.
            In (Bundle.leaf d) (cert ∷ certs)
            × (key_equal key (Certificate.public_key (Bundle.leaf d)) ≡ true))
          (ok-injective e) (find_key-In key (cert ∷ certs) found),
  )

  -- If the certificates have different bytes, so have the leaf and the certificates above it: the
  -- chain does not go round in a circle.
  pub chain_above-AllDiffer :
      (leaf : Certificate) (certs : List Certificate)
      → AllDiffer certs
      → AllDiffer (leaf ∷ chain_above p leaf certs)
  chain_above-AllDiffer leaf certs a =
      let c = climbed leaf certs in
      (
        All-of_In (Differs leaf) _ (λ d i. λ e. (others-In leaf certs (Climbs-In p c i)).1 (sym e)),
        Climbs-AllDiffer p c (others-AllDiffer leaf certs a),
      )
