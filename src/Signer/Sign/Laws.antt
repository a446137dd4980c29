-- ===== src/Signer/Sign/Laws.antt =====
-- What a bundle that `Sign` returns is.
use kmp_issuer.Base.{
  ◌≡◌, subst, inl, inr, true, List, Option, none, some, Result-cases, ok, ok-injective, err-ne-ok,
  ℤ,
}
use kmp_issuer.Text.{Bytes}
use kmp_issuer.X509.{
  Certificate, CertificateRequest, Platform, PublicKey, comparable, opaque, key_equal,
}
use kmp_issuer.Chain.Build.{Bundle, build_bundle}
use kmp_issuer.Chain.Build.Bundles.{
  IsChainBundle, build_bundle-IsChainBundle, build_bundle-key_equal,
}
use kmp_issuer.Chain.Request.{parse_csr}
use kmp_issuer.Verify.{verify_requested_names}
use kmp_issuer.Verify.Laws.{Covers, verify_requested_names_iff}
use kmp_issuer.Client.Call.{Server, lift}
use kmp_issuer.Client.Call.Runs.{lift_eq_ok, run_eq_ok, map_err-eq-ok, result_of}
use kmp_issuer.Signer.Options.{Signer}
use kmp_issuer.Signer.Fetch.{Clock}
use kmp_issuer.Signer.Resolve.{Request, resolve_csr_id, csr_common_name}
use kmp_issuer.Signer.Sign.{
  read_request, checked_bundle, sign_csr_of, sign, sign_stored, store, sign_at, sign_identified,
  complete, fetch_signed, fetch_name,
}

-- The certificate carries the key, where keys of its type can be compared.
pub CarriesKey : Option PublicKey → Certificate → Type 0
CarriesKey none leaf = Unit {0}
CarriesKey (some (opaque key)) leaf = Unit {0}
CarriesKey (some (comparable key)) leaf = key_equal key leaf.public_key ≡ true

module _ (p : Platform) where
  -- A bundle for a request: a chain over certificates, whose leaf carries the
  -- key of the request and its names.
  pub record IsBundleFor (csr : CertificateRequest) (certs : List Certificate) (b : Bundle)
      : Type 0 where
    pub chain : IsChainBundle p certs b
    pub key : CarriesKey csr.public_key b.leaf
    pub names : Covers p csr b.leaf

  build_bundle-CarriesKey :
      (certs : List Certificate) (key : Option PublicKey) (b : Bundle)
      → build_bundle p certs key ≡ ok b
      → CarriesKey key b.leaf
  unfolding CarriesKey
  build_bundle-CarriesKey certs none b h = tt
  build_bundle-CarriesKey certs (some (opaque key)) b h = tt
  build_bundle-CarriesKey certs (some (comparable key)) b h =
      ((build_bundle-key_equal p certs key).1 b h).1

  checked_bundle-IsBundleFor :
      (csr : CertificateRequest) (certs : List Certificate) (b : Bundle)
      → checked_bundle p csr certs ≡ ok b
      → IsBundleFor csr certs b
  unfolding checked_bundle
  checked_bundle-IsBundleFor csr certs b h =
      elim (Result-cases (build_bundle p certs csr.public_key)) [
        | inr (e, failed) ↦ absurd (err-ne-ok (rw (checked_bundle, failed) at h))
        | inl (found, built) ↦ elim (Result-cases (verify_requested_names p csr found.leaf)) [
          | inr (e, failed) ↦ absurd (err-ne-ok (rw (checked_bundle, built, failed) at h))
          | inl (_, covered) ↦
              subst (IsBundleFor csr certs)
                (ok-injective (rw (checked_bundle, built, covered) at h))
                (record {
                  chain = build_bundle-IsChainBundle p certs csr.public_key found built;
                  key = build_bundle-CarriesKey certs csr.public_key found built;
                  names = (verify_requested_names_iff p csr found.leaf).0 covered;
                })
        ]
      ]

module _ (p : Platform) (srv : Server) (k : Clock srv) (ceil_days : ℤ → ℤ) (s : Signer) where
  -- If `Sign` returns a bundle, then the request parses, some certificates were fetched from the
  -- server after it, and the bundle is a chain of signatures over these certificates whose leaf
  -- carries the key of the request, where keys of its type can be compared, and all its names.
  pub sign-IsBundleFor :
      (req : Request) (b : Bundle) (before after : Server.State srv)
      → sign p srv k ceil_days s req before ≡ (ok b, after)
      → (csr : CertificateRequest) × (certs : List Certificate) × (name serial : Bytes)
        × (asked : Server.State srv) × (parse_csr p req.csr_pem ≡ ok csr)
        × ((fetch_signed p srv k ceil_days s name serial asked).0 ≡ ok certs)
        × IsBundleFor p csr certs b
  unfolding sign sign_csr_of sign_stored sign_identified complete read_request
  sign-IsBundleFor req b before after h =
      let (csr, read, h₁) =
        lift_eq_ok (read_request p req) (sign_csr_of p srv k ceil_days s req) h in
      let (stored, _, h₂) =
        run_eq_ok (store p srv k ceil_days s req) (sign_stored p srv k ceil_days s req csr) h₁ in
      let (csr_id, _, h₃) =
        run_eq_ok (resolve_csr_id p srv s stored (csr_common_name csr))
          (sign_identified p srv k ceil_days s req csr stored) h₂ in
      let (result, _, h₄) =
        run_eq_ok (sign_at p srv k ceil_days s req csr_id) (complete p srv k ceil_days s csr stored)
          h₃ in
      let (certs, fetched, h₅) =
        run_eq_ok
          (fetch_signed p srv k ceil_days s (fetch_name result stored csr) result.serial_number)
          (λ certs. lift (checked_bundle p csr certs)) h₄ in
      (
        csr,
        certs,
        fetch_name result stored csr,
        result.serial_number,
        _,
        map_err-eq-ok _ (parse_csr p req.csr_pem) read,
        fetched,
        checked_bundle-IsBundleFor p csr certs b (result_of h₅),
      )
