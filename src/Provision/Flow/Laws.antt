-- ===== src/Provision/Flow/Laws.antt =====
-- What `Provision` publishes: a key and the certificate that it belongs to.
use kmp_issuer.Base.{
  ◌≡◌, refl, ap, subst, inl, inr, true, false, List, Bool-cases, Result-cases, ok, ok-injective,
  err-ne-ok, is_nil, ℤ, pos, [],
}
use kmp_issuer.Text.{Bytes, codes, trim_space}
use kmp_issuer.X509.{Certificate, Platform}
use kmp_issuer.Chain.Build.{Bundle, build_bundle}
use kmp_issuer.Chain.Build.Bundles.{IsChainBundle, build_bundle-IsChainBundle}
use kmp_issuer.PrivateKey.Pem.{KeyPlatform}
use kmp_issuer.PrivateKey.Export.{EscrowedKey, parse_exported_private_key, matches_certificate}
use kmp_issuer.Client.Call.{Server, lift, map_error}
use kmp_issuer.Client.Call.Runs.{first_step, run_eq_ok, guard_eq_ok, map_err-eq-ok, result_of}
use kmp_issuer.Client.Csr.{export_csr}
use kmp_issuer.Client.Sign.{SignResult, sign_csr}
use kmp_issuer.Signer.Options.{Signer}
use kmp_issuer.Signer.Fetch.{Clock, fetch_certificate}
use kmp_issuer.Signer.Resolve.{sign_request, resolve_csr_id}
use kmp_issuer.Signer.Sign.{context}
use kmp_issuer.Provision.{ProvisionRequest}
use kmp_issuer.Provision.Names.{verify_provisioned_names}
use kmp_issuer.Provision.Covered.{CoversProvisioned, verify_provisioned_names_iff}
use kmp_issuer.Provision.Flow.{
  ProvisionedCertificate, read_key, matched_bundle, assemble, fetched_name, export_key,
  provision_fetched, provision_signed, provision_identified, provision_stored, create_stored,
  provision,
}

module _ (p : Platform) (q : KeyPlatform) where
  -- A key and a bundle that belong together: the bundle is a chain over the certificates, and its
  -- leaf carries the key and the names of the request.
  pub record IsMatched (req : ProvisionRequest) (certs : List Certificate)
      (private_key : EscrowedKey) (b : Bundle) : Type 0 where
    pub chain : IsChainBundle p certs b
    pub key : matches_certificate private_key.key b.leaf ≡ true
    pub names : CoversProvisioned p req b.leaf

  matched_bundle-IsMatched :
      (req : ProvisionRequest) (certs : List Certificate) (private_key : EscrowedKey) (b : Bundle)
      → matched_bundle p q req certs private_key ≡ ok b
      → IsMatched req certs private_key b
  unfolding matched_bundle
  matched_bundle-IsMatched req certs private_key b h =
      elim (Result-cases (build_bundle p certs private_key.key.public_key)) [
        | inr (e, failed) ↦ absurd (err-ne-ok (rw (matched_bundle, failed) at h))
        | inl (found, built) ↦ elim (Bool-cases (matches_certificate private_key.key found.leaf)) [
          | inr other ↦ absurd (err-ne-ok (rw (matched_bundle, built, other) at h))
          | inl belongs ↦ elim (Result-cases (verify_provisioned_names p req found.leaf)) [
            | inr (e, failed) ↦
                absurd (err-ne-ok (rw (matched_bundle, built, belongs, failed) at h))
            | inl (_, covered) ↦
                subst (IsMatched req certs private_key)
                  (ok-injective (rw (matched_bundle, built, belongs, covered) at h))
                  (record {
                    chain =
                        build_bundle-IsChainBundle p certs private_key.key.public_key found built;
                    key = belongs;
                    names = (verify_provisioned_names_iff p req found.leaf).0 covered;
                  })
          ]
        ]
      ]

  -- What was published comes from the export, and its key belongs to a bundle over the certificates.
  pub record IsProvisioned (req : ProvisionRequest) (certs : List Certificate) (exported : Bytes)
      (result : ProvisionedCertificate) : Type 0 where
    pub private_key : EscrowedKey
    pub read : parse_exported_private_key p q exported req.password ≡ ok private_key
    pub pem : result.private_key_pem ≡ private_key.pem
    pub matched : IsMatched req certs private_key result.bundle

  assemble-IsProvisioned :
      (req : ProvisionRequest) (csr_id : Bytes) (signed : SignResult) (certs : List Certificate)
      (exported : Bytes) (result : ProvisionedCertificate)
      → assemble p q req csr_id signed certs exported ≡ ok result
      → IsProvisioned req certs exported result
  unfolding assemble read_key
  assemble-IsProvisioned req csr_id signed certs exported result h =
      elim (Result-cases (read_key p q req exported)) [
        | inr (e, failed) ↦ absurd (err-ne-ok (rw (assemble, failed) at h))
        | inl (key, read) ↦ elim (Result-cases (matched_bundle p q req certs key)) [
          | inr (e, failed) ↦ absurd (err-ne-ok (rw (assemble, read, failed) at h))
          | inl (b, matched) ↦
              subst (IsProvisioned req certs exported)
                (ok-injective (rw (assemble, read, matched) at h))
                (record {
                  private_key = key;
                  read =
                      map_err-eq-ok _ (parse_exported_private_key p q exported req.password) read;
                  pem = refl;
                  matched = matched_bundle-IsMatched req certs key b matched;
                })
        ]
      ]

-- What is published bears the identifier of the request and the serial number of the signing.
assemble-ids :
    (p : Platform) (q : KeyPlatform) (req : ProvisionRequest) (csr_id : Bytes) (signed : SignResult)
    (certs : List Certificate) (exported : Bytes) (result : ProvisionedCertificate)
    → assemble p q req csr_id signed certs exported ≡ ok result
    → (csr_id ≡ result.csr_id) × (signed.serial_number ≡ result.serial_number)
unfolding assemble
assemble-ids p q req csr_id signed certs exported result h =
    elim (Result-cases (read_key p q req exported)) [
      | inr (e, failed) ↦ absurd (err-ne-ok (rw (assemble, failed) at h))
      | inl (key, read) ↦ elim (Result-cases (matched_bundle p q req certs key)) [
        | inr (e, failed) ↦ absurd (err-ne-ok (rw (assemble, read, failed) at h))
        | inl (b, matched) ↦
            let same = ok-injective (rw (assemble, read, matched) at h) in
            (ap (λ x. x.csr_id) same, ap (λ x. x.serial_number) same)
      ]
    ]

module _ (p : Platform) (q : KeyPlatform) (srv : Server) (k : Clock srv) (ceil_days : ℤ → ℤ)
    (s : Signer) where
  -- If `Provision` returns, the request has a password, certificates were fetched from the server
  -- by the serial number and a key was exported by the identifier that it reports, the private key that it publishes was read from that export with that
  -- password, and it belongs to the leaf of the bundle, which is a chain of signatures over these
  -- certificates and whose leaf has the names of the request.
  pub provision-IsProvisioned :
      (req : ProvisionRequest) (result : ProvisionedCertificate) (before after : Server.State srv)
      → provision p q srv k ceil_days s req before ≡ (ok result, after)
      → (is_nil req.password ≡ false)
        × ((certs : List Certificate) × (exported name : Bytes) × (asked told : Server.State srv)
            × ((fetch_certificate p srv k s name result.serial_number asked).0 ≡ ok certs)
            × ((export_csr p srv s.client result.csr_id req.export_file_type told).0 ≡ ok exported)
            × IsProvisioned p q req certs exported result)
  unfolding provision export_key provision_stored provision_identified provision_signed
      provision_fetched
  provision-IsProvisioned req result before after h =
      let (_, h₁) = guard_eq_ok (is_nil (trim_space req.common_name)) _ _ h in
      let (protected, h₂) = guard_eq_ok (is_nil req.password) _ _ h₁ in
      let (stored, _, h₃) =
        run_eq_ok (create_stored p q srv k ceil_days s req)
          (provision_stored p q srv k ceil_days s req) h₂ in
      let (csr_id, _, h₄) =
        run_eq_ok (resolve_csr_id p srv s stored req.common_name)
          (provision_identified p q srv k ceil_days s req) h₃ in
      let (signed, u, _, h₅) =
        first_step
          (map_error (context (codes "signing the certificate signing request: ")) (
            sign_csr p srv s.client (
              sign_request ceil_days s.opts csr_id
                (record { csr_pem = []; duration = pos 0; is_ca = false }))))
          (provision_signed p q srv k ceil_days s req csr_id) h₄ in
      let (certs, v, fetched, h₆) =
        first_step
          (map_error (context (codes "fetching the signed certificate: "))
            (fetch_certificate p srv k s (fetched_name req signed) signed.serial_number))
          (provision_fetched p q srv k ceil_days s req csr_id signed) h₅ in
      let (exported, sent, h₇) =
        run_eq_ok (export_key p q srv k ceil_days s req csr_id)
          (λ x. lift (assemble p q req csr_id signed certs x)) h₆ in
      let (same_id, same_serial) =
        assemble-ids p q req csr_id signed certs exported result (result_of h₇) in
      (
        protected,
        (
          certs,
          exported,
          fetched_name req signed,
          u,
          v,
          subst (λ x. (fetch_certificate p srv k s (fetched_name req signed) x u).0 ≡ ok certs)
              same_serial
              (map_err-eq-ok (context (codes "fetching the signed certificate: ")) _
                (result_of fetched)),
          subst (λ x. (export_csr p srv s.client x req.export_file_type v).0 ≡ ok exported) same_id
              (map_err-eq-ok (context (codes "exporting the private key: ")) _ sent),
          assemble-IsProvisioned p q req csr_id signed certs exported result (result_of h₇),
        ),
      )
