-- ===== src/Reconciler/Need/Laws.antt =====
-- When `issuanceNeeded` finds the certificate in the Secret current.
use kmp_issuer.Base.{
  ℕ, ◌≡◌, refl, sym, subst, ◌↔◌, inl, inr, Bool, true, false, not, ◌||◌, [], ◌∷◌, Bool-cases,
  Option, Result, ok, err, err-ne-ok, ok-injective, Result-cases, is_nil, ltz, ℤ, pos,
}
use kmp_issuer.Text.{Bytes}
use kmp_issuer.X509.{Certificate, Platform}
use kmp_issuer.Api.Certificates.{KmpCertificate}
use kmp_issuer.Cluster.Data.{get_or_empty}
use kmp_issuer.Cluster.Access.{ApiFailure, not_found, other_failure, Secret, Cluster, Library}
use kmp_issuer.Reconciler.{Reconciler}
use kmp_issuer.Reconciler.Renewal.{renewal_time, now}
use kmp_issuer.Reconciler.Spec.{matches_spec}
use kmp_issuer.Reconciler.Spec.Matches.{Matches, matches_spec_iff}
use kmp_issuer.Reconciler.Need.{
  needed, current, tls_cert_key, tls_private_key_key, leaf_of, secret_name, need_of_time,
  need_of_leaf, need_of_secret, need_of_answer, issuance_needed,
}

needed-ne-current : {text : Bytes} {o : Option ℤ} {at : ℤ} → needed text o ≡ current at → ⊥
needed-ne-current h = cc

current-injective : {a b : ℤ} → current a ≡ current b → a ≡ b
current-injective h = cc

nil_of_full : (xs : Bytes) → not (is_nil xs) ≡ false → xs ≡ []
nil_of_full [] h = refl
nil_of_full (x ∷ xs) h = cc

neither : (a b : Bool) → (a || b) ≡ false → (a ≡ false) × (b ≡ false)
neither true b h = cc
neither false b h = (refl, h)

module _ (l : Library) (p : Platform) (certificate : KmpCertificate) where
  -- What the controller asks of a Secret that holds a current certificate: the certificate and the
  -- key are there, the first certificate of the chain has what the spec asks for, and its renewal
  -- is still to come.
  pub record IsCurrent (time : ℕ) (secret : Secret) (at : ℤ) : Type 0 where
    pub certificate_there : is_nil (get_or_empty tls_cert_key secret.contents) ≡ false
    pub key_there : is_nil (get_or_empty tls_private_key_key secret.contents) ≡ false
    pub leaf : Certificate
    pub read : leaf_of l (get_or_empty tls_cert_key secret.contents) ≡ ok leaf
    pub suits : Matches p leaf certificate.spec
    pub renewal : renewal_time leaf certificate.spec.renew_before ≡ at
    pub to_come : ltz (pos time) at ≡ true

  need_of_time-current :
      (time : ℕ) (at renew_at : ℤ)
      → need_of_time l p certificate time renew_at ≡ current at
      → (renew_at ≡ at) × (ltz (pos time) at ≡ true)
  unfolding need_of_time
  need_of_time-current time at renew_at h = elim (Bool-cases (ltz (pos time) renew_at)) [
    | inl early ↦
        let e : renew_at ≡ at = current-injective (rw early at h) in
        (e, subst (λ x. ltz (pos time) x ≡ true) e early)
    | inr due ↦ absurd (needed-ne-current (rw due at h))
  ]

  need_of_leaf-current :
      (time : ℕ) (leaf : Certificate) (at : ℤ)
      → need_of_leaf l p certificate time leaf ≡ current at
      → Matches p leaf certificate.spec
        × (renewal_time leaf certificate.spec.renew_before ≡ at)
        × (ltz (pos time) at ≡ true)
  unfolding need_of_leaf
  need_of_leaf-current time leaf at h =
      elim (Bool-cases (not (is_nil (matches_spec p leaf certificate.spec)))) [
        | inl mismatch ↦ absurd (needed-ne-current (rw mismatch at h))
        | inr fits ↦
            let (renewal, to_come) =
              need_of_time-current time at (renewal_time leaf certificate.spec.renew_before)
                (rw fits at h) in
            ((matches_spec_iff p leaf certificate.spec).0 (nil_of_full _ fits), renewal, to_come)
      ]

  need_of_secret-current :
      (time : ℕ) (secret : Secret) (at : ℤ)
      → need_of_secret l p certificate time secret ≡ current at
      → IsCurrent time secret at
  unfolding need_of_secret
  need_of_secret-current time secret at h =
      elim (Bool-cases (
        is_nil (get_or_empty tls_cert_key secret.contents)
        || is_nil (get_or_empty tls_private_key_key secret.contents))) [
          | inl empty ↦ absurd (needed-ne-current (rw empty at h))
          | inr full ↦ elim (Result-cases (leaf_of l (get_or_empty tls_cert_key secret.contents))) [
            | inl (leaf, e) ↦
                let (cert_full, key_full) = neither _ _ full in
                let (suits, renewal, to_come) =
                  need_of_leaf-current time leaf at (rw (full, e) at h) in
                record {
                  certificate_there = cert_full;
                  key_there = key_full;
                  leaf = leaf;
                  read = e;
                  suits = suits;
                  renewal = renewal;
                  to_come = to_come;
                }
            | inr (text, e) ↦ absurd (needed-ne-current (rw (full, e) at h))
          ]
        ]

  pub IsCurrent-need_of_secret :
      (time : ℕ) (secret : Secret) (at : ℤ)
      → IsCurrent time secret at
      → need_of_secret l p certificate time secret ≡ current at
  unfolding need_of_secret need_of_leaf need_of_time
  IsCurrent-need_of_secret time secret at c =
      rw
        (
          c.certificate_there,
          c.key_there,
          c.read,
          (matches_spec_iff p c.leaf certificate.spec).1 c.suits,
          c.renewal,
          c.to_come,
        )
        refl

  need_of_answer-current :
      (time : ℕ) (answer : Result ApiFailure Secret) (at : ℤ)
      → (need_of_answer l p certificate time answer ≡ current at)
        ↔ ((secret : Secret) × (answer ≡ ok secret) × IsCurrent time secret at)
  unfolding need_of_answer
  need_of_answer-current time (err (not_found e)) at =
      (λ h. absurd (needed-ne-current h), λ (secret, got, c). absurd (err-ne-ok got))
  need_of_answer-current time (err (other_failure e)) at =
      (λ h. absurd (needed-ne-current h), λ (secret, got, c). absurd (err-ne-ok got))
  need_of_answer-current time (ok secret) at = (
    λ h. (secret, refl, need_of_secret-current time secret at h),
    λ (other, same, c).
        subst (λ x. need_of_secret l p certificate time x ≡ current at) (sym (ok-injective same))
          (IsCurrent-need_of_secret time other at c),
  )

-- `issuanceNeeded` finds no need for a certificate, with a time for its renewal, exactly if the
-- Secret is read and holds one that is current, with that time: the certificate and the key are
-- there, the first certificate has what the spec asks for, and its renewal is still to come.
pub issuance_needed_iff :
    {S : Type 0} (r : Reconciler S) (certificate : KmpCertificate) (s : S) (at : ℤ)
    → ((issuance_needed r certificate s).0 ≡ current at) ↔ (
        (secret : Secret) × ((Cluster.get_secret
            (Reconciler.cluster r)
            (secret_name certificate)
            s).0
          ≡ ok secret)
        × IsCurrent
            (Reconciler.library r)
            (Reconciler.platform r)
            certificate
            (now r (issuance_needed r certificate s).1)
            secret
            at)
unfolding issuance_needed
issuance_needed_iff r certificate s at =
    need_of_answer-current (Reconciler.library r) (Reconciler.platform r) certificate _ _ at
