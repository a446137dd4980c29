-- ===== src/Reconciler/Need.antt =====
-- internal/controllers/kmpcertificate_controller.go: `leafOf` and `issuanceNeeded`.
pub mod Laws
use kmp_issuer.Base.{
  ℕ, Bool, true, false, not, ◌||◌, List, [], ◌∷◌, ◌++◌, Option, none, some, Result, ok, err,
  if◌then◌else◌, is_nil, ltz, ℤ, pos,
}
use kmp_issuer.Text.{Bytes, codes}
use kmp_issuer.X509.{Certificate, Platform}
use kmp_issuer.Api.Certificates.{KmpCertificate}
use kmp_issuer.Cluster.Data.{get_or_empty}
use kmp_issuer.Cluster.Access.{
  NamespacedName, name_text, ApiFailure, not_found, other_failure, Secret, Cluster, Library,
}
use kmp_issuer.Reconciler.{Reconciler}
use kmp_issuer.Reconciler.Renewal.{renewal_time, now}
use kmp_issuer.Reconciler.Spec.{matches_spec}

abbrev pub tls_cert_key : Bytes
tls_cert_key = codes "tls.crt"

abbrev pub tls_private_key_key : Bytes
tls_private_key_key = codes "tls.key"

abbrev pub first_certificate : List Certificate → Result Bytes Certificate
first_certificate [] = err (codes "no certificate in the chain")
first_certificate (leaf ∷ rest) = ok leaf

unfoldable pub leaf_of : Library → Bytes → Result Bytes Certificate
leaf_of l chain_pem = elim (Library.decode_chain l chain_pem) [
  | err e ↦ err e
  | ok certs ↦ first_certificate certs
]

-- What `issuanceNeeded` returns: the reason for a request, with the time if there is one, or the
-- time of the renewal.
pub data Need : Type 0 where
  needed : Bytes → Option ℤ → Need
  current : ℤ → Need

abbrev pub secret_name : KmpCertificate → NamespacedName
secret_name certificate = record {
  namespace = certificate.namespace;
  name = certificate.spec.secret_name;
}

module _ (l : Library) (p : Platform) (certificate : KmpCertificate) where
  -- The test of the time.
  unfoldable pub need_of_time : ℕ → ℤ → Need
  need_of_time time renew_at =
      if not (ltz (pos time) renew_at)
      then needed (codes "the certificate is due for renewal at " ++ Library.rfc3339 l renew_at)
          (some renew_at)
      else current renew_at

  unfoldable pub need_of_leaf : ℕ → Certificate → Need
  need_of_leaf time leaf =
      let mismatch = matches_spec p leaf certificate.spec in
      if not (is_nil mismatch)
      then needed mismatch none
      else need_of_time time (renewal_time leaf certificate.spec.renew_before)

  abbrev about_secret : Bytes → Bytes → Bytes
  about_secret text rest = text ++ name_text (secret_name certificate) ++ rest

  unfoldable pub need_of_secret : ℕ → Secret → Need
  need_of_secret time secret =
      if is_nil (get_or_empty tls_cert_key secret.contents)
        || is_nil (get_or_empty tls_private_key_key secret.contents)
      then needed (about_secret (codes "secret ") (codes " holds no certificate and key")) none
      else elim (leaf_of l (get_or_empty tls_cert_key secret.contents)) [
        | err e ↦
            needed
              (about_secret (codes "the certificate in secret ")
                (codes " could not be read: " ++ e))
              none
        | ok leaf ↦ need_of_leaf time leaf
      ]

  unfoldable pub need_of_answer : ℕ → Result ApiFailure Secret → Need
  need_of_answer time (err (not_found e)) =
      needed (about_secret (codes "secret ") (codes " does not exist")) none
  need_of_answer time (err (other_failure e)) =
      needed (about_secret (codes "secret ") (codes " could not be read: " ++ e)) none
  need_of_answer time (ok secret) = need_of_secret time secret

module _ {S : Type 0} (r : Reconciler S) where
  unfoldable pub issuance_needed : KmpCertificate → S → Need × S
  issuance_needed certificate s =
      let (answer, t) = Cluster.get_secret (Reconciler.cluster r) (secret_name certificate) s in
      (
        need_of_answer (Reconciler.library r) (Reconciler.platform r) certificate (now r t) answer,
        t,
      )
