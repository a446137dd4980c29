-- ===== src/Reconciler/Issue/Fresh.antt =====
-- A certificate that was just written is current.
use kmp_issuer.Base.{◌≡◌, refl, ap, ◌∙◌, ℕ, true, false, ok, is_nil, ltz, pos}
use kmp_issuer.X509.{Certificate, Platform}
use kmp_issuer.Api.Certificates.{KmpCertificate}
use kmp_issuer.Cluster.Data.{SecretData, bytes_or_empty, get_or_empty}
use kmp_issuer.Cluster.Access.{Secret, Library}
use kmp_issuer.Provision.Names.{verify_provisioned_names}
use kmp_issuer.Reconciler.Renewal.{renewal_time}
use kmp_issuer.Reconciler.Spec.{provision_request}
use kmp_issuer.Reconciler.Spec.Matches.{matches_spec_iff}
use kmp_issuer.Reconciler.Spec.Provisioned.{FoldsBothWays, IsPlain, matches_spec-provision_request}
use kmp_issuer.Reconciler.Need.{current, leaf_of, need_of_secret, tls_cert_key, tls_private_key_key}
use kmp_issuer.Reconciler.Need.Laws.{IsCurrent-need_of_secret}
use kmp_issuer.Reconciler.Issue.{Material, filled_data}
use kmp_issuer.Reconciler.Issue.Laws.{lookup_key-filled_data}

-- If `writeSecret` filled a Secret with a chain and a key that are not empty, the chain's first
-- certificate is one that `verifyProvisionedNames` accepted for the request of the spec, the spec is
-- one of which that function checks all that `matchesSpec` does, `strings.EqualFold` does not depend
-- on the order of its arguments, and the renewal is still to come, then no new certificate is needed.
pub need_of_secret-filled_data :
    (l : Library) (p : Platform) (certificate : KmpCertificate) (time : ℕ) (secret : Secret)
    (m : Material) (old : SecretData) (leaf : Certificate)
    → FoldsBothWays (Platform.unicode p)
    → IsPlain p certificate.spec
    → secret.contents ≡ filled_data m old
    → is_nil m.chain_pem ≡ false
    → is_nil m.key_pem ≡ false
    → leaf_of l m.chain_pem ≡ ok leaf
    → verify_provisioned_names p (provision_request certificate.spec m.password) leaf ≡ ok tt
    → ltz (pos time) (renewal_time leaf certificate.spec.renew_before) ≡ true
    → need_of_secret l p certificate time secret
      ≡ current (renewal_time leaf certificate.spec.renew_before)
need_of_secret-filled_data l p certificate time secret m old leaf both plain written chain key read
      accepted early =
    let (cert_found, key_found, ca_found, password_found, others) = lookup_key-filled_data m old in
    let cert : get_or_empty tls_cert_key secret.contents ≡ m.chain_pem =
      ap (get_or_empty tls_cert_key) written ∙ ap bytes_or_empty cert_found in
    let private : get_or_empty tls_private_key_key secret.contents ≡ m.key_pem =
      ap (get_or_empty tls_private_key_key) written ∙ ap bytes_or_empty key_found in
    IsCurrent-need_of_secret l p certificate time secret _ (record {
      certificate_there = ap is_nil cert ∙ chain;
      key_there = ap is_nil private ∙ key;
      leaf = leaf;
      read = ap (leaf_of l) cert ∙ read;
      suits =
          (matches_spec_iff p leaf certificate.spec).0
            (matches_spec-provision_request p certificate.spec m.password leaf both plain accepted);
      renewal = refl;
      to_come = early;
    })
