-- ===== src/Reconciler/Issue/Trace.antt =====
-- The steps of an `issue` that returns no error.
use kmp_issuer.Base.{◌≡◌, ◌∙◌, Bool, Result, ok, ok-injective}
use kmp_issuer.Text.{Bytes}
use kmp_issuer.Errors.{GoError}
use kmp_issuer.Api.Issuers.{IssuerSpec}
use kmp_issuer.Api.Certificates.{KmpCertificate, KmpCertificateStatus}
use kmp_issuer.Cluster.Data.{SecretData}
use kmp_issuer.Cluster.Access.{Secret, Cluster, Library}
use kmp_issuer.Cluster.Builders.{Builders, Provisioner}
use kmp_issuer.Client.Call.{◌>>=◌, return}
use kmp_issuer.Client.Call.Runs.{first_step, lift_eq_ok, map_err-eq-ok, result_of, state_of}
use kmp_issuer.Provision.Flow.{ProvisionedCertificate}
use kmp_issuer.IssuerController.{auth_name, auth_secret_failure}
use kmp_issuer.Reconciler.{Reconciler}
use kmp_issuer.Reconciler.Spec.{provision_request}
use kmp_issuer.Reconciler.Need.{secret_name}
use kmp_issuer.Reconciler.Password.{stepped, key_store_password}
use kmp_issuer.Reconciler.Issue.{
  Material, fill_secret, writing_failure, resolve_issuer, write_secret, issued_status, split_bundle,
  store_provisioned, issue_protected, issue_authorized, issue_from, issue,
}

both_parts : {A B : Type 0} {x : A × B} {a : A} {b : B} → x.0 ≡ a → x.1 ≡ b → x ≡ (a, b)
both_parts h k = cc

stepped_eq_ok :
    {E S A : Type 0} (g : E → GoError) (m : S → Result E A × S) {s t : S} {a : A}
    → stepped g m s ≡ (ok a, t)
    → m s ≡ (ok a, t)
stepped_eq_ok g m {s} h = both_parts (map_err-eq-ok g (m s).0 (result_of h)) (state_of h)

abbrev material : Bytes → Bool → ProvisionedCertificate → Bytes × Bytes → Material
material password generated provisioned (chain_pem, ca_pem) = record {
  chain_pem = chain_pem;
  ca_pem = ca_pem;
  key_pem = provisioned.private_key_pem;
  password = password;
  generated = generated;
}

module _ {S : Type 0} (r : Reconciler S) where
  -- What `issue` did, from a state to the next: the issuer and its credentials were read, then the
  -- password, a provisioner built from these answered the request of the spec, and the Secret was
  -- written with the key and the chain that it answered with.
  pub record IsIssued (certificate : KmpCertificate) (s t : S) (status : KmpCertificateStatus)
      : Type 0 where
    pub spec : IssuerSpec
    pub namespace : Bytes
    pub auth_secret : Secret
    pub password : Bytes
    pub generated : Bool
    pub provisioner : Provisioner S
    pub provisioned : ProvisionedCertificate
    pub chain_pem : Bytes
    pub ca_pem : Bytes
    pub resolved_state : S
    pub authorized_state : S
    pub protected_state : S
    pub provisioned_state : S
    pub resolved : resolve_issuer r certificate s ≡ (ok (spec, namespace), resolved_state)
    pub authorized :
        Cluster.get_secret (Reconciler.cluster r) (auth_name spec namespace) resolved_state
        ≡ (ok auth_secret, authorized_state)
    pub protected :
        key_store_password r certificate authorized_state
        ≡ (ok (password, generated), protected_state)
    pub built :
        Builders.provisioner (Reconciler.builders r) spec auth_secret.contents ≡ ok provisioner
    pub answered :
        provisioner (provision_request certificate.spec password) protected_state
        ≡ (ok provisioned, provisioned_state)
    pub split :
        Library.split_chain (Reconciler.library r) provisioned.bundle.chain_pem
        ≡ ok (chain_pem, ca_pem)
    pub written :
        Cluster.create_or_update
          (Reconciler.cluster r)
          (secret_name certificate)
          (fill_secret
            (Reconciler.library r)
            certificate
            (material password generated provisioned (chain_pem, ca_pem)))
          provisioned_state
        ≡ (ok tt, t)
    pub status_of : issued_status r certificate provisioned ≡ status

  write_secret_steps :
      (certificate : KmpCertificate) (m : Material) (s t : S)
      → write_secret r certificate m s ≡ (ok tt, t)
      → Cluster.create_or_update
          (Reconciler.cluster r)
          (secret_name certificate)
          (fill_secret (Reconciler.library r) certificate m)
          s
        ≡ (ok tt, t)
  unfolding write_secret
  write_secret_steps certificate m s t h =
      stepped_eq_ok (writing_failure certificate)
        (Cluster.create_or_update (Reconciler.cluster r) (secret_name certificate)
          (fill_secret (Reconciler.library r) certificate m))
        h

  module _ (certificate : KmpCertificate) (t : S) (status : KmpCertificateStatus) where
    store_provisioned_steps :
        (password : Bytes) (generated : Bool) (provisioned : ProvisionedCertificate) (s : S)
        → store_provisioned r certificate password generated provisioned s ≡ (ok status, t)
        → (chain_pem ca_pem : Bytes) × (Library.split_chain
              (Reconciler.library r)
              provisioned.bundle.chain_pem
            ≡ ok (chain_pem, ca_pem))
          × (write_secret r certificate
                (material password generated provisioned (chain_pem, ca_pem))
                s
              ≡ (ok tt, t))
          × (issued_status r certificate provisioned ≡ status)
    unfolding store_provisioned split_bundle
    store_provisioned_steps password generated provisioned s h =
        let ((chain_pem, ca_pem), split, h₁) =
          lift_eq_ok (split_bundle r provisioned)
            (λ (parts : Bytes × Bytes). do
              _ ← write_secret r certificate (material password generated provisioned parts)
              return (issued_status r certificate provisioned))
            h in
        let (_, u, written, h₂) =
          first_step
            (write_secret r certificate
              (material password generated provisioned (chain_pem, ca_pem)))
            (λ _. return (issued_status r certificate provisioned)) h₁ in
        (
          chain_pem,
          ca_pem,
          map_err-eq-ok _ _ split,
          both_parts (result_of written) (state_of written ∙ state_of h₂),
          ok-injective (result_of h₂),
        )

    issue_protected_steps :
        (spec : IssuerSpec) (auth_data : SecretData) (password : Bytes) (generated : Bool) (s : S)
        → issue_protected r certificate spec auth_data (password, generated) s ≡ (ok status, t)
        → (provisioner : Provisioner S) × (provisioned : ProvisionedCertificate) × (u : S)
          × (Builders.provisioner (Reconciler.builders r) spec auth_data ≡ ok provisioner)
          × (provisioner (provision_request certificate.spec password) s ≡ (ok provisioned, u))
          × (store_provisioned r certificate password generated provisioned u ≡ (ok status, t))
    unfolding issue_protected
    issue_protected_steps spec auth_data password generated s h =
        let (provisioner, built, h₁) =
          lift_eq_ok _
            (λ (provisioner : Provisioner S).
              provisioner (provision_request certificate.spec password)
              >>= store_provisioned r certificate password generated)
            {s = s} h in
        let (provisioned, u, answered, h₂) =
          first_step (provisioner (provision_request certificate.spec password))
            (store_provisioned r certificate password generated) h₁ in
        (provisioner, provisioned, u, map_err-eq-ok _ _ built, answered, h₂)

  -- If `issue` returns no error, it read the issuer that the certificate names and the Secret of its
  -- credentials, then the password or made one, built a provisioner from that issuer and these
  -- credentials, which answered the request of the spec, and wrote the Secret of the certificate
  -- with the key and the split chain of the answer; the status is of that answer.
  pub issue-IsIssued :
      (certificate : KmpCertificate) (s t : S) (status : KmpCertificateStatus)
      → issue r certificate s ≡ (ok status, t)
      → IsIssued certificate s t status
  unfolding issue issue_from issue_authorized
  issue-IsIssued certificate s t status h =
      let ((spec, namespace), u₁, resolved, h₁) =
        first_step (resolve_issuer r certificate) (issue_from r certificate) h in
      let (auth_secret, u₂, authorized, h₂) =
        first_step
          (stepped (auth_secret_failure (auth_name spec namespace))
            (Cluster.get_secret (Reconciler.cluster r) (auth_name spec namespace)))
          (issue_authorized r certificate spec) h₁ in
      let ((password, generated), u₃, protected, h₃) =
        first_step (key_store_password r certificate)
          (issue_protected r certificate spec auth_secret.contents) h₂ in
      let (provisioner, provisioned, u₄, built, answered, h₄) =
        issue_protected_steps certificate t status spec auth_secret.contents password generated u₃
          h₃ in
      let (chain_pem, ca_pem, split, written, status_of) =
        store_provisioned_steps certificate t status password generated provisioned u₄ h₄ in
      record {
        spec = spec;
        namespace = namespace;
        auth_secret = auth_secret;
        password = password;
        generated = generated;
        provisioner = provisioner;
        provisioned = provisioned;
        chain_pem = chain_pem;
        ca_pem = ca_pem;
        resolved_state = u₁;
        authorized_state = u₂;
        protected_state = u₃;
        provisioned_state = u₄;
        resolved = resolved;
        authorized =
            stepped_eq_ok (auth_secret_failure (auth_name spec namespace))
              (Cluster.get_secret (Reconciler.cluster r) (auth_name spec namespace)) authorized;
        protected = protected;
        built = built;
        answered = answered;
        split = split;
        written =
            write_secret_steps certificate
              (material password generated provisioned (chain_pem, ca_pem)) u₄ t written;
        status_of = status_of;
      }
