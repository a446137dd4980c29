-- ===== src/Reconciler/Issue/Keys.antt =====
-- The key that `issue` writes, with the builders of internal/signer/kmp.go.
use kmp_issuer.Base.{◌≡◌, sym, ◌∙◌, ap, false, List, ok, some, is_nil, ℤ}
use kmp_issuer.Text.{Bytes}
use kmp_issuer.X509.{Certificate, Platform}
use kmp_issuer.Api.Issuers.{IssuerSpec}
use kmp_issuer.Api.Certificates.{KmpCertificate, KmpCertificateStatus}
use kmp_issuer.Cluster.Data.{SecretData}
use kmp_issuer.Cluster.Builders.{Provisioner, Builders}
use kmp_issuer.PrivateKey.Pem.{KeyPlatform}
use kmp_issuer.Client.Call.{Server}
use kmp_issuer.Client.Config.{Net}
use kmp_issuer.Client.Csr.{export_csr}
use kmp_issuer.Signer.Options.{Signer}
use kmp_issuer.Signer.Fetch.{Clock, fetch_certificate}
use kmp_issuer.Provision.{ProvisionRequest}
use kmp_issuer.Provision.Flow.{ProvisionedCertificate, provision}
use kmp_issuer.Provision.Flow.Laws.{IsProvisioned, provision-IsProvisioned}
use kmp_issuer.Adapter.{KmpSigner, signer_from_issuer, provision_key, provisioner_from_issuer}
use kmp_issuer.Adapter.Laws.{provisioner_from_issuer-eq-ok}
use kmp_issuer.Reconciler.{Reconciler}
use kmp_issuer.Reconciler.Spec.{provision_request}
use kmp_issuer.Reconciler.Issue.{issue}
use kmp_issuer.Reconciler.Issue.Trace.{IsIssued, issue-IsIssued}

module _ (p : Platform) (q : KeyPlatform) (n : Net) (srv : Server) (k : Clock srv)
    (ceil_days : ℤ → ℤ) where
  -- What was obtained from Key Manager Plus with the signer of an issuer and of its credentials: the
  -- certificates that were fetched by the serial number of the answer, and the key that was exported
  -- by its identifier, from which the answer was made.
  pub record IsObtained (spec : IssuerSpec) (secret_data : SecretData) (req : ProvisionRequest)
      (result : ProvisionedCertificate) : Type 0 where
    pub signer : KmpSigner
    pub built : signer_from_issuer (Platform.unicode p) n (some spec) secret_data ≡ ok signer
    pub name : Bytes
    pub certs : List Certificate
    pub asked : Server.State srv
    pub fetched :
        (fetch_certificate p srv k signer.signer name result.serial_number asked).0 ≡ ok certs
    pub exported : Bytes
    pub told : Server.State srv
    pub sent :
        (export_csr p srv (Signer.client signer.signer) result.csr_id req.export_file_type told).0
        ≡ ok exported
    pub provisioned : IsProvisioned p q req certs exported result

  -- What a provisioner of the adapter answers with: a key that belongs to the certificate.
  provisioner-IsObtained :
      (spec : IssuerSpec) (secret_data : SecretData) (f : Provisioner (Server.State srv))
      (req : ProvisionRequest) (result : ProvisionedCertificate) (before after : Server.State srv)
      → provisioner_from_issuer p q n srv k ceil_days spec secret_data ≡ ok f
      → f req before ≡ (ok result, after)
      → (is_nil req.password ≡ false) × IsObtained spec secret_data req result
  unfolding provision_key
  provisioner-IsObtained spec secret_data f req result before after built answered =
      let (o, signer, same) =
        provisioner_from_issuer-eq-ok p q n srv k ceil_days spec secret_data f built in
      let run : provision p q srv k ceil_days o.signer req before ≡ (ok result, after) =
        ap (λ g. g req before) same ∙ answered in
      let (full, (certs, exported, name, asked, told, fetched, sent, provisioned)) =
        provision-IsProvisioned p q srv k ceil_days o.signer req result before after run in
      (
        full,
        record {
          signer = o;
          built = signer;
          name = name;
          certs = certs;
          asked = asked;
          fetched = fetched;
          exported = exported;
          told = told;
          sent = sent;
          provisioned = provisioned;
        },
      )

  -- With the provisioners of internal/signer/kmp.go: if `issue` returns no error, the password that
  -- it used is not empty, and with the signer of the issuer and the credentials that it read,
  -- certificates were fetched from the server by the serial number of the answer and a key was
  -- exported by its identifier; the key that it wrote was read
  -- from that export with that password and belongs to the leaf of a bundle, a chain of signatures
  -- over the fetched certificates whose leaf has the names of the request. The Secret was written
  -- with that key and with the split of that bundle's chain.
  pub issue-IsProvisioned :
      (r : Reconciler (Server.State srv)) (certificate : KmpCertificate) (s t : Server.State srv)
      (status : KmpCertificateStatus)
      → Builders.provisioner (Reconciler.builders r) ≡ provisioner_from_issuer p q n srv k ceil_days
      → issue r certificate s ≡ (ok status, t)
      → (i : IsIssued r certificate s t status) × (is_nil i.password ≡ false)
        × IsObtained i.spec i.auth_secret.contents
            (provision_request certificate.spec i.password)
            i.provisioned
  unfolding provision_request
  issue-IsProvisioned r certificate s t status wired h =
      let i = issue-IsIssued r certificate s t status h in
      let (full, obtained) =
        provisioner-IsObtained i.spec i.auth_secret.contents i.provisioner
          (provision_request certificate.spec i.password) i.provisioned i.protected_state
          i.provisioned_state (ap (λ b. b i.spec i.auth_secret.contents) (sym wired) ∙ i.built)
          i.answered in
      (i, full, obtained)
