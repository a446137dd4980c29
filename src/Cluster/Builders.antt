-- ===== src/Cluster/Builders.antt =====
-- The interfaces between the controllers and the client of the server: `HealthChecker`, `Signer`
-- and their builders of internal/controllers/signer.go, `Provisioner` and `ProvisionerBuilder` of
-- internal/controllers/kmpcertificate_controller.go.
use kmp_issuer.Base.{Bool, Result, ℤ}
use kmp_issuer.Text.{Bytes}
use kmp_issuer.Errors.{GoError}
use kmp_issuer.Api.Issuers.{IssuerSpec}
use kmp_issuer.Cluster.Data.{SecretData}
use kmp_issuer.Client.Call.{Run}
use kmp_issuer.Provision.{ProvisionRequest}
use kmp_issuer.Provision.Flow.{ProvisionedCertificate}

-- `signer.CertificateDetails` of issuer-lib. The duration is in nanoseconds.
pub record CertificateDetails : Type 0 where
  pub csr : Bytes
  pub duration : ℤ
  pub is_ca : Bool

-- An interface of one method is that method.
abbrev pub HealthChecker : Type 0 → Type 0
HealthChecker S = Run S (Unit {0})

abbrev pub CertificateSigner : Type 0 → Type 0
CertificateSigner S = CertificateDetails → Run S Bytes

abbrev pub Provisioner : Type 0 → Type 0
Provisioner S = ProvisionRequest → Run S ProvisionedCertificate

-- The builders that the controllers are given.
pub record Builders (S : Type 0) : Type 0 where
  pub health_checker : IssuerSpec → SecretData → Result GoError (HealthChecker S)
  pub signer : IssuerSpec → SecretData → Result GoError (CertificateSigner S)
  pub provisioner : IssuerSpec → SecretData → Result GoError (Provisioner S)
