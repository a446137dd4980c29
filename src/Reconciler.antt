-- ===== src/Reconciler.antt =====
-- internal/controllers/kmpcertificate_controller.go: the fields of `KMPCertificateReconciler`, with
-- the libraries that its methods call. SetupWithManager only registers the reconciler.
pub mod Conditions
pub mod Renewal
pub mod Spec
pub mod Need
pub mod Password
pub mod Issue
pub mod Process
use kmp_issuer.Base.{ℕ, Option}
use kmp_issuer.Text.{Bytes}
use kmp_issuer.X509.{Platform}
use kmp_issuer.Cluster.Access.{Cluster, Library}
use kmp_issuer.Cluster.Builders.{Builders}

-- The reconciler over a world of states `S`. The clock of tests may be nil, `time_now` is `time.Now`
-- and `metav1.Now`. Times are nanoseconds.
pub record Reconciler (S : Type 0) : Type 0 where
  pub platform : Platform
  pub cluster : Cluster S
  pub library : Library
  pub builders : Builders S
  pub cluster_resource_namespace : Bytes
  pub clock : Option (S → ℕ)
  pub time_now : S → ℕ
