-- ===== src/Reconciler/Issue/Credentials.antt =====
-- The namespace of the credentials that `issue` uses.
use kmp_issuer.Base.{◌≡◌, sym, ◌∙◌, ap, ◌⊎◌, inl, inr, Bool-cases, ok, err-ne-ok, ok-injective}
use kmp_issuer.Text.{Bytes, str_eq, str_eq_iff}
use kmp_issuer.Api.Issuers.{IssuerSpec, KmpIssuer}
use kmp_issuer.Api.Certificates.{KmpCertificate, KmpCertificateStatus}
use kmp_issuer.Cluster.Access.{NamespacedName, Cluster}
use kmp_issuer.Client.Call.{return}
use kmp_issuer.Client.Call.Runs.{run_eq_ok, map_err-eq-ok, result_of}
use kmp_issuer.Reconciler.{Reconciler}
use kmp_issuer.Reconciler.Password.{stepped}
use kmp_issuer.Reconciler.Issue.{
  kind_of, kind_issuer, kind_cluster_issuer, issuer_failure, cluster_issuer_failure,
  get_issuer_spec, get_cluster_issuer_spec, resolve_issuer, issue,
}
use kmp_issuer.Reconciler.Issue.Trace.{IsIssued, issue-IsIssued}

-- The API answers with the issuer that it is asked for.
abbrev pub AnswersByName : {S : Type 0} → Cluster S → Type 0
AnswersByName {S} c =
    (name : NamespacedName) (i : KmpIssuer) (s : S)
    → (Cluster.get_issuer c name s).0 ≡ ok i
    → i.namespace ≡ name.namespace

module _ {S : Type 0} (r : Reconciler S) where
  -- Where the credentials of a certificate are: in its own namespace, for an issuer of that
  -- namespace, or in the one of the cluster's resources, for an issuer of the cluster.
  abbrev pub IsHome : KmpCertificate → Bytes → Type 0
  IsHome certificate namespace =
      ((kind_of certificate ≡ kind_issuer) × (namespace ≡ certificate.namespace))
      ⊎ ((kind_of certificate ≡ kind_cluster_issuer)
          × (namespace ≡ Reconciler.cluster_resource_namespace r))

  get_issuer_spec-namespace :
      (name : NamespacedName) (s t : S) (spec : IssuerSpec) (namespace : Bytes)
      → AnswersByName (Reconciler.cluster r)
      → get_issuer_spec r name s ≡ (ok (spec, namespace), t)
      → namespace ≡ name.namespace
  unfolding get_issuer_spec
  get_issuer_spec-namespace name s t spec namespace by_name h =
      let (i, got, rest) =
        run_eq_ok (stepped (issuer_failure name) (Cluster.get_issuer (Reconciler.cluster r) name))
          (λ i. return (i.spec, i.namespace)) {s = s} h in
      ap (λ x. x.1) (sym (ok-injective (result_of rest)))
      ∙ by_name name i s (
          map_err-eq-ok (issuer_failure name) (Cluster.get_issuer (Reconciler.cluster r) name s).0
            got)

  get_cluster_issuer_spec-namespace :
      (name : Bytes) (s t : S) (spec : IssuerSpec) (namespace : Bytes)
      → get_cluster_issuer_spec r name s ≡ (ok (spec, namespace), t)
      → namespace ≡ Reconciler.cluster_resource_namespace r
  unfolding get_cluster_issuer_spec
  get_cluster_issuer_spec-namespace name s t spec namespace h =
      let (i, got, rest) =
        run_eq_ok
          (stepped (cluster_issuer_failure name)
            (Cluster.get_cluster_issuer (Reconciler.cluster r) name))
          (λ i. return (i.spec, Reconciler.cluster_resource_namespace r)) {s = s} h in
      ap (λ x. x.1) (sym (ok-injective (result_of rest)))

  resolve_issuer-IsHome :
      (certificate : KmpCertificate) (s t : S) (spec : IssuerSpec) (namespace : Bytes)
      → AnswersByName (Reconciler.cluster r)
      → resolve_issuer r certificate s ≡ (ok (spec, namespace), t)
      → IsHome certificate namespace
  unfolding resolve_issuer
  resolve_issuer-IsHome certificate s t spec namespace by_name h =
      elim (Bool-cases (str_eq (kind_of certificate) kind_issuer)) [
        | inl own ↦ inl (
          (str_eq_iff _ _).0 own,
          get_issuer_spec-namespace _ s t spec namespace by_name (rw (resolve_issuer, own) at h),
        )
        | inr other ↦ elim (Bool-cases (str_eq (kind_of certificate) kind_cluster_issuer)) [
          | inl wide ↦ inr (
            (str_eq_iff _ _).0 wide,
            get_cluster_issuer_spec-namespace _ s t spec namespace
                (rw (resolve_issuer, other, wide) at h),
          )
          | inr unknown ↦ absurd (err-ne-ok (result_of (rw (resolve_issuer, other, unknown) at h)))
        ]
      ]

  -- If `issue` returns no error, the credentials that it used stand in the namespace of the
  -- certificate, which names a KMPIssuer then, or in the cluster resource namespace, and then it
  -- names a KMPClusterIssuer; where the API answers with an issuer of the namespace that it is asked
  -- for.
  pub issue-IsHome :
      (certificate : KmpCertificate) (s t : S) (status : KmpCertificateStatus)
      → AnswersByName (Reconciler.cluster r)
      → issue r certificate s ≡ (ok status, t)
      → (i : IsIssued r certificate s t status) × IsHome certificate i.namespace
  issue-IsHome certificate s t status by_name h =
      let i = issue-IsIssued r certificate s t status h in
      (
        i,
        resolve_issuer-IsHome certificate s i.resolved_state i.spec i.namespace by_name i.resolved,
      )
