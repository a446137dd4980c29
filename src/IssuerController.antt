-- ===== src/IssuerController.antt =====
-- internal/controllers/signer.go: `Check` and `Sign` of the issuers, which issuer-lib calls.
pub mod Laws
pub mod Misconfigured
use kmp_issuer.Base.{Bool, List, [], ◌++◌, Result, ok, err, map_err, if◌then◌else◌}
use kmp_issuer.Text.{Bytes, codes, Unicode}
use kmp_issuer.Errors.{GoError, plain, wrap, error_text, is_permanent}
use kmp_issuer.Api.Issuers.{IssuerSpec, KmpIssuer, KmpClusterIssuer}
use kmp_issuer.Cluster.Data.{SecretData}
use kmp_issuer.Cluster.Access.{NamespacedName, name_text, ApiFailure, failure_text, Secret, Cluster}
use kmp_issuer.Cluster.Builders.{CertificateDetails, Builders}

-- An error for issuer-lib: `signer.PermanentError`, `signer.IssuerError` of another, or an error of
-- neither type.
pub data SignError : Type 0 where
  failed permanent : GoError → SignError
  issuer_error : SignError → SignError

-- What issuer-lib passes: a resource of one of the two types, or another, by its text in `%t`.
pub data IssuerObject : Type 0 where
  issuer : KmpIssuer → IssuerObject
  cluster_issuer : KmpClusterIssuer → IssuerObject
  unexpected : Bytes → IssuerObject

-- A call of the controller: its result and the state that it leaves.
abbrev pub Attempt : Type 0 → Type 0 → Type 0
Attempt S A = S → Result SignError A × S

-- `if err != nil { return nil, err }` between two steps.
abbrev pub proceed : {S A B : Type 0} → Result SignError A → (A → Attempt S B) → Attempt S B
proceed (ok a) next t = next a t
proceed (err e) next t = (err e, t)

infixl 5 ◌>>=◌
abbrev pub ◌>>=◌ : {S A B : Type 0} → Attempt S A → (A → Attempt S B) → Attempt S B
◌>>=◌ m next s = let (r, t) = m s in proceed r next t

-- A step whose errors are given the form that the caller returns.
abbrev pub step : {E S A : Type 0} → (E → SignError) → (S → Result E A × S) → Attempt S A
step f m s = let (r, t) = m s in (map_err f r, t)

abbrev pub given : {S A : Type 0} → Result SignError A → Attempt S A
given r s = (r, s)

abbrev pub err_get_auth_secret : GoError
err_get_auth_secret = plain (codes "failed to get Secret containing Issuer credentials")

abbrev pub err_health_checker_builder : GoError
err_health_checker_builder = plain (codes "failed to build the healthchecker")

abbrev pub err_health_checker_check : GoError
err_health_checker_check = plain (codes "healthcheck failed")

abbrev pub err_signer_builder : GoError
err_signer_builder = plain (codes "failed to build the signer")

abbrev pub err_signer_sign : GoError
err_signer_sign = plain (codes "failed to sign")

-- `fmt.Errorf("%w, secret name: %s, reason: %v", errGetAuthSecret, name, err)`
unfoldable pub auth_secret_failure : NamespacedName → ApiFailure → GoError
auth_secret_failure name e =
    wrap [] err_get_auth_secret
      (codes ", secret name: " ++ name_text name ++ codes ", reason: " ++ failure_text e)

-- `fmt.Errorf("%w: %v", sentinel, err)`: of the second error only the text is kept.
unfoldable pub flattened : Unicode → GoError → GoError → GoError
flattened u sentinel e = wrap [] sentinel (codes ": " ++ error_text u e)

unfoldable pub permanent_if_unrecoverable : GoError → GoError → SignError
permanent_if_unrecoverable e cause = if is_permanent cause then permanent e else failed e

abbrev pub unexpected_issuer : Bytes → SignError
unexpected_issuer text = permanent (plain (codes "unexpected issuer type: " ++ text))

-- The spec of an issuer and the namespace of its credentials.
unfoldable pub get_issuer_details : Bytes → IssuerObject → Result SignError (IssuerSpec × Bytes)
get_issuer_details cluster_resource_namespace (issuer i) = ok (i.spec, i.namespace)
get_issuer_details cluster_resource_namespace (cluster_issuer i) =
    ok (i.spec, cluster_resource_namespace)
get_issuer_details cluster_resource_namespace (unexpected text) = err (unexpected_issuer text)

-- The name of the Secret of an issuer.
abbrev pub auth_name : IssuerSpec → Bytes → NamespacedName
auth_name spec namespace = record { namespace = namespace; name = spec.auth_secret_name }

module _ (u : Unicode) {S : Type 0} (c : Cluster S) (b : Builders S) where
  -- The error of a cause, under the sentinel of the step that it ends.
  abbrev pub classified : GoError → GoError → SignError
  classified sentinel e = permanent_if_unrecoverable (flattened u sentinel e) e

  -- `getSecretData` once the Secret is read.
  unfoldable pub checked_data : IssuerSpec → Secret → Attempt S SecretData
  checked_data spec secret = do
    checker ← given (
        map_err (classified err_health_checker_builder)
          (Builders.health_checker b spec secret.contents))
    _ ← step (classified err_health_checker_check) checker
    given (ok secret.contents)

  unfoldable pub get_secret_data : IssuerSpec → Bytes → Attempt S SecretData
  get_secret_data spec namespace = do
    secret ←
        step (λ e. failed (auth_secret_failure (auth_name spec namespace) e))
          (Cluster.get_secret c (auth_name spec namespace))
    checked_data spec secret

  module _ (cluster_resource_namespace : Bytes) where
    -- `Check`
    unfoldable pub check_issuer : IssuerObject → Attempt S (Unit {0})
    check_issuer object = do
      (spec, namespace) ← given (get_issuer_details cluster_resource_namespace object)
      _ ← get_secret_data spec namespace
      given (ok tt)

    -- `pki.ParseSingleCertificateChainPEM` is given, and what the request says of its details.
    module _ (split_chain : Bytes → Result Bytes (Bytes × Bytes))
        (details : Result SignError CertificateDetails) where
      unfoldable pub sign_checked : IssuerSpec → SecretData → Attempt S (Bytes × Bytes)
      sign_checked spec secret_data = do
        request ← given details
        signer ← given (
            map_err (λ e. issuer_error (failed (flattened u err_signer_builder e)))
              (Builders.signer b spec secret_data))
        signed ← step (classified err_signer_sign) (signer request)
        given (map_err (λ e. failed (plain e)) (split_chain signed))

      -- `Sign`
      unfoldable pub sign_request_of : IssuerObject → Attempt S (Bytes × Bytes)
      sign_request_of object = do
        (spec, namespace) ←
            given (map_err issuer_error (get_issuer_details cluster_resource_namespace object))
        secret_data ← step issuer_error (get_secret_data spec namespace)
        sign_checked spec secret_data
