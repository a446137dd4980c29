-- ===== src/Reconciler/Process/Misconfigured.antt =====
-- An issuer whose configuration is invalid, with the builders of internal/signer/kmp.go.
use kmp_issuer.Base.{
  ◌≡◌, refl, ◌∙◌, ap, Bool, false, true, Option, some, Result, ok, err, map_err, ℤ,
}
use kmp_issuer.Text.{Bytes}
use kmp_issuer.X509.{Platform}
use kmp_issuer.Errors.{GoError, is_permanent, is_invalid_config, is_unusable_response, as_api}
use kmp_issuer.Api.Issuers.{IssuerSpec}
use kmp_issuer.Api.Certificates.{KmpCertificate}
use kmp_issuer.Cluster.Access.{Secret, Cluster}
use kmp_issuer.Cluster.Builders.{Builders}
use kmp_issuer.PrivateKey.Pem.{KeyPlatform}
use kmp_issuer.Client.Call.{Run, ◌>>=◌, continue, Server}
use kmp_issuer.Client.Config.{Net}
use kmp_issuer.Signer.Fetch.{Clock}
use kmp_issuer.Adapter.{signer_from_issuer, provisioner_from_issuer}
use kmp_issuer.Adapter.Laws.{signer_from_issuer-is_permanent}
use kmp_issuer.IssuerController.{auth_name, auth_secret_failure, flattened, err_signer_builder}
use kmp_issuer.Reconciler.{Reconciler}
use kmp_issuer.Reconciler.Renewal.{issuance_failure_requeue}
use kmp_issuer.Reconciler.Need.{needed, issuance_needed}
use kmp_issuer.Reconciler.Password.{stepped, key_store_password}
use kmp_issuer.Reconciler.Issue.{
  resolve_issuer, issue_protected, issue_authorized, issue_from, issue,
}
use kmp_issuer.Reconciler.Process.{outcome_of_failure, process_issued, process_need, process}

-- A step that succeeds goes on to the next.
step_onward :
    {S A B : Type 0} (m : Run S A) (f : A → Run S B) {s t : S} {a : A}
    → m s ≡ (ok a, t)
    → (m >>= f) s ≡ f a t
step_onward m f h = ap (λ (x, t). continue x f t) h

stepped_ok :
    {E S A : Type 0} (g : E → GoError) (m : S → Result E A × S) {s t : S} {a : A}
    → m s ≡ (ok a, t)
    → stepped g m s ≡ (ok a, t)
stepped_ok g m h = ap (λ (x, t). (map_err g x, t)) h

module _ {S : Type 0} (r : Reconciler S) (certificate : KmpCertificate) where
  -- The error of the builder, as `issue` returns it.
  abbrev builder_failure : GoError → GoError
  builder_failure cause =
      flattened (Platform.unicode (Reconciler.platform r)) err_signer_builder cause

  issue_unbuilt :
      (spec : IssuerSpec) (namespace : Bytes) (secret : Secret) (password : Bytes)
      (generated : Bool) (cause : GoError) (s t u v : S)
      → resolve_issuer r certificate s ≡ (ok (spec, namespace), t)
      → Cluster.get_secret (Reconciler.cluster r) (auth_name spec namespace) t ≡ (ok secret, u)
      → key_store_password r certificate u ≡ (ok (password, generated), v)
      → Builders.provisioner (Reconciler.builders r) spec secret.contents ≡ err cause
      → issue r certificate s ≡ (err (builder_failure cause), v)
  unfolding issue issue_from issue_authorized issue_protected
  issue_unbuilt spec namespace secret password generated cause s t u v resolved got protected
        refused =
      step_onward (resolve_issuer r certificate) (issue_from r certificate) resolved
      ∙ step_onward
          (stepped (auth_secret_failure (auth_name spec namespace))
            (Cluster.get_secret (Reconciler.cluster r) (auth_name spec namespace)))
          (issue_authorized r certificate spec)
          (stepped_ok (auth_secret_failure (auth_name spec namespace))
            (Cluster.get_secret (Reconciler.cluster r) (auth_name spec namespace)) got)
      ∙ step_onward (key_store_password r certificate)
          (issue_protected r certificate spec secret.contents) protected
      ∙ rw refused refl

  process_failed :
      (reason : Bytes) (at : Option ℤ) (e : GoError) (s t u : S)
      → issuance_needed r certificate s ≡ (needed reason at, t)
      → issue r certificate t ≡ (err e, u)
      → (process r certificate s).0.0 ≡ outcome_of_failure e
  unfolding process process_need process_issued
  process_failed reason at e s t u asked failed =
      ap (λ x. (process_need r certificate x).0.0) asked
      ∙ ap (λ x. (process_issued r certificate x).0.0) failed

provisioner-refused :
    (p : Platform) (q : KeyPlatform) (n : Net) (srv : Server) (k : Clock srv) (ceil_days : ℤ → ℤ)
    (spec : IssuerSpec) (secret : Secret) (cause : GoError)
    → signer_from_issuer (Platform.unicode p) n (some spec) secret.contents ≡ err cause
    → provisioner_from_issuer p q n srv k ceil_days spec secret.contents ≡ err cause
unfolding provisioner_from_issuer
provisioner-refused p q n srv k ceil_days spec secret cause h = rw h refl

module _ (p : Platform) (q : KeyPlatform) (n : Net) (srv : Server) (k : Clock srv)
    (ceil_days : ℤ → ℤ) (r : Reconciler (Server.State srv)) (certificate : KmpCertificate) where
  -- With the provisioners of internal/signer/kmp.go: if a certificate is needed, its issuer, the
  -- Secret of the issuer and the password are read, and the signer cannot be built from the spec and
  -- the Secret, then the cause is a permanent error, but the error that `Reconcile` comes to before
  -- it writes the status is not, and it is returned with a minute to wait.
  pub process-misconfigured :
      (spec : IssuerSpec) (namespace : Bytes) (secret : Secret) (reason password : Bytes)
      (at : Option ℤ) (generated : Bool) (cause : GoError) (s t u v w : Server.State srv)
      → Builders.provisioner (Reconciler.builders r) ≡ provisioner_from_issuer p q n srv k ceil_days
      → issuance_needed r certificate s ≡ (needed reason at, t)
      → resolve_issuer r certificate t ≡ (ok (spec, namespace), u)
      → Cluster.get_secret (Reconciler.cluster r) (auth_name spec namespace) u ≡ (ok secret, v)
      → key_store_password r certificate v ≡ (ok (password, generated), w)
      → signer_from_issuer (Platform.unicode p) n (some spec) secret.contents ≡ err cause
      → (is_permanent cause ≡ true)
        × ((e : GoError) × (issue r certificate t ≡ (err e, w))
            × (is_permanent e ≡ false)
            × ((process r certificate s).0.0
                ≡ record { requeue_after = issuance_failure_requeue; error = some e }))
  unfolding is_permanent is_invalid_config is_unusable_response as_api flattened outcome_of_failure
  process-misconfigured spec namespace secret reason password at generated cause s t u v w wired
        asked resolved got protected refused =
      let unbuilt =
        issue_unbuilt r certificate spec namespace secret password generated cause t u v w resolved
          got protected
          (ap (λ b. b spec secret.contents) wired
            ∙ provisioner-refused p q n srv k ceil_days spec secret cause refused) in
      (
        signer_from_issuer-is_permanent (Platform.unicode p) n (some spec) secret.contents cause
            refused,
        (
          builder_failure r certificate cause,
          unbuilt,
          refl,
          process_failed r certificate reason at (builder_failure r certificate cause) s t w asked
              unbuilt,
        ),
      )
