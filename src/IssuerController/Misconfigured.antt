-- ===== src/IssuerController/Misconfigured.antt =====
-- An issuer whose configuration is invalid, with the builders of internal/signer/kmp.go.
use kmp_issuer.Base.{◌≡◌, refl, Bool, true, false, some, ok, err, ℤ}
use kmp_issuer.Text.{Bytes}
use kmp_issuer.X509.{Platform}
use kmp_issuer.Errors.{GoError, is_permanent}
use kmp_issuer.Api.Issuers.{IssuerSpec}
use kmp_issuer.Cluster.Access.{Secret, Cluster}
use kmp_issuer.PrivateKey.Pem.{KeyPlatform}
use kmp_issuer.Client.Call.{Server}
use kmp_issuer.Client.Config.{Net}
use kmp_issuer.Signer.Fetch.{Clock}
use kmp_issuer.Adapter.{signer_from_issuer, health_checker_from_issuer, builders}
use kmp_issuer.Adapter.Laws.{signer_from_issuer-is_permanent}
use kmp_issuer.IssuerController.{
  SignError, failed, permanent, issuer_error, IssuerObject, auth_name, permanent_if_unrecoverable,
  classified, get_issuer_details, checked_data, get_secret_data, check_issuer,
  err_health_checker_builder,
}

-- Whether issuer-lib finds a `PermanentError` in an error, so that it does not try again.
unfoldable pub stops : SignError → Bool
stops (failed e) = false
stops (permanent e) = true
stops (issuer_error e) = stops e

stops_of_permanent :
    (flat cause : GoError)
    → is_permanent cause ≡ true
    → stops (permanent_if_unrecoverable flat cause) ≡ true
unfolding stops permanent_if_unrecoverable
stops_of_permanent flat cause h = rw h refl

module _ (p : Platform) (q : KeyPlatform) (n : Net) (srv : Server) (k : Clock srv)
    (ceil_days : ℤ → ℤ) (c : Cluster (Server.State srv)) where
  -- The error of `Check` for an issuer from whose Secret no signer is built is permanent, so that
  -- issuer-lib waits for a change of the issuer; no request goes to the server: the state is the one
  -- that the read of the Secret left.
  pub check_issuer-misconfigured :
      (home : Bytes) (object : IssuerObject) (spec : IssuerSpec) (namespace : Bytes)
      (secret : Secret) (e : GoError) (s : Server.State srv)
      → get_issuer_details home object ≡ ok (spec, namespace)
      → (Cluster.get_secret c (auth_name spec namespace) s).0 ≡ ok secret
      → signer_from_issuer (Platform.unicode p) n (some spec) secret.contents ≡ err e
      → (refusal : SignError) × (check_issuer
            (Platform.unicode p)
            c
            (builders p q n srv k ceil_days)
            home
            object
            s
          ≡ (err refusal, (Cluster.get_secret c (auth_name spec namespace) s).1))
        × (stops refusal ≡ true)
  unfolding check_issuer get_secret_data checked_data builders health_checker_from_issuer
  check_issuer-misconfigured home object spec namespace secret e s known got refused = (
    classified (Platform.unicode p) c (builders p q n srv k ceil_days) err_health_checker_builder e,
    rw (known, got, refused) refl,
    stops_of_permanent _ e (
        signer_from_issuer-is_permanent (Platform.unicode p) n (some spec) secret.contents e
          refused),
  )
