-- ===== src/Adapter/Laws.antt =====
-- What the adapter builds, and when it refuses to.
use kmp_issuer.Base.{
  ◌≡◌, refl, subst, ◌∙◌, sym, ap, inl, inr, true, Option, some, none, Result, ok, err, map_ok,
  err-ne-ok, ok-injective, err-injective, Result-cases, Bool-cases, is_nil, ℤ,
}
use kmp_issuer.Text.{Bytes, Unicode, trim_space}
use kmp_issuer.X509.{Platform}
use kmp_issuer.Errors.{GoError, is_permanent, is_invalid_config}
use kmp_issuer.Api.Issuers.{IssuerSpec, auth_secret_token_key}
use kmp_issuer.Cluster.Data.{SecretData, get_or_empty}
use kmp_issuer.Cluster.Builders.{Provisioner}
use kmp_issuer.PrivateKey.Pem.{KeyPlatform}
use kmp_issuer.Client.Call.{Server}
use kmp_issuer.Client.Config.{Net, new_client}
use kmp_issuer.Signer.Options.{new_signer, validate, invalid}
use kmp_issuer.Signer.Options.Laws.{validate-is_permanent}
use kmp_issuer.Signer.Fetch.{Clock}
use kmp_issuer.Adapter.{
  KmpSigner, client_config, signing_options, signer_with_token, signer_from_issuer, provision_key,
  provisioner_from_issuer,
}

map_ok-eq-ok :
    {E A B : Type 0} (f : A → B) (r : Result E A) {b : B}
    → map_ok f r ≡ ok b
    → (a : A) × (r ≡ ok a) × (f a ≡ b)
map_ok-eq-ok f (err e) h = absurd (err-ne-ok h)
map_ok-eq-ok f (ok a) h = (a, refl, ok-injective h)

-- A provisioner that is built is the one of a signer.
pub provisioner_from_issuer-eq-ok :
    (p : Platform) (q : KeyPlatform) (n : Net) (srv : Server) (k : Clock srv) (ceil_days : ℤ → ℤ)
    (spec : IssuerSpec) (secret_data : SecretData) (f : Provisioner (Server.State srv))
    → provisioner_from_issuer p q n srv k ceil_days spec secret_data ≡ ok f
    → (o : KmpSigner) × (signer_from_issuer (Platform.unicode p) n (some spec) secret_data ≡ ok o)
      × (provision_key p srv k ceil_days o q ≡ f)
unfolding provisioner_from_issuer
provisioner_from_issuer-eq-ok p q n srv k ceil_days spec secret_data f h = map_ok-eq-ok _ _ h

invalid-is_permanent :
    (text : Bytes) (e : GoError)
    → ◌≡◌ {A = Result GoError KmpSigner} (err (invalid text)) (err e)
    → is_permanent e ≡ true
unfolding is_permanent is_invalid_config
invalid-is_permanent text e h = subst (λ x. is_permanent x ≡ true) (err-injective h) refl

same_error : {a b : GoError} → ◌≡◌ {A = Result GoError KmpSigner} (err a) (err b) → a ≡ b
same_error h = err-injective h

signer_with_token-is_permanent :
    (u : Unicode) (n : Net) (spec : IssuerSpec) (secret_data : SecretData) (auth_token : Bytes)
    (e : GoError)
    → signer_with_token u n spec secret_data auth_token ≡ err e
    → is_permanent e ≡ true
unfolding signer_with_token new_signer
signer_with_token-is_permanent u n spec secret_data auth_token e h =
    elim (Result-cases (new_client u n (client_config spec secret_data auth_token))) [
      | inr (refused, failed) ↦ invalid-is_permanent _ e (rw (signer_with_token, failed) at h)
      | inl (client, built) ↦ elim (Result-cases (validate u (signing_options spec))) [
        | inr (refused, failed) ↦
            validate-is_permanent u (signing_options spec) e (
              failed ∙ ap err (same_error (rw (signer_with_token, built, new_signer, failed) at h)))
        | inl (_, complete) ↦
            absurd (err-ne-ok (sym (rw (signer_with_token, built, new_signer, complete) at h)))
      ]
    ]

-- Every error of `signerFromIssuerAndSecretData` is permanent: no spec, no token, a configuration
-- that `NewClient` refuses or signing options that `NewSigner` refuses.
pub signer_from_issuer-is_permanent :
    (u : Unicode) (n : Net) (spec : Option IssuerSpec) (secret_data : SecretData) (e : GoError)
    → signer_from_issuer u n spec secret_data ≡ err e
    → is_permanent e ≡ true
unfolding signer_from_issuer
signer_from_issuer-is_permanent u n none secret_data e h = invalid-is_permanent _ e h
signer_from_issuer-is_permanent u n (some spec) secret_data e h =
    elim (Bool-cases (is_nil (trim_space (get_or_empty auth_secret_token_key secret_data)))) [
      | inl empty ↦ invalid-is_permanent _ e (rw empty at h)
      | inr full ↦
          signer_with_token-is_permanent u n spec secret_data
            (trim_space (get_or_empty auth_secret_token_key secret_data)) e (rw full at h)
    ]
