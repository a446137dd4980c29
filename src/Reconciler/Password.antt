-- ===== src/Reconciler/Password.antt =====
-- internal/controllers/kmpcertificate_controller.go: `generatePassword` and `keyStorePassword`.
use kmp_issuer.Base.{
  Bool, true, false, [], ◌++◌, Option, none, some, Result, ok, err, map_err, if◌then◌else◌, is_nil,
}
use kmp_issuer.Text.{Bytes, codes, Unicode, trim_space}
use kmp_issuer.X509.{Platform}
use kmp_issuer.Errors.{GoError, plain, wrap}
use kmp_issuer.Api.Certificates.{KmpCertificate, SecretKeySelector}
use kmp_issuer.Cluster.Data.{get_or_empty}
use kmp_issuer.Cluster.Access.{NamespacedName, name_text, failure_text, Secret, Cluster, Library}
use kmp_issuer.Client.Call.{Run, ◌>>=◌, return, lift}
use kmp_issuer.Signer.Options.{invalid}
use kmp_issuer.Reconciler.{Reconciler}

-- A step of the controller, with the error that it returns for one of the step.
abbrev pub stepped : {E S A : Type 0} → (E → GoError) → (S → Result E A × S) → Run S A
stepped f m s = let (r, t) = m s in (map_err f r, t)

abbrev pub default_key_store_password_key : Bytes
default_key_store_password_key = codes "password"

abbrev pub password_key : SecretKeySelector → Bytes
password_key ref = if is_nil ref.key then default_key_store_password_key else ref.key

abbrev pub password_name : KmpCertificate → SecretKeySelector → NamespacedName
password_name certificate ref = record { namespace = certificate.namespace; name = ref.name }

abbrev pub empty_password : Unicode → Bytes → NamespacedName → GoError
empty_password u key name = invalid (
    codes ": key "
    ++ Unicode.quote u key
    ++ codes " of secret "
    ++ name_text name
    ++ codes " is empty")

module _ {S : Type 0} (r : Reconciler S) where
  unfoldable pub generate_password : Run S Bytes
  generate_password = do
    buf ←
        stepped (λ e. wrap (codes "generating a key store password: ") (plain e) [])
          (Cluster.random (Reconciler.cluster r))
    return (Library.base64_url (Reconciler.library r) buf)

  unfoldable pub supplied_password :
      KmpCertificate → SecretKeySelector → Secret → Result GoError Bytes
  supplied_password certificate ref secret =
      let password = trim_space (get_or_empty (password_key ref) secret.contents) in
      if is_nil password
      then err (
          empty_password (Platform.unicode (Reconciler.platform r)) (password_key ref)
            (password_name certificate ref))
      else ok password

  unfoldable pub read_password : KmpCertificate → SecretKeySelector → Run S Bytes
  read_password certificate ref = do
    secret ←
        stepped
          (λ e.
            wrap
              (codes "reading the key store password from secret "
                ++ name_text (password_name certificate ref)
                ++ codes ": ")
              (plain (failure_text e)) [])
          (Cluster.get_secret (Reconciler.cluster r) (password_name certificate ref))
    lift (supplied_password certificate ref secret)

  -- `keyStorePassword`: the password, and whether it was generated.
  unfoldable pub password_of : KmpCertificate → Option SecretKeySelector → Run S (Bytes × Bool)
  password_of certificate none = do password ← generate_password; return (password, true)
  password_of certificate (some ref) = do
    password ← read_password certificate ref
    return (password, false)

  abbrev pub key_store_password : KmpCertificate → Run S (Bytes × Bool)
  key_store_password certificate =
      password_of certificate certificate.spec.key_store_password_secret_ref
