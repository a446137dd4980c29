-- ===== src/Reconciler/Issue/Laws.antt =====
-- What `writeSecret` leaves in the data of a Secret.
use kmp_issuer.Base.{◌≡◌, refl, ap, ◌∙◌, Bool, true, false, Option, some, if◌then◌else◌, is_nil}
use kmp_issuer.Text.{Bytes, str_eq}
use kmp_issuer.Api.Certificates.{key_store_password_secret_key}
use kmp_issuer.Cluster.Data.{SecretData, lookup_key, set_key, lookup_key-set_key}
use kmp_issuer.Reconciler.Need.{tls_cert_key, tls_private_key_key}
use kmp_issuer.Reconciler.Issue.{Material, filled_data, tls_ca_key}

-- A key of the data that is set where a test holds.
lookup_key-set_if :
    (test : Bool) (j k v : Bytes) (d : SecretData)
    → lookup_key j (if test then set_key k v d else d)
      ≡ (if test then (if str_eq j k then some v else lookup_key j d) else lookup_key j d)
lookup_key-set_if true j k v d = lookup_key-set_key j k v d
lookup_key-set_if false j k v d = refl

lookup_key-set_unless :
    (test : Bool) (j k v : Bytes) (d : SecretData)
    → lookup_key j (if test then d else set_key k v d)
      ≡ (if test then lookup_key j d else if str_eq j k then some v else lookup_key j d)
lookup_key-set_unless true j k v d = refl
lookup_key-set_unless false j k v d = lookup_key-set_key j k v d

-- What stands under a key that is, or is not, each of the four.
abbrev found : Material → Bool → Bool → Bool → Bool → Option Bytes → Option Bytes
found m is_password is_ca is_key is_cert old =
    let pair = if is_key then some m.key_pem else if is_cert then some m.chain_pem else old in
    let with_ca = if is_nil m.ca_pem then pair else if is_ca then some m.ca_pem else pair in
    if m.generated then (if is_password then some m.password else with_ca) else with_ca

lookup_key-found :
    (m : Material) (old : SecretData) (j : Bytes)
    → lookup_key j (filled_data m old)
      ≡ found m
          (str_eq j key_store_password_secret_key)
          (str_eq j tls_ca_key)
          (str_eq j tls_private_key_key)
          (str_eq j tls_cert_key)
          (lookup_key j old)
unfolding filled_data
lookup_key-found m old j =
    lookup_key-set_if m.generated j key_store_password_secret_key m.password _
    ∙ ap
        (λ x.
          if m.generated
          then (if str_eq j key_store_password_secret_key then some m.password else x)
          else x)
        (lookup_key-set_unless (is_nil m.ca_pem) j tls_ca_key m.ca_pem _
          ∙ ap
              (λ x. if is_nil m.ca_pem then x else if str_eq j tls_ca_key then some m.ca_pem else x)
              (lookup_key-set_key j tls_private_key_key m.key_pem
                  (set_key tls_cert_key m.chain_pem old)
                ∙ ap (λ x. if str_eq j tls_private_key_key then some m.key_pem else x)
                    (lookup_key-set_key j tls_cert_key m.chain_pem old)))

either_way : {A : Type 0} (b : Bool) (x : A) → (if b then x else x) ≡ x
either_way true x = refl
either_way false x = refl

-- The data that `writeSecret` leaves under each key: the key of Key Manager Plus, the chain, the CA
-- where the chain has one, the password where it was generated; everything else is as it was, a CA
-- and a password of earlier certificates included.
pub lookup_key-filled_data :
    (m : Material) (old : SecretData)
    → (lookup_key tls_cert_key (filled_data m old) ≡ some m.chain_pem)
      × (lookup_key tls_private_key_key (filled_data m old) ≡ some m.key_pem)
      × (lookup_key tls_ca_key (filled_data m old)
          ≡ (if is_nil m.ca_pem then lookup_key tls_ca_key old else some m.ca_pem))
      × (lookup_key key_store_password_secret_key (filled_data m old)
          ≡ (if m.generated then some m.password else lookup_key key_store_password_secret_key old))
      × ((key : Bytes)
          → str_eq key tls_cert_key ≡ false
          → str_eq key tls_private_key_key ≡ false
          → str_eq key tls_ca_key ≡ false
          → str_eq key key_store_password_secret_key ≡ false
          → lookup_key key (filled_data m old) ≡ lookup_key key old)
unfolding str_eq
lookup_key-filled_data m old = (
  lookup_key-found m old tls_cert_key ∙ either_way m.generated _ ∙ either_way (is_nil m.ca_pem) _,
  lookup_key-found m old tls_private_key_key
      ∙ either_way m.generated _
      ∙ either_way (is_nil m.ca_pem) _,
  lookup_key-found m old tls_ca_key ∙ either_way m.generated _,
  lookup_key-found m old key_store_password_secret_key
      ∙ ap (λ x. if m.generated then some m.password else x)
          (either_way (is_nil m.ca_pem) (lookup_key key_store_password_secret_key old)),
  λ key cert private ca password.
      lookup_key-found m old key
      ∙ rw (cert, private, ca, password)
          (either_way m.generated _ ∙ either_way (is_nil m.ca_pem) _),
)
