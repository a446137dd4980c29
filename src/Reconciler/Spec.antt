-- ===== src/Reconciler/Spec.antt =====
-- internal/controllers/kmpcertificate_controller.go: `provisionRequest` and `matchesSpec`.
pub mod Matches
pub mod Provisioned
use kmp_issuer.Base.{
  Bool, not, ◌&&◌, List, [], ◌∷◌, ◌++◌, Option, none, some, if◌then◌else◌, is_nil, any, ℤ, pos,
}
use kmp_issuer.Text.{Bytes, codes, Unicode, equal_fold}
use kmp_issuer.X509.{Certificate, Platform, ip_equal}
use kmp_issuer.Verify.{contains_fold}
use kmp_issuer.Provision.{ProvisionRequest}
use kmp_issuer.Api.Certificates.{KmpCertificateSpec}

abbrev pub size_or_zero : Option ℤ → ℤ
size_or_zero none = pos 0
size_or_zero (some n) = n

unfoldable pub provision_request : KmpCertificateSpec → Bytes → ProvisionRequest
provision_request spec password = record {
  common_name = spec.common_name;
  alt_names = spec.dns_names ++ spec.ip_addresses;
  organization = spec.subject.organization;
  organizational_unit = spec.subject.organizational_unit;
  location = spec.subject.locality;
  state = spec.subject.province;
  country = spec.subject.country;
  key_algorithm = spec.private_key.algorithm;
  key_length = size_or_zero spec.private_key.size;
  signature_algorithm = spec.private_key.signature_algorithm;
  store_type = spec.private_key.store_type;
  validity_type = spec.validity_type;
  validity_days = spec.validity_days;
  password = password;
  export_file_type = [];
}

-- A loop that returns the first complaint, and what stands behind the loop.
unfoldable pub first_complaint : (Bytes → Bytes) → List Bytes → Bytes → Bytes
first_complaint complaint [] behind = behind
first_complaint complaint (x ∷ xs) behind =
    let later = first_complaint complaint xs behind in
    if is_nil (complaint x) then later else complaint x

-- A test that returns its complaint, or goes on.
abbrev pub or_else : Bytes → Bytes → Bytes
or_else complaint behind = if is_nil complaint then behind else complaint

module _ (p : Platform) where
  abbrev quoted : Bytes → Bytes
  quoted = Unicode.quote (Platform.unicode p)

  unfoldable pub common_name_complaint : Certificate → Bytes → Bytes
  common_name_complaint leaf wanted =
      if not (equal_fold (Platform.unicode p) leaf.subject.common_name wanted)
      then codes "the certificate is for "
        ++ quoted leaf.subject.common_name
        ++ codes ", not "
        ++ quoted wanted
      else []

  unfoldable pub dns_complaint : Certificate → Bytes → Bytes
  dns_complaint leaf name =
      if not (contains_fold (Platform.unicode p) leaf.dns_names name)
      then codes "the certificate does not cover DNS name " ++ quoted name
      else []

  unfoldable pub ip_complaint : Certificate → Bytes → Bytes
  ip_complaint leaf address = elim (Platform.parse_ip p address) [
    | none ↦ quoted address ++ codes " is not an IP address"
    | some ip ↦
        if not (any (λ issued. ip_equal issued ip) leaf.ip_addresses)
        then codes "the certificate does not cover IP address " ++ quoted address
        else []
  ]

  -- The tests of the organization and of the organizational unit.
  unfoldable pub subject_complaint : Bytes → List Bytes → Bytes → Bytes
  subject_complaint kind values want =
      if not (is_nil want) && not (contains_fold (Platform.unicode p) values want)
      then codes "the certificate is not for " ++ kind ++ quoted want
      else []

  -- `matchesSpec`: the first mismatch, or the empty text.
  unfoldable pub matches_spec : Certificate → KmpCertificateSpec → Bytes
  matches_spec leaf spec = or_else (common_name_complaint leaf spec.common_name) (
      first_complaint (dns_complaint leaf) spec.dns_names (
        first_complaint (ip_complaint leaf) spec.ip_addresses (
          or_else
            (subject_complaint (codes "organization ") leaf.subject.organization
              spec.subject.organization)
            (subject_complaint (codes "organizational unit ") leaf.subject.organizational_unit
              spec.subject.organizational_unit))))
