-- ===== src/Verify.antt =====
-- internal/kmp/verify.go: the identities that were asked for and are missing from a certificate.
pub mod Missing
pub mod Laws
use kmp_issuer.Base.{
  Bool, true, not, ◌&&◌, List, [], ◌∷◌, ◌++◌, Result, ok, err, if◌then◌else◌, is_nil, any,
}
use kmp_issuer.Text.{Bytes, codes, Unicode, equal_fold, str_eq, join}
use kmp_issuer.X509.{Certificate, CertificateRequest, Platform, Subject, ip_equal}
use kmp_issuer.Errors.{GoError, unusable_response, wrap}

-- `containsFold`, which internal/controllers/kmpcertificate_controller.go has a copy of.
unfoldable pub contains_fold : Unicode → List Bytes → Bytes → Bool
contains_fold u values want = any (λ value. equal_fold u value want) values

-- A loop that describes the wanted values that are not present.
unfoldable pub missing_from : (Bytes → Bool) → (Bytes → Bytes) → List Bytes → List Bytes
missing_from present describe [] = []
missing_from present describe (want ∷ wants) =
    let rest = missing_from present describe wants in
    if present want then rest else describe want ∷ rest

-- The error of `verifyRequestedNames` and of `verifyProvisionedNames`.
unfoldable pub names_error : List Bytes → GoError
names_error missing = wrap [] unusable_response (
    codes ": key manager plus returned a certificate that is missing "
    ++ join missing (codes ", ")
    ++ codes
        ". A Microsoft CA template only keeps the subject and the subject alternative names of a request "
    ++ codes "when it is configured to supply them from the request")

abbrev pub none_missing : List Bytes → Result GoError (Unit {0})
none_missing missing = if is_nil missing then ok tt else err (names_error missing)

module _ (p : Platform) where
  abbrev pub describe : Bytes → Bytes → Bytes
  describe kind name = kind ++ Unicode.quote (Platform.unicode p) name

  -- The text for a common name, and the name that the certificate has in its place.
  abbrev pub describe_common_name : Bytes → Bytes → List Bytes
  describe_common_name requested got =
      (describe (codes "common name ") requested
        ++ codes " (the certificate has "
        ++ Unicode.quote (Platform.unicode p) got
        ++ codes ")")
      ∷ []

  -- What is missing, by the kinds of names, in the order of the source.
  unfoldable pub missing_common_name : CertificateRequest → Certificate → List Bytes
  missing_common_name csr leaf =
      if not (is_nil csr.subject.common_name)
        && not (equal_fold (Platform.unicode p) csr.subject.common_name leaf.subject.common_name)
      then describe_common_name csr.subject.common_name leaf.subject.common_name
      else []

  unfoldable pub missing_dns_names : CertificateRequest → Certificate → List Bytes
  missing_dns_names csr leaf =
      missing_from (contains_fold (Platform.unicode p) leaf.dns_names)
        (describe (codes "DNS name ")) csr.dns_names

  unfoldable pub missing_ip_addresses : CertificateRequest → Certificate → List Bytes
  missing_ip_addresses csr leaf =
      missing_from (λ ip. any (λ issued. ip_equal issued ip) leaf.ip_addresses)
        (λ ip. describe (codes "IP address ") (Platform.ip_string p ip)) csr.ip_addresses

  unfoldable pub missing_email_addresses : CertificateRequest → Certificate → List Bytes
  missing_email_addresses csr leaf =
      missing_from (contains_fold (Platform.unicode p) leaf.email_addresses)
        (describe (codes "email address ")) csr.email_addresses

  unfoldable pub missing_uris : CertificateRequest → Certificate → List Bytes
  missing_uris csr leaf =
      missing_from (λ uri. any (λ issued. str_eq issued uri) leaf.uris) (describe (codes "URI "))
        csr.uris

  unfoldable pub missing_requested : CertificateRequest → Certificate → List Bytes
  missing_requested csr leaf =
      missing_common_name csr leaf
      ++ (missing_dns_names csr leaf
          ++ (missing_ip_addresses csr leaf
              ++ (missing_email_addresses csr leaf ++ missing_uris csr leaf)))

  unfoldable pub verify_requested_names :
      CertificateRequest → Certificate → Result GoError (Unit {0})
  verify_requested_names csr leaf = none_missing (missing_requested csr leaf)
