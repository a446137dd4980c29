-- ===== src/Verify/Laws.antt =====
-- `verifyRequestedNames` decides whether a certificate covers a request.
use kmp_issuer.Base.{
  ◌≡◌, refl, ◌↔◌, inl, inr, true, false, not, ◌&&◌, List, [], ◌∷◌, In, In_subst, Bool-cases,
  if◌then◌else◌, is_nil, ok, err, err-injective, subst, sym, ◌∙◌,
}
use mathlib.Core.Bool.{false≢true}
use mathlib.Core.List.{cons-ne-nil}
use kmp_issuer.Text.{Bytes, Unicode, equal_fold, str_eq, str_eq_iff, str_eq_refl}
use kmp_issuer.X509.{Certificate, CertificateRequest, Platform, ip_equal}
use kmp_issuer.Errors.{GoError, is_permanent}
use kmp_issuer.Verify.{
  contains_fold, names_error, none_missing, describe_common_name, missing_common_name,
  missing_dns_names, missing_ip_addresses, missing_email_addresses, missing_uris, missing_requested,
  verify_requested_names,
}
use kmp_issuer.Verify.Missing.{any-In, In-any, append-eq-nil, any_iff, missing_from_iff}

-- A value of the list equals the wanted one, but for case.
abbrev pub FoldIn : Unicode → List Bytes → Bytes → Type 0
FoldIn u values want = (value : Bytes) × In value values × (equal_fold u value want ≡ true)

pub contains_fold_iff :
    (u : Unicode) (values : List Bytes) (want : Bytes)
    → (contains_fold u values want ≡ true) ↔ FoldIn u values want
unfolding contains_fold
contains_fold_iff u values want = (
  any-In (λ value. equal_fold u value want) values,
  λ (value, i, e). In-any (λ value. equal_fold u value want) values value i e,
)

-- An error says that names are missing exactly if the list of the missing is not empty.
pub none_missing_iff : (missing : List Bytes) → (none_missing missing ≡ ok tt) ↔ (missing ≡ [])
none_missing_iff [] = (λ _. refl, λ _. refl)
none_missing_iff (m ∷ missing) = (λ h. cc, λ h. cc)

pub none_missing-is_permanent :
    (missing : List Bytes) (e : GoError) → none_missing missing ≡ err e → is_permanent e ≡ true
unfolding is_permanent names_error
none_missing-is_permanent [] e h = cc
none_missing-is_permanent (m ∷ missing) e h =
    subst (λ f. is_permanent f ≡ true) (err-injective h) refl

module _ (p : Platform) where
  -- What a certificate has to carry for a request: its common name, if it has one, its DNS names
  -- and mail addresses but for case, its IP addresses and its URIs.
  pub record Covers (csr : CertificateRequest) (leaf : Certificate) : Type 0 where
    pub common_name :
        is_nil csr.subject.common_name ≡ false
        → equal_fold (Platform.unicode p) csr.subject.common_name leaf.subject.common_name ≡ true
    pub dns_names :
        (want : Bytes) → In want csr.dns_names → FoldIn (Platform.unicode p) leaf.dns_names want
    pub ip_addresses :
        (ip : Bytes)
        → In ip csr.ip_addresses
        → (issued : Bytes) × In issued leaf.ip_addresses × (ip_equal issued ip ≡ true)
    pub email_addresses :
        (want : Bytes)
        → In want csr.email_addresses
        → FoldIn (Platform.unicode p) leaf.email_addresses want
    pub uris : (uri : Bytes) → In uri csr.uris → In uri leaf.uris

  common_name_iff :
      (requested got : Bytes)
      → ((if not (is_nil requested) && not (equal_fold (Platform.unicode p) requested got)
            then describe_common_name p requested got
            else [])
          ≡ [])
        ↔ (is_nil requested ≡ false → equal_fold (Platform.unicode p) requested got ≡ true)
  common_name_iff requested got = elim (Bool-cases (is_nil requested)) [
    | inl empty ↦ (λ h k. absurd (false≢true (sym k ∙ empty)), λ f. rw empty)
    | inr full ↦ elim (Bool-cases (equal_fold (Platform.unicode p) requested got)) [
      | inl same ↦ (λ h k. same, λ f. rw (full, same))
      | inr differs ↦ (
        λ h k. absurd (cons-ne-nil _ _ (rw (full, differs) at h)),
        λ f. absurd (false≢true (sym differs ∙ f full)),
      )
    ]
  ]

  module _ (csr : CertificateRequest) (leaf : Certificate) where
    missing_dns_names_iff :
        (missing_dns_names p csr leaf ≡ [])
        ↔ ((want : Bytes) → In want csr.dns_names → FoldIn (Platform.unicode p) leaf.dns_names want)
    unfolding missing_dns_names
    missing_dns_names_iff =
        missing_from_iff (contains_fold_iff (Platform.unicode p) leaf.dns_names) _ csr.dns_names

    missing_ip_addresses_iff : (missing_ip_addresses p csr leaf ≡ []) ↔ (
        (ip : Bytes)
        → In ip csr.ip_addresses
        → (issued : Bytes) × In issued leaf.ip_addresses × (ip_equal issued ip ≡ true))
    unfolding missing_ip_addresses
    missing_ip_addresses_iff =
        missing_from_iff (λ ip. any_iff (λ issued. ip_equal issued ip) leaf.ip_addresses) _
          csr.ip_addresses

    missing_email_addresses_iff : (missing_email_addresses p csr leaf ≡ []) ↔ (
        (want : Bytes)
        → In want csr.email_addresses
        → FoldIn (Platform.unicode p) leaf.email_addresses want)
    unfolding missing_email_addresses
    missing_email_addresses_iff =
        missing_from_iff (contains_fold_iff (Platform.unicode p) leaf.email_addresses) _
          csr.email_addresses

    missing_uris_iff :
        (missing_uris p csr leaf ≡ []) ↔ ((uri : Bytes) → In uri csr.uris → In uri leaf.uris)
    unfolding missing_uris
    missing_uris_iff =
        missing_from_iff
          (λ uri. (
            λ h.
                let (issued, j, e) = any-In (λ issued. str_eq issued uri) leaf.uris h in
                In_subst ((str_eq_iff issued uri).0 e) j,
            λ i. In-any (λ issued. str_eq issued uri) leaf.uris uri i (str_eq_refl uri),
          ))
          _ csr.uris

    missing_requested-Covers : missing_requested p csr leaf ≡ [] → Covers csr leaf
    unfolding missing_requested missing_common_name
    missing_requested-Covers h =
        let (names, h₁) = append-eq-nil (missing_common_name p csr leaf) _ h in
        let (dns, h₂) = append-eq-nil (missing_dns_names p csr leaf) _ h₁ in
        let (ips, h₃) = append-eq-nil (missing_ip_addresses p csr leaf) _ h₂ in
        let (emails, uris) = append-eq-nil (missing_email_addresses p csr leaf) _ h₃ in
        record {
          common_name = (common_name_iff csr.subject.common_name leaf.subject.common_name).0 names;
          dns_names = missing_dns_names_iff.0 dns;
          ip_addresses = missing_ip_addresses_iff.0 ips;
          email_addresses = missing_email_addresses_iff.0 emails;
          uris = missing_uris_iff.0 uris;
        }

    Covers-missing_requested : Covers csr leaf → missing_requested p csr leaf ≡ []
    unfolding missing_requested missing_common_name
    Covers-missing_requested c = rw (
      (common_name_iff csr.subject.common_name leaf.subject.common_name).1 c.common_name,
      missing_dns_names_iff.1 c.dns_names,
      missing_ip_addresses_iff.1 c.ip_addresses,
      missing_email_addresses_iff.1 c.email_addresses,
      missing_uris_iff.1 c.uris,
    )

  -- `verifyRequestedNames` accepts a certificate exactly if it covers the request: it has the common
  -- name, if the request has one, the DNS names and the mail addresses, all but for case, the IP
  -- addresses and the URIs.
  pub verify_requested_names_iff :
      (csr : CertificateRequest) (leaf : Certificate)
      → (verify_requested_names p csr leaf ≡ ok tt) ↔ Covers csr leaf
  unfolding verify_requested_names
  verify_requested_names_iff csr leaf =
      let (to, from) = none_missing_iff (missing_requested p csr leaf) in
      (
        λ h. missing_requested-Covers csr leaf (to h),
        λ c. from (Covers-missing_requested csr leaf c),
      )
