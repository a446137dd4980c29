-- ===== src/Provision/Covered.antt =====
-- `verifyProvisionedNames` decides whether a certificate covers a request for a key.
use kmp_issuer.Base.{
  ◌≡◌, refl, sym, ◌∙◌, ◌↔◌, inl, inr, true, false, not, [], Bool-cases, none, some, Option-cases,
  ok, In, if◌then◌else◌, is_nil,
}
use mathlib.Core.Bool.{false≢true}
use mathlib.Core.List.{cons-ne-nil}
use kmp_issuer.Text.{Bytes, equal_fold, trim_space}
use kmp_issuer.X509.{Certificate, Platform, ip_equal}
use kmp_issuer.Verify.{describe_common_name, missing_from}
use kmp_issuer.Verify.Missing.{append-eq-nil, any_iff, missing_from_iff}
use kmp_issuer.Verify.Laws.{FoldIn, contains_fold_iff, none_missing_iff}
use kmp_issuer.Provision.{ProvisionRequest}
use kmp_issuer.Provision.Names.{
  alt_name_present, describe_alt_name, missing_provisioned, verify_provisioned_names,
}

module _ (p : Platform) where
  -- A certificate has an alternative name: a name of white space alone, or an address that is one
  -- of its IP addresses, or a name that is one of its DNS names but for case.
  pub data HasAltName (leaf : Certificate) (alt_name : Bytes) : Type 0 where
    blank : is_nil (trim_space alt_name) ≡ true → HasAltName leaf alt_name
    address :
        (ip issued : Bytes)
        → is_nil (trim_space alt_name) ≡ false
        → Platform.parse_ip p (trim_space alt_name) ≡ some ip
        → In issued leaf.ip_addresses
        → ip_equal issued ip ≡ true
        → HasAltName leaf alt_name
    dns :
        is_nil (trim_space alt_name) ≡ false
        → Platform.parse_ip p (trim_space alt_name) ≡ none
        → FoldIn (Platform.unicode p) leaf.dns_names (trim_space alt_name)
        → HasAltName leaf alt_name

  alt_name_present-HasAltName :
      (leaf : Certificate) (alt_name : Bytes)
      → alt_name_present p leaf alt_name ≡ true
      → HasAltName leaf alt_name
  unfolding alt_name_present
  alt_name_present-HasAltName leaf alt_name h =
      let name = trim_space alt_name in
      elim (Bool-cases (is_nil name)) [
        | inl empty ↦ blank empty
        | inr full ↦ elim (Option-cases (Platform.parse_ip p name)) [
          | inr (ip, e) ↦
              let (issued, i, same) =
                (any_iff (λ issued. ip_equal issued ip) leaf.ip_addresses).0
                  (rw (alt_name_present, full, e) at h) in
              address ip issued full e i same
          | inl e ↦ dns full e (
              (contains_fold_iff (Platform.unicode p) leaf.dns_names name).0
                (rw (alt_name_present, full, e) at h))
        ]
      ]

  HasAltName-alt_name_present :
      (leaf : Certificate) (alt_name : Bytes)
      → HasAltName leaf alt_name
      → alt_name_present p leaf alt_name ≡ true
  unfolding alt_name_present
  HasAltName-alt_name_present leaf alt_name (blank e) = rw e refl
  HasAltName-alt_name_present leaf alt_name (address ip issued full e i same) =
      rw (full, e) ((any_iff (λ j. ip_equal j ip) leaf.ip_addresses).1 (issued, i, same))
  HasAltName-alt_name_present leaf alt_name (dns full e i) =
      rw (full, e) ((contains_fold_iff (Platform.unicode p) leaf.dns_names _).1 i)

  -- What a certificate has to carry for a provisioned key: the common name, but for case, and each
  -- alternative name.
  pub record CoversProvisioned (req : ProvisionRequest) (leaf : Certificate) : Type 0 where
    pub common_name :
        equal_fold (Platform.unicode p) req.common_name leaf.subject.common_name ≡ true
    pub alt_names : (want : Bytes) → In want req.alt_names → HasAltName leaf want

  common_name_iff :
      (requested got : Bytes)
      → ((if not (equal_fold (Platform.unicode p) requested got)
            then describe_common_name p requested got
            else [])
          ≡ [])
        ↔ (equal_fold (Platform.unicode p) requested got ≡ true)
  common_name_iff requested got =
      elim (Bool-cases (equal_fold (Platform.unicode p) requested got)) [
        | inl same ↦ (λ _. same, λ _. rw same)
        | inr differs ↦ (
          λ h. absurd (cons-ne-nil _ _ (rw differs at h)),
          λ f. absurd (false≢true (sym differs ∙ f)),
        )
      ]

  alt_names_iff :
      (req : ProvisionRequest) (leaf : Certificate)
      → (missing_from (alt_name_present p leaf) (describe_alt_name p) req.alt_names ≡ [])
        ↔ ((want : Bytes) → In want req.alt_names → HasAltName leaf want)
  alt_names_iff req leaf =
      missing_from_iff
        (λ want. (alt_name_present-HasAltName leaf want, HasAltName-alt_name_present leaf want))
        (describe_alt_name p) req.alt_names

  -- `verifyProvisionedNames` accepts a certificate exactly if it has the common name, but for case,
  -- and every alternative name of the request: an IP address among its addresses, another name
  -- among its DNS names but for case; blank names are passed over.
  pub verify_provisioned_names_iff :
      (req : ProvisionRequest) (leaf : Certificate)
      → (verify_provisioned_names p req leaf ≡ ok tt) ↔ CoversProvisioned req leaf
  unfolding verify_provisioned_names missing_provisioned
  verify_provisioned_names_iff req leaf =
      let (to, from) = none_missing_iff (missing_provisioned p req leaf) in
      (
        λ h.
            let (name, alts) = append-eq-nil _ _ (to h) in
            record {
              common_name = (common_name_iff req.common_name leaf.subject.common_name).0 name;
              alt_names = (alt_names_iff req leaf).0 alts;
            },
        λ c. from (
            rw
              (
                (common_name_iff req.common_name leaf.subject.common_name).1 c.common_name,
                (alt_names_iff req leaf).1 c.alt_names,
              )
              refl),
      )
