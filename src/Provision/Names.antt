-- ===== src/Provision/Names.antt =====
-- internal/kmp/provision.go: `verifyProvisionedNames`.
use kmp_issuer.Base.{
  Bool, true, not, List, [], ◌++◌, none, some, Result, if◌then◌else◌, is_nil, any,
}
use kmp_issuer.Text.{Bytes, codes, equal_fold, trim_space}
use kmp_issuer.X509.{Certificate, Platform, ip_equal}
use kmp_issuer.Errors.{GoError}
use kmp_issuer.Verify.{contains_fold, missing_from, none_missing, describe, describe_common_name}
use kmp_issuer.Provision.{ProvisionRequest}

module _ (p : Platform) where
  -- Whether the loop over the alternative names passes over a name.
  unfoldable pub alt_name_present : Certificate → Bytes → Bool
  alt_name_present leaf alt_name =
      let name = trim_space alt_name in
      if is_nil name then true else elim (Platform.parse_ip p name) [
        | some ip ↦ any (λ issued. ip_equal issued ip) leaf.ip_addresses
        | none ↦ contains_fold (Platform.unicode p) leaf.dns_names name
      ]

  unfoldable pub describe_alt_name : Bytes → Bytes
  describe_alt_name alt_name =
      let name = trim_space alt_name in
      elim (Platform.parse_ip p name) [
        | some ip ↦ describe p (codes "IP address ") name
        | none ↦ describe p (codes "DNS name ") name
      ]

  unfoldable pub missing_provisioned : ProvisionRequest → Certificate → List Bytes
  missing_provisioned req leaf =
      (if not (equal_fold (Platform.unicode p) req.common_name leaf.subject.common_name)
        then describe_common_name p req.common_name leaf.subject.common_name
        else [])
      ++ missing_from (alt_name_present leaf) describe_alt_name req.alt_names

  unfoldable pub verify_provisioned_names :
      ProvisionRequest → Certificate → Result GoError (Unit {0})
  verify_provisioned_names req leaf = none_missing (missing_provisioned req leaf)
