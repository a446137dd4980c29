-- ===== src/Reconciler/Spec/Provisioned.antt =====
-- The certificate that `Provision` accepts for a spec is one that `matchesSpec` accepts.
use kmp_issuer.Base.{
  ◌≡◌, sym, ◌∙◌, Bool, true, false, ◌&&◌, [], none, some, In, In-append_left, In-append_right,
  if◌then◌else◌, is_nil, ok, map,
}
use mathlib.Core.Bool.{false≢true}
use mathlib.Core.Option.{none-ne-some}
use kmp_issuer.Text.{Bytes, equal_fold, trim_space, Unicode, str_eq_comm, is_ascii, lower_byte}
use kmp_issuer.X509.{Certificate, Platform}
use kmp_issuer.Verify.Laws.{FoldIn}
use kmp_issuer.Provision.Names.{verify_provisioned_names}
use kmp_issuer.Provision.Covered.{
  HasAltName, blank, address, dns, CoversProvisioned, verify_provisioned_names_iff,
}
use kmp_issuer.Api.Certificates.{KmpCertificateSpec}
use kmp_issuer.Reconciler.Spec.{provision_request, matches_spec}
use kmp_issuer.Reconciler.Spec.Matches.{HasAddress, matches_spec_iff}

-- `strings.EqualFold` does not depend on the order of its arguments.
abbrev pub FoldsBothWays : Unicode → Type 0
FoldsBothWays u = (s t : Bytes) → Unicode.fold_eq u s t ≡ Unicode.fold_eq u t s

fold_comm :
    (a b c d e f : Bool) → c ≡ d → e ≡ f → (if a && b then c else e) ≡ (if b && a then d else f)
fold_comm true true c d e f h k = h
fold_comm true false c d e f h k = k
fold_comm false true c d e f h k = k
fold_comm false false c d e f h k = k

equal_fold_comm :
    (u : Unicode) → FoldsBothWays u → (s t : Bytes) → equal_fold u s t ≡ equal_fold u t s
unfolding equal_fold
equal_fold_comm u h s t =
    fold_comm (is_ascii s) (is_ascii t) _ _ _ _ (str_eq_comm (map lower_byte s) (map lower_byte t))
      (h s t)

module _ (p : Platform) where
  -- A spec of which `Provision` checks all that `matchesSpec` does: it names no organization and no
  -- organizational unit, its DNS names are not empty, have no space around them and are not IP
  -- addresses, and its IP addresses are IP addresses without space around them.
  pub record IsPlain (spec : KmpCertificateSpec) : Type 0 where
    pub organization : is_nil spec.subject.organization ≡ true
    pub organizational_unit : is_nil spec.subject.organizational_unit ≡ true
    pub dns_names :
        (name : Bytes)
        → In name spec.dns_names
        → (trim_space name ≡ name) × (is_nil name ≡ false) × (Platform.parse_ip p name ≡ none)
    pub ip_addresses :
        (text : Bytes)
        → In text spec.ip_addresses
        → (ip : Bytes) × (trim_space text ≡ text)
          × (is_nil text ≡ false)
          × (Platform.parse_ip p text ≡ some ip)

  HasAltName-FoldIn :
      (leaf : Certificate) (name : Bytes)
      → (trim_space name ≡ name) × (is_nil name ≡ false) × (Platform.parse_ip p name ≡ none)
      → HasAltName p leaf name
      → FoldIn (Platform.unicode p) leaf.dns_names name
  HasAltName-FoldIn leaf name (trimmed, full, text) (blank e) =
      absurd (false≢true (sym full ∙ (rw trimmed at e)))
  HasAltName-FoldIn leaf name (trimmed, full, text) (address ip issued f e i same) =
      absurd (none-ne-some _ (sym text ∙ (rw trimmed at e)))
  HasAltName-FoldIn leaf name (trimmed, full, text) (dns f e i) = rw trimmed at i

  HasAltName-HasAddress :
      (leaf : Certificate) (text ip : Bytes)
      → trim_space text ≡ text
      → is_nil text ≡ false
      → Platform.parse_ip p text ≡ some ip
      → HasAltName p leaf text
      → HasAddress p leaf text
  HasAltName-HasAddress leaf text ip trimmed full parsed (blank e) =
      absurd (false≢true (sym full ∙ (rw trimmed at e)))
  HasAltName-HasAddress leaf text ip trimmed full parsed (address other issued f e i same) =
      (other, issued, rw trimmed at e, i, same)
  HasAltName-HasAddress leaf text ip trimmed full parsed (dns f e i) =
      absurd (none-ne-some _ (sym (rw trimmed at e) ∙ parsed))

  -- A certificate that `verifyProvisionedNames` accepts for the request of a spec is one that
  -- `matchesSpec` accepts for the spec, so that it is not requested again, where the spec names no
  -- organization and no organizational unit, its DNS names are not empty, have no space around them
  -- and are not IP addresses, and its IP addresses are such, without space; and where
  -- `strings.EqualFold` does not depend on the order of its arguments.
  pub matches_spec-provision_request :
      (spec : KmpCertificateSpec) (password : Bytes) (leaf : Certificate)
      → FoldsBothWays (Platform.unicode p)
      → IsPlain spec
      → verify_provisioned_names p (provision_request spec password) leaf ≡ ok tt
      → matches_spec p leaf spec ≡ []
  unfolding provision_request
  matches_spec-provision_request spec password leaf both plain h =
      let c : CoversProvisioned p (provision_request spec password) leaf =
        (verify_provisioned_names_iff p (provision_request spec password) leaf).0 h in
      (matches_spec_iff p leaf spec).1 (record {
        common_name =
            equal_fold_comm (Platform.unicode p) both leaf.subject.common_name spec.common_name
            ∙ c.common_name;
        dns_names = λ name i.
            HasAltName-FoldIn leaf name (plain.dns_names name i)
              (c.alt_names name (In-append_left spec.ip_addresses i));
        ip_addresses = λ text i.
            let (ip, trimmed, full, parsed) = plain.ip_addresses text i in
            HasAltName-HasAddress leaf text ip trimmed full parsed
              (c.alt_names text (In-append_right spec.dns_names i));
        organization = λ named. absurd (false≢true (sym named ∙ plain.organization));
        organizational_unit = λ named. absurd (false≢true (sym named ∙ plain.organizational_unit));
      })
