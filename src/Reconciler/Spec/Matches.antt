-- ===== src/Reconciler/Spec/Matches.antt =====
-- `matchesSpec` decides whether a certificate has what a spec asks for.
use kmp_issuer.Base.{
  ℕ, ◌≡◌, refl, sym, ◌↔◌, inl, inr, Bool, true, false, not, ◌&&◌, List, [], ◌∷◌, some, Option-cases,
  In, here, there, In-cons_cases, subst, if◌then◌else◌, is_nil, any,
}
use mathlib.Core.Bool.{false≢true}
use mathlib.Core.List.{cons-ne-nil}
use kmp_issuer.Text.{Bytes, codes, equal_fold, Unicode}
use kmp_issuer.X509.{Certificate, Platform, ip_equal}
use kmp_issuer.Verify.{contains_fold}
use kmp_issuer.Verify.Missing.{any_iff, append-eq-nil}
use kmp_issuer.Verify.Laws.{FoldIn, contains_fold_iff}
use kmp_issuer.Api.Certificates.{KmpCertificateSpec}
use kmp_issuer.Reconciler.Spec.{
  first_complaint, or_else, common_name_complaint, dns_complaint, ip_complaint, subject_complaint,
  matches_spec,
}

-- Text behind a text that is not empty.
or_else-eq-nil : (a b : Bytes) → (or_else a b ≡ []) ↔ ((a ≡ []) × (b ≡ []))
or_else-eq-nil [] b = (λ h. (refl, h), λ h. h.1)
or_else-eq-nil (x ∷ a) b = (λ h. absurd (cons-ne-nil _ _ h), λ h. h.0)

first_complaint-eq-nil :
    (complaint : Bytes → Bytes) (xs : List Bytes) (behind : Bytes)
    → (first_complaint complaint xs behind ≡ [])
      ↔ (((x : Bytes) → In x xs → complaint x ≡ []) × (behind ≡ []))
unfolding first_complaint
first_complaint-eq-nil complaint [] behind = (λ h. (λ x i. elim i [ ], h), λ h. h.1)
first_complaint-eq-nil complaint (y ∷ xs) behind =
    let (to, from) = first_complaint-eq-nil complaint xs behind in
    let (split, both) = or_else-eq-nil (complaint y) (first_complaint complaint xs behind) in
    (
      λ h.
          let (now, later) = split h in
          let (rest, end) = to later in
          (
            λ x i. elim (In-cons_cases i) [
              | inl e ↦ subst (λ z. complaint z ≡ []) e now
              | inr j ↦ rest x j
            ],
            end,
          ),
      λ (all, end). both (all y (here refl), from (λ x i. all x (there i), end)),
    )

module _ (p : Platform) where
  -- What a certificate has to carry for a spec: the common name and the DNS names, but for case, the
  -- IP addresses, and the organization and the organizational unit that the spec names.
  pub record Matches (leaf : Certificate) (spec : KmpCertificateSpec) : Type 0 where
    pub common_name :
        equal_fold (Platform.unicode p) leaf.subject.common_name spec.common_name ≡ true
    pub dns_names :
        (name : Bytes) → In name spec.dns_names → FoldIn (Platform.unicode p) leaf.dns_names name
    pub ip_addresses :
        (text : Bytes)
        → In text spec.ip_addresses
        → (ip issued : Bytes) × (Platform.parse_ip p text ≡ some ip)
          × In issued leaf.ip_addresses
          × (ip_equal issued ip ≡ true)
    pub organization :
        is_nil spec.subject.organization ≡ false
        → FoldIn (Platform.unicode p) leaf.subject.organization spec.subject.organization
    pub organizational_unit :
        is_nil spec.subject.organizational_unit ≡ false
        → FoldIn
            (Platform.unicode p)
            leaf.subject.organizational_unit
            spec.subject.organizational_unit

  -- A test whose complaint is a text that is not empty.
  guarded :
      (test : Bool) (c : ℕ) (text : Bytes)
      → ((if not test then c ∷ text else []) ≡ []) ↔ (test ≡ true)
  guarded true c text = (λ _. refl, λ _. refl)
  guarded false c text = (λ h. absurd (cons-ne-nil _ _ h), λ h. absurd (false≢true h))

  guarded_unless :
      (test empty : Bool) (c : ℕ) (text : Bytes)
      → ((if not empty && not test then c ∷ text else []) ≡ []) ↔ (empty ≡ false → test ≡ true)
  guarded_unless test true c text = (λ _ h. absurd (false≢true (sym h)), λ _. refl)
  guarded_unless test false c text =
      let (to, from) = guarded test c text in (λ h _. to h, λ f. from (f refl))

  module _ (leaf : Certificate) where
    common_name_iff :
        (wanted : Bytes)
        → (common_name_complaint p leaf wanted ≡ [])
          ↔ (equal_fold (Platform.unicode p) leaf.subject.common_name wanted ≡ true)
    unfolding common_name_complaint
    common_name_iff wanted =
        guarded (equal_fold (Platform.unicode p) leaf.subject.common_name wanted) _ _

    dns_iff :
        (name : Bytes)
        → (dns_complaint p leaf name ≡ []) ↔ FoldIn (Platform.unicode p) leaf.dns_names name
    unfolding dns_complaint
    dns_iff name =
        let (to, from) = guarded (contains_fold (Platform.unicode p) leaf.dns_names name) _ _ in
        let (found, present) = contains_fold_iff (Platform.unicode p) leaf.dns_names name in
        (λ h. found (to h), λ i. from (present i))

    abbrev pub HasAddress : Bytes → Type 0
    HasAddress text =
        (ip issued : Bytes) × (Platform.parse_ip p text ≡ some ip)
        × In issued leaf.ip_addresses
        × (ip_equal issued ip ≡ true)

    ip_complaint-HasAddress : (text : Bytes) → ip_complaint p leaf text ≡ [] → HasAddress text
    unfolding ip_complaint
    ip_complaint-HasAddress text h = elim (Option-cases (Platform.parse_ip p text)) [
      | inl e ↦ absurd (
          cons-ne-nil _ _
            (append-eq-nil (Unicode.quote (Platform.unicode p) text) (codes " is not an IP address")
              (rw (ip_complaint, e) at h)).1)
      | inr (ip, e) ↦
          let (to, from) = guarded (any (λ issued. ip_equal issued ip) leaf.ip_addresses) _ _ in
          let (issued, i, same) =
            (any_iff (λ issued. ip_equal issued ip) leaf.ip_addresses).0
              (to (rw (ip_complaint, e) at h)) in
          (ip, issued, e, i, same)
    ]

    HasAddress-ip_complaint : (text : Bytes) → HasAddress text → ip_complaint p leaf text ≡ []
    unfolding ip_complaint
    HasAddress-ip_complaint text (ip, issued, e, i, same) =
        rw (ip_complaint, e, (any_iff (λ j. ip_equal j ip) leaf.ip_addresses).1 (issued, i, same))
          refl

    subject_iff :
        (kind : Bytes) (values : List Bytes) (want : Bytes)
        → (subject_complaint p kind values want ≡ [])
          ↔ (is_nil want ≡ false → FoldIn (Platform.unicode p) values want)
    unfolding subject_complaint
    subject_iff kind values want =
        let (to, from) =
          guarded_unless (contains_fold (Platform.unicode p) values want) (is_nil want) _ _ in
        let (found, present) = contains_fold_iff (Platform.unicode p) values want in
        (λ h full. found (to h full), λ f. from (λ full. present (f full)))

  matches_spec-Matches :
      (leaf : Certificate) (spec : KmpCertificateSpec)
      → matches_spec p leaf spec ≡ []
      → Matches leaf spec
  unfolding matches_spec
  matches_spec-Matches leaf spec h =
      let (name, h₁) = (or_else-eq-nil _ _).0 h in
      let (names, h₂) = (first_complaint-eq-nil (dns_complaint p leaf) spec.dns_names _).0 h₁ in
      let (ips, h₃) = (first_complaint-eq-nil (ip_complaint p leaf) spec.ip_addresses _).0 h₂ in
      let (organization, unit) = (or_else-eq-nil _ _).0 h₃ in
      record {
        common_name = (common_name_iff leaf spec.common_name).0 name;
        dns_names = λ x i. (dns_iff leaf x).0 (names x i);
        ip_addresses = λ x i. ip_complaint-HasAddress leaf x (ips x i);
        organization =
            (subject_iff leaf _ leaf.subject.organization spec.subject.organization).0 organization;
        organizational_unit =
            (subject_iff leaf _ leaf.subject.organizational_unit spec.subject.organizational_unit).0
              unit;
      }

  Matches-matches_spec :
      (leaf : Certificate) (spec : KmpCertificateSpec)
      → Matches leaf spec
      → matches_spec p leaf spec ≡ []
  unfolding matches_spec
  Matches-matches_spec leaf spec m = (or_else-eq-nil _ _).1 (
    (common_name_iff leaf spec.common_name).1 m.common_name,
    (first_complaint-eq-nil (dns_complaint p leaf) spec.dns_names _).1 (
      λ x i. (dns_iff leaf x).1 (m.dns_names x i),
      (first_complaint-eq-nil (ip_complaint p leaf) spec.ip_addresses _).1 (
        λ x i. HasAddress-ip_complaint leaf x (m.ip_addresses x i),
        (or_else-eq-nil _ _).1 (
          (subject_iff leaf _ leaf.subject.organization spec.subject.organization).1 m.organization,
          (subject_iff leaf _ leaf.subject.organizational_unit spec.subject.organizational_unit).1
              m.organizational_unit,
        ),
      ),
    ),
  )

  -- `matchesSpec` finds no mismatch exactly if the certificate has the common name and the DNS names
  -- of the spec, but for case, an IP address for each text of the spec, and the organization and the
  -- organizational unit that the spec names.
  pub matches_spec_iff :
      (leaf : Certificate) (spec : KmpCertificateSpec)
      → (matches_spec p leaf spec ≡ []) ↔ Matches leaf spec
  matches_spec_iff leaf spec = (matches_spec-Matches leaf spec, Matches-matches_spec leaf spec)
