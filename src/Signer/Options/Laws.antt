-- ===== src/Signer/Options/Laws.antt =====
-- `Validate` decides whether the options are complete for their sign type.
use kmp_issuer.Base.{
  ◌≡◌, refl, inl, inr, ◌↔◌, true, false, Bool-cases, Result, ok, err, err-ne-ok, is_nil, arith,
}
use kmp_issuer.Text.{Unicode, str_eq, str_eq_iff}
use kmp_issuer.Errors.{GoError, is_permanent, is_invalid_config}
use kmp_issuer.Client.Details.{
  default_sign_type, sign_type_msca, sign_type_msca_using_agent, sign_type_with_root,
}
use kmp_issuer.Signer.Options.{
  SigningOptions, missing_msca_fields, require_msca_fields, and_agent, validate,
}

-- The options name a Microsoft CA.
pub record HasMsca (o : SigningOptions) : Type 0 where
  pub server : is_nil o.server_name ≡ false
  pub ca : is_nil o.ca_name ≡ false
  pub template : is_nil o.template_name ≡ false

-- The options have what their sign type needs, and that type is one of the three.
pub data IsComplete (o : SigningOptions) : Type 0 where
  msca : default_sign_type o.sign_type ≡ sign_type_msca → HasMsca o → IsComplete o
  using_agent :
      default_sign_type o.sign_type ≡ sign_type_msca_using_agent
      → HasMsca o
      → is_nil o.agent_name ≡ false
      → IsComplete o
  with_root :
      default_sign_type o.sign_type ≡ sign_type_with_root
      → is_nil o.root_certificate_common_name ≡ false
      → IsComplete o

require_msca_fields-HasMsca : (o : SigningOptions) → require_msca_fields o ≡ ok tt → HasMsca o
unfolding require_msca_fields missing_msca_fields
require_msca_fields-HasMsca o h = record {
  server = ground arith;
  ca = ground arith;
  template = ground arith;
}

HasMsca-require_msca_fields : (o : SigningOptions) → HasMsca o → require_msca_fields o ≡ ok tt
unfolding require_msca_fields missing_msca_fields
HasMsca-require_msca_fields o h = rw (h.server, h.ca, h.template) refl

and_agent-eq-ok :
    (o : SigningOptions) (r : Result GoError (Unit {0}))
    → and_agent o r ≡ ok tt
    → (r ≡ ok tt) × (is_nil o.agent_name ≡ false)
and_agent-eq-ok o r h = ground arith

validate-IsComplete : (u : Unicode) (o : SigningOptions) → validate u o ≡ ok tt → IsComplete o
unfolding validate
validate-IsComplete u o h =
    let t = default_sign_type o.sign_type in
    elim (Bool-cases (str_eq t sign_type_msca)) [
      | inl e ↦ msca ((str_eq_iff _ _).0 e) (require_msca_fields-HasMsca o (rw e at h))
      | inr n ↦ elim (Bool-cases (str_eq t sign_type_msca_using_agent)) [
        | inl e ↦
            let (fields, agent) = and_agent-eq-ok o (require_msca_fields o) (rw (n, e) at h) in
            using_agent ((str_eq_iff _ _).0 e) (require_msca_fields-HasMsca o fields) agent
        | inr m ↦ elim (Bool-cases (str_eq t sign_type_with_root)) [
          | inl e ↦ elim (Bool-cases (is_nil o.root_certificate_common_name)) [
            | inl nameless ↦ absurd (err-ne-ok (rw (n, m, e, nameless) at h))
            | inr named ↦ with_root ((str_eq_iff _ _).0 e) named
          ]
          | inr k ↦ absurd (err-ne-ok (rw (n, m, k) at h))
        ]
      ]
    ]

IsComplete-validate : (u : Unicode) (o : SigningOptions) → IsComplete o → validate u o ≡ ok tt
unfolding validate str_eq
IsComplete-validate u o (msca t f) = rw t (HasMsca-require_msca_fields o f)
IsComplete-validate u o (using_agent t f agent) =
    rw (t, HasMsca-require_msca_fields o f, agent) refl
IsComplete-validate u o (with_root t name) = rw (t, name) refl

-- `Validate` accepts options exactly if their sign type, or its default, is one of the three and
-- the options have what that type needs.
pub validate_iff : (u : Unicode) (o : SigningOptions) → (validate u o ≡ ok tt) ↔ IsComplete o
validate_iff u o = (validate-IsComplete u o, IsComplete-validate u o)

-- Every error of `Validate` is one that a repetition does not change.
pub validate-is_permanent :
    (u : Unicode) (o : SigningOptions) (e : GoError) → validate u o ≡ err e → is_permanent e ≡ true
unfolding validate require_msca_fields is_permanent is_invalid_config
validate-is_permanent u o e h = ground arith
