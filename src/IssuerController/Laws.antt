-- ===== src/IssuerController/Laws.antt =====
-- What `getSecretData` and `Sign` return, by the step that they end with.
use kmp_issuer.Base.{
  ◌≡◌, true, false, Bool-cases, if◌then◌else◌, refl, sym, subst, inl, inr, Result, ok, err, map_err,
  Result-cases,
}
use kmp_issuer.Text.{Bytes, Unicode}
use kmp_issuer.Errors.{GoError, plain, is_permanent}
use kmp_issuer.Api.Issuers.{IssuerSpec}
use kmp_issuer.Cluster.Data.{SecretData}
use kmp_issuer.Cluster.Access.{ApiFailure, Secret, Cluster}
use kmp_issuer.Cluster.Builders.{CertificateDetails, HealthChecker, CertificateSigner, Builders}
use kmp_issuer.IssuerController.{
  SignError, failed, permanent, issuer_error, IssuerObject, issuer, cluster_issuer, unexpected,
  auth_secret_failure, flattened, unexpected_issuer, permanent_if_unrecoverable, get_issuer_details,
  auth_name, classified, checked_data, get_secret_data, sign_checked, sign_request_of,
  err_health_checker_builder, err_health_checker_check, err_signer_builder, err_signer_sign,
}

-- An error that is given to issuer-lib for a cause: as a `PermanentError` if the cause is permanent,
-- and as it is, to be tried again, if not.
pub data IsVerdict (flat cause : GoError) : SignError → Type 0 where
  lasting : is_permanent cause ≡ true → IsVerdict flat cause (permanent flat)
  passing : is_permanent cause ≡ false → IsVerdict flat cause (failed flat)

permanent_if_unrecoverable-IsVerdict :
    (flat cause : GoError) → IsVerdict flat cause (permanent_if_unrecoverable flat cause)
unfolding permanent_if_unrecoverable
permanent_if_unrecoverable-IsVerdict flat cause = elim (Bool-cases (is_permanent cause)) [
  | inl for_good ↦
      subst (λ b. IsVerdict flat cause (if b then permanent flat else failed flat)) (sym for_good)
        (lasting for_good)
  | inr for_now ↦
      subst (λ b. IsVerdict flat cause (if b then permanent flat else failed flat)) (sym for_now)
        (passing for_now)
]

module _ (u : Unicode) {S : Type 0} (c : Cluster S) (b : Builders S) where
  module _ (spec : IssuerSpec) (namespace : Bytes) (s : S) where
    abbrev secret_answer : Result ApiFailure Secret
    secret_answer = (Cluster.get_secret c (auth_name spec namespace) s).0

    abbrev read_state : S
    read_state = (Cluster.get_secret c (auth_name spec namespace) s).1

    -- The outcomes of `getSecretData`: the Secret is not read, which is tried again; no health
    -- checker is built from it, or the check fails, which are permanent exactly if their cause is;
    -- or the check passes and the data are returned.
    pub data CheckOutcome : Result SignError SecretData → Type 0 where
      unread :
          (e : ApiFailure)
          → secret_answer ≡ err e
          → CheckOutcome (err (failed (auth_secret_failure (auth_name spec namespace) e)))
      unbuilt :
          (secret : Secret) (cause : GoError)
          → secret_answer ≡ ok secret
          → Builders.health_checker b spec secret.contents ≡ err cause
          → (e : SignError) → IsVerdict (flattened u err_health_checker_builder cause) cause e
          → CheckOutcome (err e)
      unhealthy :
          (secret : Secret) (checker : HealthChecker S) (cause : GoError)
          → secret_answer ≡ ok secret
          → Builders.health_checker b spec secret.contents ≡ ok checker
          → (checker read_state).0 ≡ err cause
          → (e : SignError) → IsVerdict (flattened u err_health_checker_check cause) cause e
          → CheckOutcome (err e)
      healthy :
          (secret : Secret) (checker : HealthChecker S)
          → secret_answer ≡ ok secret
          → Builders.health_checker b spec secret.contents ≡ ok checker
          → (checker read_state).0 ≡ ok tt
          → CheckOutcome (ok secret.contents)

    checked_data-CheckOutcome :
        (secret : Secret)
        → secret_answer ≡ ok secret
        → CheckOutcome (checked_data u c b spec secret read_state).0
    unfolding checked_data
    checked_data-CheckOutcome secret got =
        elim (Result-cases (Builders.health_checker b spec secret.contents)) [
          | inr (cause, refused) ↦ rw refused (
              unbuilt secret cause got refused (classified u c b err_health_checker_builder cause) (
                permanent_if_unrecoverable-IsVerdict (flattened u err_health_checker_builder cause)
                  cause))
          | inl (checker, built) ↦ elim (Result-cases (checker read_state).0) [
            | inr (cause, fails) ↦
                rw (built, fails)
                  (unhealthy secret checker cause got built fails
                    (classified u c b err_health_checker_check cause)
                    (permanent_if_unrecoverable-IsVerdict
                      (flattened u err_health_checker_check cause) cause))
            | inl (_, passes) ↦ rw (built, passes) (healthy secret checker got built passes)
          ]
        ]

    get_secret_data-CheckOutcome : CheckOutcome (get_secret_data u c b spec namespace s).0
    unfolding get_secret_data
    get_secret_data-CheckOutcome = elim (Result-cases secret_answer) [
      | inr (e, missing) ↦ rw missing (unread e missing)
      | inl (secret, got) ↦ rw got (checked_data-CheckOutcome secret got)
    ]

  module _ (home : Bytes) (split_chain : Bytes → Result Bytes (Bytes × Bytes))
      (details : Result SignError CertificateDetails) (object : IssuerObject) (s : S) where
    -- The outcomes of `Sign`: the issuer is of no known type; its credentials do not pass, which are
    -- both the issuer's failure; the details of the request are refused; no signer is built, the
    -- issuer's failure too; the signer fails, permanently if its error is permanent; its answer is no
    -- chain; or the chain and the CA of the answer to the details of the request. Past the first
    -- two, the health check has passed.
    pub data SignOutcome : Result SignError (Bytes × Bytes) → Type 0 where
      unknown :
          (text : Bytes)
          → object ≡ unexpected text
          → SignOutcome (err (issuer_error (unexpected_issuer text)))
      unchecked :
          (spec : IssuerSpec) (namespace : Bytes) (e : SignError)
          → get_issuer_details home object ≡ ok (spec, namespace)
          → (get_secret_data u c b spec namespace s).0 ≡ err e
          → CheckOutcome spec namespace s (err e)
          → SignOutcome (err (issuer_error e))
      undetailed :
          (spec : IssuerSpec) (namespace : Bytes) (secret_data : SecretData) (e : SignError)
          → get_issuer_details home object ≡ ok (spec, namespace)
          → (get_secret_data u c b spec namespace s).0 ≡ ok secret_data
          → CheckOutcome spec namespace s (ok secret_data)
          → details ≡ err e
          → SignOutcome (err e)
      unbuilt_signer :
          (spec : IssuerSpec) (namespace : Bytes) (secret_data : SecretData) (cause : GoError)
          → get_issuer_details home object ≡ ok (spec, namespace)
          → (get_secret_data u c b spec namespace s).0 ≡ ok secret_data
          → CheckOutcome spec namespace s (ok secret_data)
          → Builders.signer b spec secret_data ≡ err cause
          → SignOutcome (err (issuer_error (failed (flattened u err_signer_builder cause))))
      unsigned :
          (spec : IssuerSpec) (namespace : Bytes) (secret_data : SecretData)
          (request : CertificateDetails) (signer : CertificateSigner S) (cause : GoError)
          → get_issuer_details home object ≡ ok (spec, namespace)
          → (get_secret_data u c b spec namespace s).0 ≡ ok secret_data
          → CheckOutcome spec namespace s (ok secret_data)
          → details ≡ ok request
          → Builders.signer b spec secret_data ≡ ok signer
          → (signer request (get_secret_data u c b spec namespace s).1).0 ≡ err cause
          → (e : SignError) → IsVerdict (flattened u err_signer_sign cause) cause e
          → SignOutcome (err e)
      signed :
          (spec : IssuerSpec) (namespace : Bytes) (secret_data : SecretData)
          (request : CertificateDetails) (signer : CertificateSigner S) (chain : Bytes)
          → get_issuer_details home object ≡ ok (spec, namespace)
          → (get_secret_data u c b spec namespace s).0 ≡ ok secret_data
          → CheckOutcome spec namespace s (ok secret_data)
          → details ≡ ok request
          → Builders.signer b spec secret_data ≡ ok signer
          → (signer request (get_secret_data u c b spec namespace s).1).0 ≡ ok chain
          → SignOutcome (map_err (λ e. failed (plain e)) (split_chain chain))

    sign_checked-SignOutcome :
        (spec : IssuerSpec) (namespace : Bytes) (secret_data : SecretData)
        → get_issuer_details home object ≡ ok (spec, namespace)
        → (get_secret_data u c b spec namespace s).0 ≡ ok secret_data
        → CheckOutcome spec namespace s (ok secret_data)
        → SignOutcome
            (sign_checked u c b home split_chain details spec secret_data
              (get_secret_data u c b spec namespace s).1).0
    unfolding sign_checked
    sign_checked-SignOutcome spec namespace secret_data known checked passed =
        let Goal : Result SignError (Bytes × Bytes) → Type 0 = λ o.
          (sign_checked u c b home split_chain details spec secret_data
            (get_secret_data u c b spec namespace s).1).0
          ≡ o in
        elim (Result-cases details) [
          | inr (e, refused) ↦
              let ends : Goal (err e) = rw refused refl in
              subst SignOutcome (sym ends)
                (undetailed spec namespace secret_data e known checked passed refused)
          | inl (request, detailed) ↦ elim (Result-cases (Builders.signer b spec secret_data)) [
            | inr (cause, refused) ↦
                let ends : Goal
                    (err (issuer_error (failed (flattened u err_signer_builder cause)))) =
                  rw (detailed, refused) refl in
                subst SignOutcome (sym ends)
                  (unbuilt_signer spec namespace secret_data cause known checked passed refused)
            | inl (signer, built) ↦
                elim (Result-cases (signer request (get_secret_data u c b spec namespace s).1).0) [
                  | inr (cause, fails) ↦
                      let ends : Goal (err (classified u c b err_signer_sign cause)) =
                        rw (detailed, built, fails) refl in
                      subst SignOutcome (sym ends) (
                        unsigned spec namespace secret_data request signer cause known checked
                          passed detailed built fails (classified u c b err_signer_sign cause)
                          (permanent_if_unrecoverable-IsVerdict (flattened u err_signer_sign cause)
                            cause))
                  | inl (chain, made) ↦
                      let ends : Goal (map_err (λ e. failed (plain e)) (split_chain chain)) =
                        rw (detailed, built, made) refl in
                      subst SignOutcome (sym ends) (
                        signed spec namespace secret_data request signer chain known checked passed
                          detailed built made)
                ]
          ]
        ]

    sign_known-SignOutcome :
        (spec : IssuerSpec) (namespace : Bytes)
        → get_issuer_details home object ≡ ok (spec, namespace)
        → SignOutcome (sign_request_of u c b home split_chain details object s).0
    unfolding sign_request_of
    sign_known-SignOutcome spec namespace known =
        let outcome_of : (o : Result SignError SecretData)
            → (get_secret_data u c b spec namespace s).0 ≡ o
            → CheckOutcome spec namespace s o =
          λ o e.
            subst (CheckOutcome spec namespace s) e
              (get_secret_data-CheckOutcome spec namespace s) in
        elim (Result-cases (get_secret_data u c b spec namespace s).0) [
          | inr (e, fails) ↦
              let ends : (sign_request_of u c b home split_chain details object s).0
                  ≡ err (issuer_error e) =
                rw (known, fails) refl in
              subst SignOutcome (sym ends)
                (unchecked spec namespace e known fails (outcome_of (err e) fails))
          | inl (secret_data, passes) ↦
              let ends : (sign_request_of u c b home split_chain details object s).0
                  ≡ (sign_checked u c b home split_chain details spec secret_data
                      (get_secret_data u c b spec namespace s).1).0 =
                rw (known, passes) refl in
              subst SignOutcome (sym ends) (
                sign_checked-SignOutcome spec namespace secret_data known passes
                  (outcome_of (ok secret_data) passes))
        ]

  -- `Sign` ends as one of its outcomes: the issuer is unknown; its credentials do not pass; the
  -- details of the request are refused; no signer is built; the signer fails; or it answers the
  -- request with these details, from the state that the health check left, and the result is the
  -- chain and the CA of that answer, if it is split.
  pub sign-SignOutcome :
      (home : Bytes) (split_chain : Bytes → Result Bytes (Bytes × Bytes))
      (details : Result SignError CertificateDetails) (object : IssuerObject) (s : S)
      → SignOutcome home split_chain details object s
          (sign_request_of u c b home split_chain details object s).0
  unfolding sign_request_of get_issuer_details
  sign-SignOutcome home split_chain details (issuer i) s =
      sign_known-SignOutcome home split_chain details (issuer i) s i.spec i.namespace refl
  sign-SignOutcome home split_chain details (cluster_issuer i) s =
      sign_known-SignOutcome home split_chain details (cluster_issuer i) s i.spec home refl
  sign-SignOutcome home split_chain details (unexpected text) s = unknown text refl
