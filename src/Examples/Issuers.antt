-- ===== src/Examples/Issuers.antt =====
-- The small world: the issuers, conditions and times.
use kmp_issuer.Adapter.{builders, no_token, signer_from_issuer}
use kmp_issuer.Api.Certificates.{Condition, condition_false, condition_ready}
use kmp_issuer.Api.Issuers.{IssuerSpec}
use kmp_issuer.Base.{
  [], arith, err, false, none, ok, pos, refl, some, true, ℕ, ◌+◌, ◌-◌, ◌/◌, ◌∷◌, ◌≡◌, ◌≤◌,
}
use kmp_issuer.Client.Call.{Client, over_tls}
use kmp_issuer.Client.Config.{Config, checked_url, default_timeout, new_client, tls_transport}
use kmp_issuer.Client.Config.Accepted.{IsClientOf, new_client-IsClientOf}
use kmp_issuer.Cluster.Access.{Cluster}
use kmp_issuer.Cluster.Builders.{Builders, CertificateDetails}
use kmp_issuer.Cluster.Data.{lookup_key}
use kmp_issuer.Errors.{GoError, is_permanent}
use kmp_issuer.Examples.Cluster.{
  cluster, issuer_spec, kmp, library, net, ready, reconciler, tls_secret, web, whole,
}
use kmp_issuer.Examples.World.{clock, key_platform, kmp_url, leaf, plain_unicode, platform, server}
use kmp_issuer.IssuerController.{
  SignError, auth_name, check_issuer, get_issuer_details, issuer, sign_request_of,
}
use kmp_issuer.IssuerController.Laws.{SignOutcome, sign-SignOutcome}
use kmp_issuer.IssuerController.Misconfigured.{check_issuer-misconfigured, stops}
use kmp_issuer.Reconciler.Conditions.{Report, set_condition}
use kmp_issuer.Reconciler.Conditions.Laws.{Says, find_condition, set_condition_lem, transition_time}
use kmp_issuer.Reconciler.{Reconciler}
use kmp_issuer.Reconciler.Issue.{get_issuer_spec, issue, resolve_issuer}
use kmp_issuer.Reconciler.Need.{
  issuance_needed, leaf_of, need_of_answer, need_of_leaf, need_of_secret, need_of_time, needed,
}
use kmp_issuer.Reconciler.Password.{generate_password, key_store_password, password_of}
use kmp_issuer.Reconciler.Process.{process}
use kmp_issuer.Reconciler.Process.Misconfigured.{process-misconfigured}
use kmp_issuer.Reconciler.Spec.{
  common_name_complaint, dns_complaint, first_complaint, matches_spec, subject_complaint,
}
use kmp_issuer.Verify.{contains_fold}
use kmp_issuer.Reconciler.Renewal.{
  fraction, issuance_failure_requeue, lifetime, max_duration, now, renewal_time, renewal_window,
  saturated,
}
use kmp_issuer.Reconciler.Renewal.Laws.{renewal_time-third}
use kmp_issuer.Text.{Bytes, codes, equal_fold, str_eq, trim_space}

abbrev outage : Report
outage = record {
  generation = pos 2;
  condition_type = condition_ready;
  status = condition_false;
  reason = codes "Failed";
  message = codes "no answer";
}

set_condition_lem_example :
    ((c : Condition) × (find_condition condition_ready (set_condition 8 outage (ready ∷ [])).1
        ≡ some c)
      × Says outage c
      × (c.last_transition_time
          ≡ transition_time 8 outage (find_condition condition_ready (ready ∷ []))))
    × ((kind : Bytes)
        → str_eq condition_ready kind ≡ false
        → find_condition kind (set_condition 8 outage (ready ∷ [])).1
          ≡ find_condition kind (ready ∷ []))
set_condition_lem_example = set_condition_lem 8 outage (ready ∷ [])

begins : 0 ≤ 9
begins = omega arith

short_life : 9 - 0 ≤ max_duration
short_life = omega arith

renewal_time-third_example :
    (at : ℕ) × (renewal_time leaf none ≡ pos at) × (9 ≡ at + (9 - 0) / 3) × (0 ≤ at) × (at ≤ 9)
renewal_time-third_example = renewal_time-third leaf begins short_life

abbrev asked_details : CertificateDetails
asked_details = record { csr = codes "R"; duration = pos 0; is_ca = false }

abbrev wired : Builders ℕ
wired = builders platform key_platform net server clock whole

sign-SignOutcome_example :
    SignOutcome plain_unicode
      (cluster web)
      wired
      (codes "cert-manager")
      library.split_chain
      (ok asked_details)
      (issuer kmp)
      1
      (sign_request_of plain_unicode
        (cluster web)
        wired
        (codes "cert-manager")
        library.split_chain
        (ok asked_details)
        (issuer kmp)
        1).0
sign-SignOutcome_example =
    sign-SignOutcome plain_unicode (cluster web) wired (codes "cert-manager") library.split_chain
      (ok asked_details) (issuer kmp) 1

-- An issuer that names the Secret of the certificate, which has no token.
abbrev tokenless_spec : IssuerSpec
tokenless_spec = record issuer_spec { auth_secret_name = codes "tls" }

known_run :
    get_issuer_details (codes "cert-manager") (issuer (record kmp { spec = tokenless_spec }))
    ≡ ok (tokenless_spec, codes "ns")
unfolding get_issuer_details
known_run = refl

got_run :
    (Cluster.get_secret (cluster web) (auth_name tokenless_spec (codes "ns")) 5).0 ≡ ok tls_secret
unfolding str_eq
got_run = refl

tokenless_run :
    signer_from_issuer plain_unicode net (some tokenless_spec) tls_secret.contents
    ≡ err (no_token plain_unicode)
unfolding signer_from_issuer trim_space lookup_key str_eq
tokenless_run = refl

check_issuer-misconfigured_example :
    (refusal : SignError) × (check_issuer plain_unicode
        (cluster web)
        wired
        (codes "cert-manager")
        (issuer (record kmp { spec = tokenless_spec }))
        5
      ≡ (err refusal, 5))
    × (stops refusal ≡ true)
check_issuer-misconfigured_example =
    check_issuer-misconfigured platform key_platform net server clock whole (cluster web)
      (codes "cert-manager") (issuer (record kmp { spec = tokenless_spec })) tokenless_spec
      (codes "ns") tls_secret (no_token plain_unicode) 5 known_run got_run tokenless_run

-- A cluster in which the certificate names such an issuer and is due for renewal at the time 7.
abbrev tokenless_reconciler : Reconciler ℕ
tokenless_reconciler = record (reconciler web) {
  cluster = record (cluster web) {
    get_issuer =
        λ name s. (ok (record kmp { spec = tokenless_spec; namespace = name.namespace }), s);
  };
}

due_run :
    issuance_needed tokenless_reconciler web 7
    ≡ (needed (codes "the certificate is due for renewal at ") (some (pos 6)), 7)
unfolding common_name_complaint contains_fold dns_complaint equal_fold first_complaint fraction
    issuance_needed leaf_of lifetime lookup_key matches_spec need_of_answer need_of_leaf
    need_of_secret need_of_time now renewal_time renewal_window saturated subject_complaint str_eq
due_run = refl

resolved_run : resolve_issuer tokenless_reconciler web 7 ≡ (ok (tokenless_spec, codes "ns"), 7)
unfolding resolve_issuer get_issuer_spec str_eq
resolved_run = refl

credentials_run :
    Cluster.get_secret
      (Reconciler.cluster tokenless_reconciler)
      (auth_name tokenless_spec (codes "ns"))
      7
    ≡ (ok tls_secret, 7)
unfolding str_eq
credentials_run = refl

protected_run : key_store_password tokenless_reconciler web 7 ≡ (ok (codes "seed", true), 7)
unfolding password_of generate_password
protected_run = refl

process-misconfigured_example :
    (is_permanent (no_token plain_unicode) ≡ true)
    × ((e : GoError) × (issue tokenless_reconciler web 7 ≡ (err e, 7))
        × (is_permanent e ≡ false)
        × ((process tokenless_reconciler web 7).0.0
            ≡ record { requeue_after = issuance_failure_requeue; error = some e }))
unfolding builders
process-misconfigured_example =
    process-misconfigured platform key_platform net server clock whole tokenless_reconciler web
      tokenless_spec (codes "ns") tls_secret (codes "the certificate is due for renewal at ")
      (codes "seed") (some (pos 6)) true (no_token plain_unicode) 7 7 7 7 7 refl due_run
      resolved_run credentials_run protected_run tokenless_run

abbrev config : Config
config = record {
  base_url = codes " https://kmp/";
  auth_token = codes "token";
  ca_bundle = [];
  insecure_skip_tls_verify = false;
  timeout = pos 0;
  user_agent = codes "kmp-issuer";
  transport = none;
}

abbrev configured : Client
configured = record {
  base_url = kmp_url;
  auth_token = codes "token";
  transport = over_tls false none;
  timeout = pos default_timeout;
  user_agent = codes "kmp-issuer";
}

configured_run : new_client plain_unicode net config ≡ ok configured
unfolding new_client checked_url tls_transport trim_space str_eq
configured_run = refl

new_client-IsClientOf_example : IsClientOf net config configured
new_client-IsClientOf_example =
    new_client-IsClientOf plain_unicode net config configured configured_run
