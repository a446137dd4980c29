-- ===== src/Examples/Controllers.antt =====
-- The small world: the controllers run in a cluster.
use kmp_issuer.Adapter.{
  builders, client_config, provision_key, provisioner_from_issuer, signer_from_issuer,
  signer_with_token, signing_options,
}
use kmp_issuer.Api.Certificates.{
  KmpCertificateStatus, condition_true, key_store_password_secret_key,
}
use kmp_issuer.Base.{
  In-cons_cases, [], ap, false, inl, inr, is_nil, ltz, none, ok, ok-injective, pos, refl, some,
  subst, sym, true, ◌↔◌, ◌∷◌, ◌≡◌,
}
use kmp_issuer.Chain.Build.{
  build_bundle, chain_above, climb, encode_certificates, find_key, find_leaf, is_issuer,
  is_self_signed, others, pop_issuer,
}
use kmp_issuer.Chain.Extract.{
  add, add_all, certificates_from_strings, compact_text, parse_block, parse_blocks,
  parse_pem_certificates, scan_value, scan_values,
}
use kmp_issuer.Client.Call.{
  call, call_raw, call_raw_result, call_result, do_request, input_data, limited, request_of,
}
use kmp_issuer.Client.Certificate.{certificates_in, get_certificate}
use kmp_issuer.Client.Config.{checked_url, new_client, tls_transport}
use kmp_issuer.Client.Csr.{create_csr, created, export_csr, find_csr_id, id_in_response, listed_id}
use kmp_issuer.Client.Details.{default_sign_type}
use kmp_issuer.Client.Sign.{sign_csr, sign_result}
use kmp_issuer.Cluster.Access.{Cluster, Secret}
use kmp_issuer.Cluster.Data.{SecretData, lookup_key}
use kmp_issuer.Errors.{is_permanent}
use kmp_issuer.Examples.Cluster.{
  cluster, kept_web, library, net, new_status, reconciler, tls_secret, web, web_spec, whole,
}
use kmp_issuer.Examples.Equality.{status_eq_refl}
use kmp_issuer.Examples.World.{clock, key_platform, leaf, plain_unicode, platform, server}
use kmp_issuer.PrivateKey.Export.{
  encode_key, export_candidates, first_key, matches_certificate, parse_exported_private_key,
  try_candidate,
}
use kmp_issuer.PrivateKey.Pem.{
  block_der, find_block, next_block, parse_der_private_key, parse_pem_private_key,
  parse_private_key_candidate, read_block,
}
use kmp_issuer.Provision.Flow.{
  assemble, create_request, create_stored, export_key, matched_bundle, provision, provision_fetched,
  provision_identified, provision_signed, provision_stored, read_key,
}
use kmp_issuer.Provision.Names.{alt_name_present, missing_provisioned, verify_provisioned_names}
use kmp_issuer.Reconciler.Conditions.{new_condition, set_condition}
use kmp_issuer.Reconciler.Conditions.Kept.{UniqueTypes}
use kmp_issuer.Reconciler.Conditions.Laws.{find_condition}
use kmp_issuer.Reconciler.Issue.{
  Material, fill_secret, filled_data, get_issuer_spec, issue, issue_authorized, issue_from,
  issue_protected, issued_status, resolve_issuer, split_bundle, store_provisioned, tls_ca_key,
  write_secret,
}
use kmp_issuer.Reconciler.Issue.Credentials.{AnswersByName, IsHome, issue-IsHome}
use kmp_issuer.Reconciler.Issue.Fresh.{need_of_secret-filled_data}
use kmp_issuer.Reconciler.Issue.Keys.{IsObtained, issue-IsProvisioned}
use kmp_issuer.Reconciler.Issue.Laws.{lookup_key-filled_data}
use kmp_issuer.Reconciler.Issue.Trace.{IsIssued}
use kmp_issuer.Reconciler.Need.{
  current, issuance_needed, leaf_of, need_of_answer, need_of_leaf, need_of_secret, need_of_time,
  secret_name, tls_cert_key, tls_private_key_key,
}
use kmp_issuer.Reconciler.Need.Laws.{IsCurrent, issuance_needed_iff}
use kmp_issuer.Reconciler.Password.{generate_password, password_of}
use kmp_issuer.Reconciler.Process.{after, current_report, process, reconcile, with_condition}
use kmp_issuer.Reconciler.Process.Endings.{asked_state, need}
use kmp_issuer.Reconciler.Process.Laws.{
  FailsForGood, ReadyAs, Rests, Succeeds, process-ReadyAs, process-Rests, process-UniqueTypes,
}
use kmp_issuer.Reconciler.Process.Quiet.{reconcile_settled}
use kmp_issuer.Reconciler.Renewal.{
  fraction, lifetime, now, renewal_time, renewal_window, saturated, until,
}
use kmp_issuer.Reconciler.Spec.{
  common_name_complaint, dns_complaint, first_complaint, matches_spec, provision_request,
  subject_complaint,
}
use kmp_issuer.Reconciler.Spec.Matches.{Matches, matches_spec_iff}
use kmp_issuer.Reconciler.Spec.Provisioned.{FoldsBothWays, IsPlain}
use kmp_issuer.Response.Collect.{collect_strings, in_turn}
use kmp_issuer.Response.Find.{find_here, find_scalar, find_string, first_found}
use kmp_issuer.Response.Identify.{
  find_id_for_common_name, offer, offer_ids, offer_parsed, record_matches, run_all, walk_items,
}
use kmp_issuer.Response.Keys.{is_wanted, normalize_key, scalar_string, wanted_keys}
use kmp_issuer.Response.Status.{has_failure_message, message, parse_response, status, succeeded}
use kmp_issuer.Signer.Fetch.{
  after_attempt, fetch_certificate, poll, poll_interval_of, poll_timeout_of,
}
use kmp_issuer.Signer.Options.{missing_msca_fields, new_signer, require_msca_fields, validate}
use kmp_issuer.Signer.Resolve.{resolve_csr_id, sign_request}
use kmp_issuer.Text.{
  Bytes, codes, contains, equal_fold, member, str_eq, str_eq_comm, to_lower, trim_space,
}
use kmp_issuer.Text.Decimal.{format_int, parse_int}
use kmp_issuer.Text.Order.{sort_by_key, text_le}
use kmp_issuer.Verify.{contains_fold, missing_from}
use kmp_issuer.X509.{Platform, key_equal}

abbrev web_status : KmpCertificateStatus
web_status = record new_status {
  serial_number = codes "5";
  csr_id = codes "7";
  not_before = some (pos 0);
  not_after = some (pos 9);
  renewal_time = some (pos 6);
}

issue_run : issue (reconciler web) web 1 ≡ (ok web_status, 2)
unfolding add add_all after_attempt alt_name_present assemble block_der build_bundle builders call
    call_raw call_raw_result call_result certificates_from_strings certificates_in chain_above
    checked_url client_config climb collect_strings compact_text contains contains_fold create_csr
    create_request create_stored created default_sign_type do_request encode_certificates encode_key
    equal_fold export_candidates export_csr export_key fetch_certificate fill_secret find_block
    find_csr_id find_here find_id_for_common_name find_key find_leaf find_scalar find_string
    first_found first_key format_int fraction generate_password get_certificate get_issuer_spec
    has_failure_message id_in_response in_turn input_data is_issuer is_permanent is_self_signed
    is_wanted issue issue_authorized issue_from issue_protected issued_status key_equal lifetime
    limited listed_id lookup_key matched_bundle matches_certificate member message missing_from
    missing_msca_fields missing_provisioned new_client new_signer next_block normalize_key offer
    offer_ids offer_parsed others parse_block parse_blocks parse_der_private_key
    parse_exported_private_key parse_int parse_pem_certificates parse_pem_private_key
    parse_private_key_candidate parse_response password_of poll poll_interval_of poll_timeout_of
    pop_issuer provision provision_fetched provision_identified provision_key provision_request
    provision_signed provision_stored provisioner_from_issuer read_block read_key record_matches
    renewal_time renewal_window request_of require_msca_fields resolve_csr_id resolve_issuer run_all
    saturated scalar_string scan_value scan_values sign_csr sign_request sign_result
    signer_from_issuer signer_with_token signing_options sort_by_key split_bundle status
    store_provisioned succeeded text_le tls_transport to_lower trim_space try_candidate validate
    verify_provisioned_names walk_items wanted_keys write_secret
issue_run = refl

issue-IsProvisioned_example :
    (i : IsIssued (reconciler web) web 1 2 web_status) × (is_nil i.password ≡ false)
    × IsObtained platform key_platform net server clock whole i.spec i.auth_secret.contents
        (provision_request web.spec i.password)
        i.provisioned
unfolding builders
issue-IsProvisioned_example =
    issue-IsProvisioned platform key_platform net server clock whole (reconciler web) web 1 2
      web_status refl issue_run

web-AnswersByName : AnswersByName (cluster web)
web-AnswersByName name i s h = ap (λ x. x.namespace) (sym (ok-injective h))

issue-IsHome_example :
    (i : IsIssued (reconciler web) web 1 2 web_status) × IsHome (reconciler web) web i.namespace
issue-IsHome_example = issue-IsHome (reconciler web) web 1 2 web_status web-AnswersByName issue_run

process-ReadyAs_example :
    ReadyAs (process (reconciler web) web 1).0.1 condition_true ↔ Succeeds (reconciler web) web 1
process-ReadyAs_example = process-ReadyAs (reconciler web) web 1

process-Rests_example :
    Rests (process (reconciler web) web 1).0.0 ↔ FailsForGood (reconciler web) web 1
process-Rests_example = process-Rests (reconciler web) web 1

kept_UniqueTypes : UniqueTypes kept_web.status.conditions
unfolding UniqueTypes find_condition
kept_UniqueTypes = (refl, tt)

process-UniqueTypes_example : UniqueTypes (process (reconciler kept_web) kept_web 5).0.1.conditions
process-UniqueTypes_example = process-UniqueTypes (reconciler kept_web) kept_web 5 kept_UniqueTypes

need_run : need (reconciler kept_web) kept_web 5 ≡ current (pos 6)
unfolding common_name_complaint contains_fold dns_complaint equal_fold first_complaint fraction
    issuance_needed leaf_of lifetime lookup_key matches_spec need_of_answer need_of_leaf
    need_of_secret need_of_time now renewal_time renewal_window saturated subject_complaint
need_run = refl

kept_run : with_condition 3 (current_report (pos 1)) new_status ≡ kept_web.status
unfolding with_condition set_condition new_condition
kept_run = refl

reconcile_settled_example :
    reconcile (reconciler kept_web) (record { namespace = codes "ns"; name = codes "web" }) 5 ≡ (
      after (
          until
            (reconciler kept_web)
            (some (pos 6))
            (asked_state (reconciler kept_web) kept_web 5)),
      asked_state (reconciler kept_web) kept_web 5,
    )
reconcile_settled_example =
    reconcile_settled (reconciler kept_web) status_eq_refl
      (record { namespace = codes "ns"; name = codes "web" }) kept_web 3 new_status (pos 6) 5 5 refl
      refl need_run kept_run

issuance_needed_iff_example :
    ((issuance_needed (reconciler kept_web) kept_web 5).0 ≡ current (pos 6)) ↔ (
      (secret : Secret) × ((Cluster.get_secret (cluster kept_web) (secret_name kept_web) 5).0
        ≡ ok secret)
      × IsCurrent library platform kept_web
          (now (reconciler kept_web) (issuance_needed (reconciler kept_web) kept_web 5).1)
          secret
          (pos 6))
issuance_needed_iff_example = issuance_needed_iff (reconciler kept_web) kept_web 5 (pos 6)

plain_unicode-FoldsBothWays : FoldsBothWays plain_unicode
plain_unicode-FoldsBothWays s t = str_eq_comm s t

web_spec-IsPlain : IsPlain platform web.spec
unfolding trim_space str_eq
web_spec-IsPlain = record {
  organization = refl;
  organizational_unit = refl;
  dns_names = λ name i. elim (In-cons_cases i) [
    | inl e ↦
        subst (λ n. (trim_space n ≡ n) × (is_nil n ≡ false) × (Platform.parse_ip platform n ≡ none))
          e (refl, refl, refl)
    | inr j ↦ elim j [ ]
  ];
  ip_addresses = λ text i. elim i [ ];
}

abbrev written : Material
written = record {
  chain_pem = codes "lr";
  ca_pem = codes "r";
  key_pem = codes "k";
  password = codes "seed";
  generated = true;
}

abbrev stale : SecretData
stale = (codes "note", codes "mine") ∷ (codes "tls.key", codes "old") ∷ []

abbrev filled : Secret
filled = record tls_secret { contents = filled_data written stale }

accepted_run :
    verify_provisioned_names platform (provision_request web.spec written.password) leaf ≡ ok tt
unfolding alt_name_present contains_fold equal_fold missing_from missing_provisioned
    provision_request trim_space verify_provisioned_names
accepted_run = refl

read_run : leaf_of library written.chain_pem ≡ ok leaf
unfolding leaf_of
read_run = refl

early_run : ltz (pos 5) (renewal_time leaf web.spec.renew_before) ≡ true
unfolding renewal_time renewal_window fraction lifetime saturated
early_run = refl

need_of_secret-filled_data_example :
    need_of_secret library platform web 5 filled ≡ current (renewal_time leaf web.spec.renew_before)
need_of_secret-filled_data_example =
    need_of_secret-filled_data library platform web 5 filled written stale leaf
      plain_unicode-FoldsBothWays web_spec-IsPlain refl refl refl read_run accepted_run early_run

matches_spec_iff_example :
    (matches_spec platform leaf web_spec ≡ []) ↔ Matches platform leaf web_spec
matches_spec_iff_example = matches_spec_iff platform leaf web_spec

lookup_key-filled_data_example :
    (lookup_key tls_cert_key (filled_data written stale) ≡ some (codes "lr"))
    × (lookup_key tls_private_key_key (filled_data written stale) ≡ some (codes "k"))
    × (lookup_key tls_ca_key (filled_data written stale) ≡ some (codes "r"))
    × (lookup_key key_store_password_secret_key (filled_data written stale) ≡ some (codes "seed"))
    × ((key : Bytes)
        → str_eq key tls_cert_key ≡ false
        → str_eq key tls_private_key_key ≡ false
        → str_eq key tls_ca_key ≡ false
        → str_eq key key_store_password_secret_key ≡ false
        → lookup_key key (filled_data written stale) ≡ lookup_key key stale)
lookup_key-filled_data_example = lookup_key-filled_data written stale
