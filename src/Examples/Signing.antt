-- ===== src/Examples/Signing.antt =====
-- The small world: a request is signed, step by step.
use kmp_issuer.Base.{List, [], false, is_nil, none, ok, pos, refl, ℕ, ℤ, ◌+◌, ◌∷◌, ◌≡◌}
use kmp_issuer.Chain.Build.{
  Bundle, build_bundle, chain_above, climb, encode_certificates, find_key, find_leaf, is_issuer,
  is_self_signed, others, pop_issuer,
}
use kmp_issuer.Chain.Extract.{
  add, add_all, certificates_from_strings, compact_text, parse_block, parse_blocks,
  parse_pem_certificates, scan_value, scan_values,
}
use kmp_issuer.Chain.Request.{parse_csr}
use kmp_issuer.Client.Call.{
  call, call_raw, call_raw_result, call_result, do_request, input_data, limited, request_of,
}
use kmp_issuer.Client.Certificate.{certificates_in, get_certificate}
use kmp_issuer.Client.Csr.{
  create_csr, created, export_csr, find_csr_id, id_in_response, import_csr, listed_id,
}
use kmp_issuer.Client.Details.{default_sign_type}
use kmp_issuer.Client.Sign.{sign_csr, sign_result}
use kmp_issuer.Errors.{error_text, is_permanent}
use kmp_issuer.Examples.World.{
  client, clock, key_platform, leaf, monotonic, platform, request, server, signer,
}
use kmp_issuer.PrivateKey.Export.{
  encode_key, export_candidates, first_key, matches_certificate, parse_exported_private_key,
  try_candidate,
}
use kmp_issuer.PrivateKey.Pem.{
  block_der, find_block, next_block, parse_der_private_key, parse_pem_private_key,
  parse_private_key_candidate, read_block,
}
use kmp_issuer.Provision.{ProvisionRequest}
use kmp_issuer.Provision.Flow.{
  ProvisionedCertificate, assemble, create_request, create_stored, export_key, matched_bundle,
  provision, provision_fetched, provision_identified, provision_signed, provision_stored, read_key,
}
use kmp_issuer.Provision.Flow.Laws.{IsProvisioned, provision-IsProvisioned}
use kmp_issuer.Provision.Names.{alt_name_present, missing_provisioned, verify_provisioned_names}
use kmp_issuer.Response.Collect.{collect_fields, collect_strings, in_turn}
use kmp_issuer.Response.Find.{find_here, find_scalar, find_string, first_found}
use kmp_issuer.Response.Identify.{
  find_id_for_common_name, offer, offer_ids, offer_parsed, record_matches, run_all, walk_items,
}
use kmp_issuer.Response.Keys.{is_wanted, normalize_key, scalar_string, wanted_keys}
use kmp_issuer.Response.Status.{has_failure_message, message, parse_response, status, succeeded}
use kmp_issuer.Signer.Fetch.{
  after_attempt, fetch_certificate, poll, poll_interval_of, poll_timeout_of,
}
use kmp_issuer.Signer.Fetch.Laws.{Polls, fetch_certificate-Polls}
use kmp_issuer.Signer.Resolve.{csr_common_name, resolve_csr_id, sign_request}
use kmp_issuer.Signer.Sign.{
  checked_bundle, complete, fetch_signed, read_request, sign, sign_at, sign_csr_of, sign_identified,
  sign_stored, store,
}
use kmp_issuer.Signer.Sign.Laws.{IsBundleFor, sign-IsBundleFor}
use kmp_issuer.Text.{Bytes, codes, contains, equal_fold, member, to_lower, trim_space}
use kmp_issuer.Text.Decimal.{format_int, parse_int}
use kmp_issuer.Text.Order.{sort_by_key, text_le}
use kmp_issuer.Verify.{
  contains_fold, missing_common_name, missing_dns_names, missing_email_addresses, missing_from,
  missing_ip_addresses, missing_requested, missing_uris, verify_requested_names,
}
use kmp_issuer.X509.{Certificate, CertificateRequest, key_equal}

abbrev bundle : Bundle
bundle = record { chain_pem = codes "lr"; leaf = leaf }

abbrev whole_days : ℤ → ℤ
whole_days d = d

signed_run : sign platform server clock whole_days signer request 0 ≡ (ok bundle, 1)
unfolding add add_all after_attempt build_bundle call call_result certificates_from_strings
    certificates_in chain_above checked_bundle climb collect_fields complete contains contains_fold
    csr_common_name default_sign_type do_request encode_certificates equal_fold error_text
    fetch_certificate fetch_signed find_csr_id find_here find_id_for_common_name find_key find_leaf
    find_scalar find_string first_found get_certificate has_failure_message id_in_response
    import_csr in_turn input_data is_issuer is_permanent is_self_signed is_wanted key_equal limited
    listed_id member message missing_common_name missing_dns_names missing_email_addresses
    missing_from missing_ip_addresses missing_requested missing_uris normalize_key offer offer_ids
    offer_parsed others parse_block parse_blocks parse_csr parse_int parse_pem_certificates
    parse_response poll poll_interval_of poll_timeout_of pop_issuer read_request record_matches
    request_of resolve_csr_id run_all scalar_string scan_value scan_values sign sign_at sign_csr
    sign_csr_of sign_identified sign_request sign_result sign_stored sort_by_key status store
    succeeded text_le to_lower trim_space verify_requested_names walk_items wanted_keys
signed_run = refl

sign-IsBundleFor_example :
    (c : CertificateRequest) × (certs : List Certificate) × (name serial : Bytes) × (asked : ℕ)
    × (parse_csr platform (codes "R") ≡ ok c)
    × ((fetch_signed platform server clock whole_days signer name serial asked).0 ≡ ok certs)
    × IsBundleFor platform c certs bundle
sign-IsBundleFor_example =
    sign-IsBundleFor platform server clock whole_days signer request bundle 0 1 signed_run

fetch_certificate-Polls_example :
    Polls server clock
      (get_certificate platform server client (codes "a.b") [])
      (poll_interval_of signer)
      (0 + poll_timeout_of signer)
      0
      ((fetch_certificate platform server clock signer (codes "a.b") [] 0).0)
      ((fetch_certificate platform server clock signer (codes "a.b") [] 0).1)
fetch_certificate-Polls_example =
    fetch_certificate-Polls platform server clock monotonic signer (codes "a.b") [] 0

abbrev key_request : ProvisionRequest
key_request = record {
  common_name = codes "A.b";
  alt_names = codes " a.b " ∷ codes " " ∷ [];
  organization = [];
  organizational_unit = [];
  location = [];
  state = [];
  country = [];
  key_algorithm = codes "RSA";
  key_length = pos 2048;
  signature_algorithm = [];
  store_type = [];
  validity_type = [];
  validity_days = none;
  password = codes "secret";
  export_file_type = [];
}

abbrev published : ProvisionedCertificate
published = record {
  bundle = bundle;
  private_key_pem = codes "k";
  csr_id = codes "7";
  serial_number = codes "5";
}

provisioned_run :
    provision platform key_platform server clock whole_days signer key_request 0 ≡ (ok published, 1)
unfolding add add_all after_attempt alt_name_present assemble block_der build_bundle call call_raw
    call_raw_result call_result certificates_from_strings certificates_in chain_above climb
    collect_strings compact_text contains contains_fold create_csr create_request create_stored
    created default_sign_type do_request encode_certificates encode_key equal_fold export_candidates
    export_csr export_key fetch_certificate find_block find_csr_id find_here find_id_for_common_name
    find_key find_leaf find_scalar find_string first_found first_key format_int get_certificate
    has_failure_message id_in_response in_turn input_data is_issuer is_permanent is_self_signed
    is_wanted key_equal limited listed_id matched_bundle matches_certificate member message
    missing_from missing_provisioned next_block normalize_key offer offer_ids offer_parsed others
    parse_block parse_blocks parse_der_private_key parse_exported_private_key parse_int
    parse_pem_certificates parse_pem_private_key parse_private_key_candidate parse_response poll
    poll_interval_of poll_timeout_of pop_issuer provision provision_fetched provision_identified
    provision_signed provision_stored read_block read_key record_matches request_of resolve_csr_id
    run_all scalar_string scan_value scan_values sign_csr sign_request sign_result sort_by_key
    status succeeded text_le to_lower trim_space try_candidate verify_provisioned_names walk_items
    wanted_keys
provisioned_run = refl

provision-IsProvisioned_example :
    (is_nil (codes "secret") ≡ false)
    × ((certs : List Certificate) × (exported name : Bytes) × (asked told : ℕ) × ((fetch_certificate
            platform server clock signer name
            (codes "5")
            asked).0
          ≡ ok certs)
        × ((export_csr platform server client (codes "7") [] told).0 ≡ ok exported)
        × IsProvisioned platform key_platform key_request certs exported published)
provision-IsProvisioned_example =
    provision-IsProvisioned platform key_platform server clock whole_days signer key_request
      published 0 1 provisioned_run
