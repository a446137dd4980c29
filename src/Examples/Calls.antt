-- ===== src/Examples/Calls.antt =====
-- The small world: the calls that signing is made of.
use kmp_issuer.Base.{[], err, false, is_nil, none, ok, refl, some, true, ℕ, ℤ, ◌&&◌, ◌∷◌, ◌≡◌, ◌⊎◌}
use kmp_issuer.Chain.Build.Climb.{AllDiffer}
use kmp_issuer.Chain.Extract.{
  add, add_all, certificates_from_strings, parse_block, parse_blocks, parse_pem_certificates,
  scan_value, scan_values,
}
use kmp_issuer.Client.Call.{
  Server, answered, call, call_result, do_request, get, input_data, limited, post, refusal,
  request_of,
}
use kmp_issuer.Client.Call.Accepted.{IsAcceptance, call_eq_ok_iff}
use kmp_issuer.Client.Call.Permanent.{ForGood, call-ForGood}
use kmp_issuer.Client.Call.Runs.{IsAnswered}
use kmp_issuer.Client.Certificate.{
  carries_none, certificates_in, get_certificate, lookup_details, op_get_certificate, ping,
  probe_name,
}
use kmp_issuer.Client.Certificate.Laws.{get_certificate-AllDiffer}
use kmp_issuer.Client.Certificate.Laws.Probe.{ping_no_certificate}
use kmp_issuer.Client.Csr.{Csr, encoded, find_csr_id, id_in_response, listed_id, search}
use kmp_issuer.Client.Csr.Laws.{AsksFor, IsIdFor}
use kmp_issuer.Client.Details.{SignRequest, default_sign_type, sign_details}
use kmp_issuer.Client.Sign.{SignResult, identifies_nothing, op_sign_csr, sign_csr, sign_result}
use kmp_issuer.Client.Sign.Laws.{sign_csr-IsAnswered}
use kmp_issuer.Errors.{is_permanent}
use kmp_issuer.Examples.World.{
  client, imported_doc, leaf, options, plain_unicode, platform, request, root, server, signer,
}
use kmp_issuer.Json.{end, obj}
use kmp_issuer.Response.Collect.{collect_strings, in_turn}
use kmp_issuer.Response.Find.{find_fields, find_here, find_scalar, find_string, first_found}
use kmp_issuer.Response.Identify.{
  find_id_for_common_name, offer, offer_ids, offer_parsed, record_matches, run_all, walk_items,
}
use kmp_issuer.Response.Keys.{
  certificate_id_keys, common_name_keys, is_wanted, normalize_key, scalar_string,
  serial_number_keys, wanted_keys,
}
use kmp_issuer.Response.Status.{
  Response, has_failure_message, message, parse_response, status, succeeded,
}
use kmp_issuer.Signer.Options.{validate}
use kmp_issuer.Signer.Options.Laws.{IsComplete, validate_iff}
use kmp_issuer.Signer.Resolve.{resolve_csr_id, sign_request}
use kmp_issuer.Signer.Resolve.Laws.{resolve_csr_id-IsIdFor}
use kmp_issuer.Text.{Bytes, codes, contains, equal_fold, member, str_eq, to_lower, trim_space}
use kmp_issuer.Text.Decimal.{format_int, parse_int}
use kmp_issuer.Text.Order.{sort_by_key, text_le}
use mathlib.Core.Logic.{◌↔◌}

abbrev whole_days : ℤ → ℤ
whole_days d = d

abbrev unidentified_csr : Csr
unidentified_csr = record { id = []; common_name = []; response = [] }

resolved_run :
    resolve_csr_id platform server signer unidentified_csr (codes "a.B") 0 ≡ (ok (codes "7"), 0)
unfolding call call_result do_request equal_fold find_csr_id find_here find_id_for_common_name
    find_scalar find_string first_found format_int has_failure_message id_in_response input_data
    is_wanted limited listed_id member message normalize_key offer offer_ids offer_parsed parse_int
    parse_response record_matches request_of resolve_csr_id run_all scalar_string sort_by_key status
    succeeded text_le to_lower trim_space walk_items wanted_keys
resolved_run = refl

resolve_csr_id-IsIdFor_example :
    ((codes "7" ≡ []) × (is_nil (codes "7") ≡ false))
    ⊎ ((is_nil (codes "listCSR") ≡ false)
        × ((input : Bytes) × (r : Response) × AsksFor platform (codes "a.B") input
            × IsAnswered platform server
                (request_of platform server client get (codes "listCSR") (some input) none [])
                (codes "listCSR")
                r
                0
                0
            × IsIdFor platform r (codes "a.B") (codes "7")))
resolve_csr_id-IsIdFor_example =
    resolve_csr_id-IsIdFor platform server signer unidentified_csr (codes "a.B") (codes "7") 0 0
      resolved_run

fetched_run : get_certificate platform server client (codes "a.b") [] 1 ≡ (ok (leaf ∷ root ∷ []), 1)
unfolding add add_all call call_result certificates_from_strings certificates_in collect_strings
    contains do_request find_here find_scalar find_string first_found get_certificate
    has_failure_message in_turn input_data is_wanted limited member message normalize_key
    parse_block parse_blocks parse_pem_certificates parse_response request_of scan_value scan_values
    sort_by_key status succeeded to_lower trim_space wanted_keys
fetched_run = refl

get_certificate-AllDiffer_example :
    (is_nil (codes "a.b") && is_nil {A = ℕ} [] ≡ false)
    × (is_nil (leaf ∷ root ∷ []) ≡ false)
    × AllDiffer (leaf ∷ root ∷ [])
    × ((input : Bytes) × (r : Response) × IsAnswered platform server
          (request_of platform server client get op_get_certificate (some input) none [])
          op_get_certificate
          r
          1
          1
        × (certificates_from_strings platform (collect_strings r.doc) ≡ ok (leaf ∷ root ∷ [])))
get_certificate-AllDiffer_example =
    get_certificate-AllDiffer platform server client (codes "a.b") [] (leaf ∷ root ∷ []) 1 1
      fetched_run

abbrev imported : Response
imported = record { doc = imported_doc; body = 1 ∷ [] }

call_eq_ok_iff_example :
    (call platform server client get (codes "importCSR") none none [] 0 ≡ (ok imported, 0))
    ↔ IsAcceptance platform server
        (Server.exchange server
          (request_of platform server client get (codes "importCSR") none none [])
          0)
        imported
        0
call_eq_ok_iff_example =
    call_eq_ok_iff platform server client get (codes "importCSR") none none [] 0 0 imported

-- A server that is overloaded.
abbrev busy : Server
busy = record { State = ℕ; exchange = λ req s. (answered 429 [], s) }

busy_run :
    call platform busy client get (codes "signCSR") none none [] 0
    ≡ (err (refusal platform (codes "signCSR") 429 []), 0)
unfolding call do_request call_result limited
busy_run = refl

call-ForGood_example :
    (is_permanent (refusal platform (codes "signCSR") 429 []) ≡ true) ↔ ForGood (answered 429 [])
call-ForGood_example =
    call-ForGood platform busy client (codes "signCSR") get none none [] 0 0
      (refusal platform (codes "signCSR") 429 []) busy_run

abbrev sign_it : SignRequest
sign_it = sign_request whole_days options (codes "7") request

abbrev signed : SignResult
signed = record { certificate_id = []; common_name = codes "a.b"; serial_number = codes "5" }

sign_run : sign_csr platform server client sign_it 0 ≡ (ok signed, 0)
unfolding call call_result default_sign_type do_request find_here find_scalar find_string
    first_found has_failure_message input_data is_wanted limited member message normalize_key
    parse_response request_of scalar_string sign_csr sign_request sign_result sort_by_key status
    succeeded text_le to_lower trim_space wanted_keys
sign_run = refl

sign_csr-IsAnswered_example :
    (is_nil sign_it.csr_id ≡ false)
    × ((input : Bytes) × (r : Response) × (encoded platform op_sign_csr (sign_details sign_it)
          ≡ ok input)
        × IsAnswered platform server
            (request_of platform server client post op_sign_csr (some input) none [])
            op_sign_csr
            r
            0
            0
        × (identifies_nothing signed ≡ false)
        × (codes "a.b" ≡ search platform r common_name_keys)
        × (codes "5" ≡ search platform r serial_number_keys)
        × ([] ≡ search platform r certificate_id_keys))
sign_csr-IsAnswered_example = sign_csr-IsAnswered platform server client sign_it signed 0 0 sign_run

validate_iff_example : (validate plain_unicode options ≡ ok tt) ↔ IsComplete options
validate_iff_example = validate_iff plain_unicode options

abbrev no_certificates : Response
no_certificates = record { doc = obj end; body = 5 ∷ [] }

accepted_run : call_result platform op_get_certificate 200 (limited (5 ∷ [])) ≡ ok no_certificates
unfolding call_result find_fields find_here find_string first_found has_failure_message limited
    message parse_response sort_by_key status succeeded to_lower trim_space
accepted_run = refl

nothing_run : certificates_from_strings platform (collect_strings (obj end)) ≡ ok []
unfolding certificates_from_strings collect_strings in_turn scan_values sort_by_key
nothing_run = refl

probe_run : encoded platform op_get_certificate (lookup_details probe_name []) ≡ ok (codes "{}")
unfolding input_data
probe_run = refl

answer_run :
    (server.exchange
      (request_of platform server client get op_get_certificate (some (codes "{}")) none [])
      0).0
    ≡ answered 200 (5 ∷ [])
unfolding request_of str_eq
answer_run = refl

ping_no_certificate_example :
    (ping platform server client 0).0 ≡ err (carries_none platform no_certificates)
ping_no_certificate_example =
    ping_no_certificate platform server client (codes "{}") 200 (5 ∷ []) no_certificates 0 probe_run
      answer_run accepted_run nothing_run
