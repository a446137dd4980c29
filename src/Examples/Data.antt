-- ===== src/Examples/Data.antt =====
-- The small world: chains, documents, names and numbers.
use kmp_issuer.Base.{
  In, [], arith, false, here, is_nil, none, ok, pos, refl, some, true, ℕ, ◌∷◌, ◌≡◌, ◌≢◌, ◌≤◌,
}
use kmp_issuer.Chain.Build.{
  Bundle, build_bundle, chain_above, climb, encode_certificates, find_key, find_leaf, is_issuer,
  is_self_signed, others, pop_issuer,
}
use kmp_issuer.Chain.Build.Bundles.{
  IsChainBundle, build_bundle-IsChainBundle, build_bundle-key_equal, chain_above-AllDiffer,
}
use kmp_issuer.Chain.Build.Climb.{AllDiffer}
use kmp_issuer.Chain.Extract.{
  add, add_all, certificates_from_strings, compact_text, parse_block, parse_blocks,
  parse_pem_certificates, scan_value, scan_values,
}
use kmp_issuer.Chain.Extract.Distinct.{certificates_from_strings-AllDiffer}
use kmp_issuer.Chain.Extract.Fuel.{parse_blocks_fuel}
use kmp_issuer.Errors.{error_text}
use kmp_issuer.Examples.World.{
  certificates_text, csr, escrowed, key_platform, leaf, list_doc, plain_unicode, platform,
  record_fields, root, shorter,
}
use kmp_issuer.Json.{Fields, Json, end, field, num, obj, str, whole}
use kmp_issuer.Json.Order.{SameDoc, same_obj, swap}
use kmp_issuer.PrivateKey.Export.{
  EscrowedKey, encode_key, export_candidates, first_key, parse_exported_private_key, try_candidate,
}
use kmp_issuer.PrivateKey.Export.Choice.{KeyIn, IsEncoding, parse_exported-KeyIn}
use kmp_issuer.PrivateKey.Pem.{
  Key, block_der, find_block, next_block, parse_der_private_key, parse_pem_private_key,
  parse_private_key_candidate, read_block,
}
use kmp_issuer.Provision.{ProvisionRequest}
use kmp_issuer.Provision.Covered.{CoversProvisioned, verify_provisioned_names_iff}
use kmp_issuer.Provision.Names.{verify_provisioned_names}
use kmp_issuer.Response.Collect.{collect_strings}
use kmp_issuer.Response.Collect.Order.{collect_strings-SameDoc}
use kmp_issuer.Response.Find.{find_string}
use kmp_issuer.Response.Find.Order.{
  IsClear, IsClearItems, find_string-SameDoc, find_string_ambiguous, hit, hits,
}
use kmp_issuer.Response.Identify.{
  find_id_for_common_name, offer, offer_ids, offer_parsed, record_matches, run_all, walk_items,
}
use kmp_issuer.Response.Identify.Candidates.{candidates, matched_ids, own_ids}
use kmp_issuer.Response.Identify.Records.{IsRecordOf, find_id-IsRecordOf}
use kmp_issuer.Response.Identify.Winner.{find_id_highest, ids_of}
use kmp_issuer.Response.Keys.{
  common_name_keys, csr_id_keys, is_wanted, normalize_key, scalar_string, status_keys, wanted_keys,
}
use kmp_issuer.Response.Status.{parse_response}
use kmp_issuer.Text.{
  Bytes, codes, contains, equal_fold, has_prefix, member, str_eq, str_eq-eq-false, to_lower,
  trim_space,
}
use kmp_issuer.Text.Decimal.{parse_int}
use kmp_issuer.Text.Order.{sort_by_key, text_le}
use kmp_issuer.Verify.{verify_requested_names}
use kmp_issuer.Verify.Laws.{Covers, verify_requested_names_iff}
use kmp_issuer.X509.{Certificate, PublicKey, comparable, key_equal}
use mathlib.Core.Logic.{◌↔◌}

abbrev bundle : Bundle
bundle = record { chain_pem = codes "lr"; leaf = leaf }

abbrev leaf_key : PublicKey
leaf_key = comparable (codes "l")

build_run : build_bundle platform (root ∷ leaf ∷ []) (some leaf_key) ≡ ok bundle
unfolding build_bundle chain_above climb encode_certificates equal_fold find_key find_leaf is_issuer
    is_self_signed key_equal others pop_issuer
build_run = refl

build_bundle-IsChainBundle_example : IsChainBundle platform (root ∷ leaf ∷ []) bundle
build_bundle-IsChainBundle_example =
    build_bundle-IsChainBundle platform (root ∷ leaf ∷ []) (some leaf_key) bundle build_run

build_bundle-key_equal_example :
    ((c : Certificate)
      → In c (root ∷ leaf ∷ [])
      → key_equal (codes "l") c.public_key ≡ true
      → (b : Bundle) × (build_bundle platform (root ∷ leaf ∷ []) (some leaf_key) ≡ ok b))
    × ((b : Bundle)
        → build_bundle platform (root ∷ leaf ∷ []) (some leaf_key) ≡ ok b
        → In b.leaf (root ∷ leaf ∷ []) × (key_equal (codes "l") b.leaf.public_key ≡ true))
build_bundle-key_equal_example = build_bundle-key_equal platform (root ∷ leaf ∷ []) (codes "l")

bytes_differ : codes "l" ≢ codes "r"
unfolding str_eq
bytes_differ = str_eq-eq-false (codes "l") (codes "r") refl

two_differ : AllDiffer (leaf ∷ root ∷ [])
two_differ = ((bytes_differ, tt), (tt, tt))

chain_above-AllDiffer_example : AllDiffer (leaf ∷ chain_above platform leaf (leaf ∷ root ∷ []))
chain_above-AllDiffer_example = chain_above-AllDiffer platform leaf (leaf ∷ root ∷ []) two_differ

extract_run :
    certificates_from_strings platform (certificates_text ∷ certificates_text ∷ [])
    ≡ ok (leaf ∷ root ∷ [])
unfolding add add_all certificates_from_strings contains member parse_block parse_blocks
    parse_pem_certificates scan_value scan_values
extract_run = refl

certificates_from_strings-AllDiffer_example : AllDiffer (leaf ∷ root ∷ [])
certificates_from_strings-AllDiffer_example =
    certificates_from_strings-AllDiffer platform (certificates_text ∷ certificates_text ∷ [])
      (leaf ∷ root ∷ []) extract_run

parse_blocks_fuel_example :
    parse_blocks platform 4 (codes "l-r") ≡ parse_blocks platform 9 (codes "l-r")
parse_blocks_fuel_example =
    parse_blocks_fuel platform shorter 4 9 (codes "l-r") (ground arith) (ground arith)

abbrev exported_key : EscrowedKey
exported_key = record { key = escrowed; pem = codes "k" }

export_run :
    parse_exported_private_key platform key_platform (6 ∷ []) (codes "secret") ≡ ok exported_key
unfolding parse_exported_private_key export_candidates first_key try_candidate encode_key
    parse_private_key_candidate parse_pem_private_key find_block next_block read_block block_der
    parse_der_private_key contains has_prefix collect_strings parse_response compact_text str_eq
export_run = refl

parse_exported-KeyIn_example :
    (parse_exported_private_key platform key_platform (6 ∷ []) (codes "secret") ≡ ok exported_key)
    ↔ ((is_nil {A = ℕ} (6 ∷ []) ≡ false)
        × ((key : Key) × KeyIn platform key_platform (codes "secret") (6 ∷ []) key
            × IsEncoding platform key_platform (codes "secret") key exported_key))
parse_exported-KeyIn_example =
    parse_exported-KeyIn platform key_platform (codes "secret") (6 ∷ []) exported_key

found_run :
    find_id_for_common_name plain_unicode list_doc (codes "A.B") csr_id_keys common_name_keys
    ≡ some (codes "7")
unfolding equal_fold error_text find_id_for_common_name is_wanted member normalize_key offer
    offer_ids offer_parsed parse_int record_matches run_all scalar_string sort_by_key text_le
    to_lower trim_space walk_items wanted_keys
found_run = refl

find_id-IsRecordOf_example :
    IsRecordOf plain_unicode
      (wanted_keys plain_unicode csr_id_keys)
      (wanted_keys plain_unicode common_name_keys)
      (codes "A.B")
      (codes "7")
      list_doc
find_id-IsRecordOf_example =
    find_id-IsRecordOf plain_unicode list_doc (codes "A.B") csr_id_keys common_name_keys (codes "7")
      found_run

three_listed :
    In (codes "3") (ids_of plain_unicode list_doc (codes "A.B") csr_id_keys common_name_keys)
unfolding candidates equal_fold error_text is_wanted matched_ids member normalize_key own_ids
    record_matches scalar_string to_lower trim_space wanted_keys
three_listed = here refl

three_parsed : parse_int (codes "3") ≡ some (pos 3)
unfolding parse_int
three_parsed = refl

find_id_highest_example :
    (best : Bytes) × (w : ℕ) × (find_id_for_common_name plain_unicode list_doc
        (codes "A.B")
        csr_id_keys
        common_name_keys
      ≡ some best)
    × In best (ids_of plain_unicode list_doc (codes "A.B") csr_id_keys common_name_keys)
    × (parse_int best ≡ some (pos w))
    × (3 ≤ w)
find_id_highest_example =
    find_id_highest plain_unicode list_doc (codes "A.B") csr_id_keys common_name_keys (codes "3") 3
      refl three_listed three_parsed

verify_requested_names_iff_example :
    (verify_requested_names platform csr leaf ≡ ok tt) ↔ Covers platform csr leaf
verify_requested_names_iff_example = verify_requested_names_iff platform csr leaf

abbrev key_request : ProvisionRequest
key_request = record {
  common_name = codes "A.b";
  alt_names = codes " a.b " ∷ codes " " ∷ codes "1.2.3.4" ∷ [];
  organization = [];
  organizational_unit = [];
  location = [];
  state = [];
  country = [];
  key_algorithm = codes "RSA";
  key_length = pos 2048;
  signature_algorithm = [];
  store_type = [];
  validity_type = [];
  validity_days = none;
  password = codes "secret";
  export_file_type = [];
}

verify_provisioned_names_iff_example :
    (verify_provisioned_names platform key_request leaf ≡ ok tt)
    ↔ CoversProvisioned platform key_request leaf
verify_provisioned_names_iff_example = verify_provisioned_names_iff platform key_request leaf

abbrev turned_fields : Fields
turned_fields =
    field (codes "CSR_ID") (num (whole (pos 3)))
      (field (codes "commonName") (str (codes "a.b")) end)

keys_differ : codes "commonName" ≢ codes "CSR_ID"
unfolding str_eq
keys_differ = str_eq-eq-false (codes "commonName") (codes "CSR_ID") refl

turned : SameDoc (obj (record_fields 3)) (obj turned_fields)
turned = same_obj (swap keys_differ)

collect_strings-SameDoc_example :
    collect_strings (obj (record_fields 3)) ≡ collect_strings (obj turned_fields)
collect_strings-SameDoc_example = collect_strings-SameDoc turned

one_answer : IsClear plain_unicode (wanted_keys plain_unicode csr_id_keys) (obj (record_fields 3))
unfolding IsClearItems hit hits is_wanted member normalize_key to_lower wanted_keys
one_answer = (ground arith, (tt, (tt, tt)))

find_string-SameDoc_example :
    find_string plain_unicode (obj (record_fields 3)) csr_id_keys
    ≡ find_string plain_unicode (obj turned_fields) csr_id_keys
find_string-SameDoc_example = find_string-SameDoc plain_unicode csr_id_keys turned one_answer

statuses_differ : codes "status" ≢ codes "result"
unfolding str_eq
statuses_differ = str_eq-eq-false (codes "status") (codes "result") refl

status_wanted :
    is_wanted plain_unicode (wanted_keys plain_unicode status_keys) (codes "status") ≡ true
unfolding is_wanted member normalize_key to_lower wanted_keys
status_wanted = refl

result_wanted :
    is_wanted plain_unicode (wanted_keys plain_unicode status_keys) (codes "result") ≡ true
unfolding is_wanted member normalize_key to_lower wanted_keys
result_wanted = refl

yes_read : scalar_string (str (codes "ok")) ≡ some (codes "ok")
unfolding scalar_string trim_space
yes_read = refl

no_read : scalar_string (str (codes "failed")) ≡ some (codes "failed")
unfolding scalar_string trim_space
no_read = refl

abbrev good_first : Json
good_first =
    obj (
      field (codes "status") (str (codes "ok")) (field (codes "result") (str (codes "failed")) end))

abbrev bad_first : Json
bad_first =
    obj (
      field (codes "result") (str (codes "failed")) (field (codes "status") (str (codes "ok")) end))

find_string_ambiguous_example :
    SameDoc good_first bad_first
    × (find_string plain_unicode good_first status_keys ≡ some (codes "ok"))
    × (find_string plain_unicode bad_first status_keys ≡ some (codes "failed"))
find_string_ambiguous_example =
    find_string_ambiguous plain_unicode status_keys (codes "status") (codes "result")
      (str (codes "ok")) (str (codes "failed")) end (codes "ok") (codes "failed") statuses_differ
      status_wanted result_wanted yes_read no_read
