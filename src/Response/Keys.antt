-- ===== src/Response/Keys.antt =====
-- internal/kmp/response.go: `normalizeKey`, `scalarString`, and the field names that are searched
-- for, with those of internal/kmp/client.go.
pub mod Order
use kmp_issuer.Base.{
  ℕ, Bool, true, false, ◌||◌, List, [], ◌∷◌, map, Option, none, some, ◌==◌, if◌then◌else◌, is_nil,
}
use kmp_issuer.Text.{Bytes, codes, Unicode, to_lower, trim_space, member}
use kmp_issuer.Text.Decimal.{format_int}
use kmp_issuer.Json.{Json, null, boolean, num, str, arr, obj, whole, fraction}

is_separator : ℕ → Bool
is_separator c = c == b'_' || c == b'-' || c == b' ' || c == b'.'

-- The loop of `normalizeKey`. The separators are ASCII, so the runes between them are copied byte
-- for byte: the keys of a decoded document are valid UTF-8.
drop_separators : Bytes → Bytes
unfolding is_separator
drop_separators [] = []
drop_separators (c ∷ s) = let rest = drop_separators s in if is_separator c then rest else c ∷ rest

unfoldable pub normalize_key : Unicode → Bytes → Bytes
unfolding drop_separators
normalize_key u k = drop_separators (to_lower u k)

-- The set `wanted` that the searches build from the names they are given.
unfoldable pub wanted_keys : Unicode → List Bytes → List Bytes
wanted_keys u keys = map (normalize_key u) keys

-- `_, ok := wanted[normalizeKey(key)]`
unfoldable pub is_wanted : Unicode → List Bytes → Bytes → Bool
is_wanted u wanted key = member (normalize_key u key) wanted

-- `json.Number` cannot occur: the decoder is not told to use it.
unfoldable pub scalar_string : Json → Option Bytes
scalar_string (str typed) = let s = trim_space typed in if is_nil s then none else some s
scalar_string (num (whole z)) = some (format_int z)
scalar_string (num (fraction text)) = some text
scalar_string (boolean true) = some (codes "true")
scalar_string (boolean false) = some (codes "false")
scalar_string null = none
scalar_string (arr items) = none
scalar_string (obj fields) = none

abbrev pub status_keys : List Bytes
status_keys = codes "status" ∷ codes "Status" ∷ codes "STATUS" ∷ codes "result" ∷ []

abbrev pub message_keys : List Bytes
message_keys =
    codes "message"
    ∷ codes "Message"
    ∷ codes "MESSAGE"
    ∷ codes "reason"
    ∷ codes "error"
    ∷ codes "errormessage"
    ∷ codes "error_message"
    ∷ []

abbrev pub csr_id_keys : List Bytes
csr_id_keys =
    codes "CSR_ID"
    ∷ codes "csrId"
    ∷ codes "csrID"
    ∷ codes "csrid"
    ∷ codes "certificateRequestId"
    ∷ codes "id"
    ∷ []

abbrev pub common_name_keys : List Bytes
common_name_keys =
    codes "commonName"
    ∷ codes "common_name"
    ∷ codes "CNAME"
    ∷ codes "cn"
    ∷ codes "subjectCommonName"
    ∷ []

abbrev pub serial_number_keys : List Bytes
serial_number_keys =
    codes "serialNumber" ∷ codes "serial_number" ∷ codes "serialNo" ∷ codes "serial" ∷ []

abbrev pub certificate_id_keys : List Bytes
certificate_id_keys =
    codes "Certificate_ID" ∷ codes "certificateId" ∷ codes "certificateID" ∷ codes "certId" ∷ []
