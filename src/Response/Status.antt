-- ===== src/Response/Status.antt =====
-- internal/kmp/response.go: `parseResponse`, the outcome that a response reports, and `truncate`.
pub mod Bounds
use kmp_issuer.Base.{
  ℕ, Bool, true, false, not, ◌||◌, List, [], ◌∷◌, ◌++◌, Option, none, some, leb, if◌then◌else◌,
  length, take, is_nil, any, Result, ok, err, map_err,
}
use kmp_issuer.Text.{Bytes, codes, Unicode, to_lower, trim_space, contains, str_eq, member}
use kmp_issuer.Json.{Json}
use kmp_issuer.Response.Keys.{status_keys, message_keys}
use kmp_issuer.Response.Find.{find_string}

-- The `response` of the source. A nil response does not occur: `parseResponse` returns one or fails.
pub record Response : Type 0 where
  pub doc : Json
  pub body : Bytes

abbrev pub max_recorded_body : ℕ
max_recorded_body = 2048

unfoldable pub truncate : Bytes → ℕ → Bytes
truncate text max =
    let s = trim_space text in
    if leb (length s) max then s else take max s ++ codes "... (truncated)"

unfoldable pub truncated_body : Response → Bytes
truncated_body r = truncate r.body max_recorded_body

-- `json.Unmarshal`, with the text of its error.
abbrev pub Unmarshal : Type 0
Unmarshal = Bytes → Result Bytes Json

-- The error is its text.
unfoldable pub parse_response : Unmarshal → Bytes → Result Bytes Response
parse_response unmarshal body = elim (unmarshal body) [
  | ok doc ↦ ok (record { doc = doc; body = body })
  | err e ↦ err (codes "decoding response body as JSON: " ++ e)
]

-- The first result of `findString`, whose zero value is the empty text.
abbrev pub or_empty : Option Bytes → Bytes
or_empty none = []
or_empty (some s) = s

abbrev pub failure_hints : List Bytes
failure_hints =
    codes "failed"
    ∷ codes "failure"
    ∷ codes "error"
    ∷ codes "invalid"
    ∷ codes "not found"
    ∷ codes "denied"
    ∷ codes "unable to"
    ∷ []

abbrev pub success_words : List Bytes
success_words = codes "success" ∷ codes "successful" ∷ codes "ok" ∷ codes "true" ∷ codes "200" ∷ []

module _ (u : Unicode) where
  unfoldable pub status : Response → Bytes
  status r = or_empty (find_string u r.doc status_keys)

  unfoldable pub message : Response → Bytes
  message r = or_empty (find_string u r.doc message_keys)

  unfoldable pub has_failure_message : Response → Bool
  has_failure_message r =
      let msg = to_lower u (message r) in
      if is_nil msg then false else any (contains msg) failure_hints

  unfoldable pub succeeded : Response → Bool
  succeeded r =
      let status_word = trim_space (to_lower u (status r)) in
      if is_nil status_word then not (has_failure_message r) else member status_word success_words
