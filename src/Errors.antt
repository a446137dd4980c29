-- ===== src/Errors.antt =====
-- internal/kmp/errors.go: the errors of the client and their classification, with the sentinel
-- `ErrInvalidConfig` of internal/kmp/signer.go. An error is a value whose chain of wrapped errors
-- is its structure, since `errors.Is` and `errors.As` walk along that chain.
use kmp_issuer.Base.{
  ℕ, Bool, true, false, not, ◌&&◌, ◌||◌, List, [], ◌∷◌, ◌++◌, Option, none, some, ltb, leb, ◌==◌,
  if◌then◌else◌, is_nil, any, pos,
}
use kmp_issuer.Text.{Bytes, codes, Unicode, to_lower, contains}
use kmp_issuer.Text.Decimal.{format_int}

-- The fields of `Error` but for `Err`.
pub record ApiError : Type 0 where
  pub op : Bytes
  pub status_code : ℕ
  pub api_status : Bytes
  pub message : Bytes
  pub body : Bytes
  pub permanent : Bool

pub data GoError : Type 0 where
  -- `errors.New`, and `fmt.Errorf` without `%w`
  plain : Bytes → GoError
  -- `ErrInvalidConfig` and `ErrUnusableResponse`
  invalid_config unusable_response : GoError
  -- `fmt.Errorf` with one `%w` between two texts
  wrap : Bytes → GoError → Bytes → GoError
  -- `errors.Join` of two errors
  join : GoError → GoError → GoError
  -- `*Error`, with nil `Err` and with another
  api : ApiError → GoError
  api_caused : ApiError → GoError → GoError

-- What `errors.As` finds: the first `*Error` of the chain, with its `Err`.
pub record Found : Type 0 where
  pub call : ApiError
  pub cause : Option GoError

abbrev first_of_two : Option Found → Option Found → Option Found
first_of_two (some f) g = some f
first_of_two none g = g

unfoldable pub as_api : GoError → Option Found
as_api (plain s) = none
as_api invalid_config = none
as_api unusable_response = none
as_api (wrap p e s) = as_api e
as_api (join e f) = first_of_two (as_api e) (as_api f)
as_api (api c) = some (record { call = c; cause = none })
as_api (api_caused c e) = some (record { call = c; cause = some e })

-- `errors.Is(err, ErrInvalidConfig)`
unfoldable pub is_invalid_config : GoError → Bool
is_invalid_config (plain s) = false
is_invalid_config invalid_config = true
is_invalid_config unusable_response = false
is_invalid_config (wrap p e s) = is_invalid_config e
is_invalid_config (join e f) = is_invalid_config e || is_invalid_config f
is_invalid_config (api c) = false
is_invalid_config (api_caused c e) = is_invalid_config e

-- `errors.Is(err, ErrUnusableResponse)`
unfoldable pub is_unusable_response : GoError → Bool
is_unusable_response (plain s) = false
is_unusable_response invalid_config = false
is_unusable_response unusable_response = true
is_unusable_response (wrap p e s) = is_unusable_response e
is_unusable_response (join e f) = is_unusable_response e || is_unusable_response f
is_unusable_response (api c) = false
is_unusable_response (api_caused c e) = is_unusable_response e

unfoldable pub is_permanent : GoError → Bool
unfolding is_invalid_config is_unusable_response as_api
is_permanent e =
    if is_invalid_config e || is_unusable_response e
    then true
    else elim (as_api e) [ some f ↦ f.call.permanent | none ↦ false ]

-- Statuses 408 and 429 are `http.StatusRequestTimeout` and `http.StatusTooManyRequests`.
unfoldable pub permanent_status : ℕ → Bool
permanent_status code = if code == 408 || code == 429 then false else leb 400 code && ltb code 500

abbrev pub auth_failure_hints : List Bytes
auth_failure_hints =
    codes "authtoken"
    ∷ codes "auth token"
    ∷ codes "authentication failed"
    ∷ codes "invalid token"
    ∷ codes "unauthorized"
    ∷ codes "not authorized"
    ∷ codes "invalid user"
    ∷ []

-- Statuses 401 and 403 are `http.StatusUnauthorized` and `http.StatusForbidden`.
unfoldable pub is_auth_failure : Unicode → GoError → Bool
unfolding as_api
is_auth_failure u e = elim (as_api e) [
  | none ↦ false
  | some f ↦
      if f.call.status_code == 401 || f.call.status_code == 403
      then true
      else any (contains (to_lower u (f.call.message ++ codes " " ++ f.call.body)))
          auth_failure_hints
]

-- The text of an `*Error`, from that of its `Err`.
unfoldable pub api_text : Unicode → ApiError → Option Bytes → Bytes
unfolding format_int
api_text u e cause =
    codes "key manager plus: "
    ++ e.op
    ++ (if e.status_code == 0 then [] else codes ": http " ++ format_int (pos e.status_code))
    ++ (if is_nil e.api_status then [] else codes ": status " ++ Unicode.quote u e.api_status)
    ++ (if is_nil e.message then [] else codes ": " ++ e.message)
    ++ elim cause [
      | some text ↦ codes ": " ++ text
      | none ↦ if is_nil e.message && not (is_nil e.body) then codes ": " ++ e.body else []
    ]

-- `err.Error()`
unfoldable pub error_text : Unicode → GoError → Bytes
unfolding api_text
error_text u (plain s) = s
error_text u invalid_config = codes "invalid signing configuration"
error_text u unusable_response = codes "unusable response from key manager plus"
error_text u (wrap p e s) = p ++ error_text u e ++ s
error_text u (join e f) = error_text u e ++ codes "\n" ++ error_text u f
error_text u (api c) = api_text u c none
error_text u (api_caused c e) = api_text u c (some (error_text u e))
