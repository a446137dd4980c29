-- ===== src/Client/Call.antt =====
-- internal/kmp/client.go: `endpoint`, `inputData`, `do`, `call` and `callRaw`.
pub mod Accepted
pub mod Outcome
pub mod Permanent
pub mod Runs
use kmp_issuer.Base.{
  ℕ, ◌*◌, Bool, true, false, not, ◌&&◌, ◌||◌, List, [], ◌∷◌, ◌++◌, Option, none, some, Result, ok,
  err, map_err, ltb, leb, if◌then◌else◌, is_nil, take, ℤ,
}
use kmp_issuer.Text.{Bytes, codes, Unicode}
use kmp_issuer.Json.{Json, obj, Fields, end, field}
use kmp_issuer.X509.{Platform}
use kmp_issuer.Errors.{ApiError, GoError, plain, wrap, api, api_caused, permanent_status}
use kmp_issuer.Response.Status.{
  Response, truncate, truncated_body, max_recorded_body, parse_response, status, message, succeeded,
}

pub data Method : Type 0 where
  get post : Method

-- The parts of the multipart body of `ImportCSR`. Writing them to a buffer does not fail.
pub record Form : Type 0 where
  pub csr_file : Bytes
  pub input_data_field : Bytes

-- A `url.URL` without its query, which `endpoint` replaces. The user information is its text.
pub record Url : Type 0 where
  pub scheme : Bytes
  pub opaque_part : Bytes
  pub user : Option Bytes
  pub host : Bytes
  pub path : Bytes
  pub raw_path : Bytes
  pub force_query : Bool
  pub fragment : Bytes
  pub raw_fragment : Bytes

-- A request as `do` builds it. Its URL is the base URL with another path and another query: the
-- path is given by the parts that `path.Join` joins, the query by
-- the value of INPUT_DATA, its one parameter. A header that is empty is not set.
pub record HttpRequest : Type 0 where
  pub method : Method
  pub base_url : Url
  pub path : List Bytes
  pub query : Option Bytes
  pub body : Option Form
  pub auth_token : Bytes
  pub accept : Bytes
  pub content_type : Bytes
  pub user_agent : Bytes

-- What becomes of a request: `http.NewRequestWithContext` refuses it, it is not answered, the
-- answer breaks off, or the status and the body are read. Errors are their texts.
pub data Exchange : Type 0 where
  not_built : Bytes → Exchange
  not_answered : Bytes → Exchange
  broken_off : ℕ → Bytes → Exchange
  answered : ℕ → Bytes → Exchange

-- The server and the network, from state to state.
pub record Server : Type 1 where
  pub State : Type 0
  pub exchange : HttpRequest → State → Exchange × State

-- What carries the requests: a transport that the configuration gives, by its name, or one over TLS
-- 1.2 or later, with the PEM bundle of its roots where the system's are not used.
pub data Transport : Type 0 where
  given : Bytes → Transport
  over_tls : Bool → Option Bytes → Transport

-- The fields of `Client`, with those of its `http.Client`. The timeout is in nanoseconds.
pub record Client : Type 0 where
  pub base_url : Url
  pub auth_token : Bytes
  pub transport : Transport
  pub timeout : ℤ
  pub user_agent : Bytes

abbrev pub api_base_path : Bytes
api_base_path = codes "/api/pki/restapi"

abbrev pub max_response_bytes : ℕ
max_response_bytes = 8 * 1048576

-- `io.ReadAll(io.LimitReader(body, maxResponseBytes))`
unfoldable pub limited : Bytes → Bytes
limited body = take max_response_bytes body

-- An `*Error` of which only these fields are set.
abbrev pub failure : Bytes → ℕ → Bool → ApiError
failure op code permanent = record {
  op = op;
  status_code = code;
  api_status = [];
  message = [];
  body = [];
  permanent = permanent;
}

unfoldable pub input_data : Platform → Fields → Result GoError Bytes
input_data p details =
    elim (Platform.marshal p
      (obj (field (codes "operation") (obj (field (codes "Details") (obj details) end)) end))) [
        | err e ↦ err (wrap (codes "encoding INPUT_DATA: ") (plain e) [])
        | ok encoded ↦ ok encoded
      ]

abbrev pub is_success : ℕ → Bool
is_success code = not (ltb code 200 || ltb 299 code)

module _ (p : Platform) where
  -- `APIStatus` and `Message`, where the body is a document.
  abbrev pub reported : Result Bytes Response → ApiError → ApiError
  reported (ok parsed) e = record e {
    api_status = status (Platform.unicode p) parsed;
    message = message (Platform.unicode p) parsed;
  }
  reported (err _) e = e

  -- The error of a response that reports failure.
  abbrev pub rejection : Bytes → ℕ → Response → GoError
  rejection op code parsed = api (record {
    op = op;
    status_code = code;
    api_status = status (Platform.unicode p) parsed;
    message = message (Platform.unicode p) parsed;
    body = truncated_body parsed;
    permanent = true;
  })

  -- The error of a status that is not 2xx.
  abbrev pub refusal : Bytes → ℕ → Bytes → GoError
  refusal op code raw = api (
      reported (parse_response (Platform.unmarshal p) raw) (record {
        op = op;
        status_code = code;
        api_status = [];
        message = [];
        body = truncate raw max_recorded_body;
        permanent = permanent_status code;
      }))

  -- What `call` makes of a status and a body.
  unfoldable pub call_result : Bytes → ℕ → Bytes → Result GoError Response
  call_result op code raw =
      if not (is_success code)
      then err (refusal op code raw)
      else elim (parse_response (Platform.unmarshal p) raw) [
        | err parse_err ↦ err (
            api_caused (record (failure op code true) { body = truncate raw max_recorded_body })
              (plain parse_err))
        | ok parsed ↦
            if not (succeeded (Platform.unicode p) parsed)
            then err (rejection op code parsed)
            else ok parsed
      ]

  -- `parsed, parseErr := parseResponse(raw); parseErr == nil && !parsed.succeeded()`
  abbrev pub reports_failure : Result Bytes Response → Bool
  reports_failure (ok parsed) = not (succeeded (Platform.unicode p) parsed)
  reports_failure (err _) = false

  abbrev pub rejection_of : Bytes → ℕ → Result Bytes Response → GoError
  rejection_of op code (ok parsed) = rejection op code parsed
  rejection_of op code (err e) = plain e

  -- What `callRaw` makes of a status and a body.
  unfoldable pub call_raw_result : Bytes → ℕ → Bytes → Result GoError Bytes
  call_raw_result op code raw =
      if not (is_success code)
      then err (refusal op code raw)
      else (let parsed = parse_response (Platform.unmarshal p) raw in
          if reports_failure parsed
          then err (rejection_of op code parsed)
          else if is_nil raw
          then err (api_caused (failure op code false) (plain (codes "the response is empty")))
          else ok raw)

-- A program that talks to the server: its result and the state that it leaves.
abbrev pub Run : Type 0 → Type 0 → Type 0
Run S A = S → Result GoError A × S

-- `if err != nil { return nil, err }` between two steps.
abbrev pub continue : {S A B : Type 0} → Result GoError A → (A → Run S B) → Run S B
continue (ok a) f t = f a t
continue (err e) f t = (err e, t)

infixl 5 ◌>>=◌
abbrev pub ◌>>=◌ : {S A B : Type 0} → Run S A → (A → Run S B) → Run S B
◌>>=◌ m f s = let (r, t) = m s in continue r f t

abbrev pub return : {S A : Type 0} → A → Run S A
return a s = (ok a, s)

abbrev pub throw : {S A : Type 0} → GoError → Run S A
throw e s = (err e, s)

-- A step that does not talk to the server.
abbrev pub lift : {S A : Type 0} → Result GoError A → Run S A
lift r s = (r, s)

-- `return nil, wrap(err)`
abbrev pub map_error : {S A : Type 0} → (GoError → GoError) → Run S A → Run S A
map_error f m s = let (r, t) = m s in (map_err f r, t)

module _ (p : Platform) (srv : Server) (c : Client) where
  -- The request that `do` builds.
  unfoldable pub request_of : Method → Bytes → Option Bytes → Option Form → Bytes → HttpRequest
  request_of method op query body content_type = record {
    method = method;
    base_url = c.base_url;
    path = c.base_url.path ∷ api_base_path ∷ op ∷ [];
    query = query;
    body = body;
    auth_token = c.auth_token;
    accept = codes "application/json";
    content_type = content_type;
    user_agent = c.user_agent;
  }

  abbrev pub read_exchange : Bytes → Exchange → Result GoError (ℕ × Bytes)
  read_exchange op (not_built e) =
      err (api_caused (failure op 0 true) (wrap (codes "building request: ") (plain e) []))
  read_exchange op (not_answered e) = err (api_caused (failure op 0 false) (plain e))
  read_exchange op (broken_off code e) =
      err (api_caused (failure op code false) (wrap (codes "reading response: ") (plain e) []))
  read_exchange op (answered code body) = ok (code, limited body)

  unfoldable pub do_request :
      Method → Bytes → Option Bytes → Option Form → Bytes → Run (Server.State srv) (ℕ × Bytes)
  do_request method op query body content_type s =
      let (answer, t) = Server.exchange srv (request_of method op query body content_type) s in
      (read_exchange op answer, t)

  unfoldable pub call :
      Method → Bytes → Option Bytes → Option Form → Bytes → Run (Server.State srv) Response
  call method op query body content_type = do
    (code, raw) ← do_request method op query body content_type
    lift (call_result p op code raw)

  unfoldable pub call_raw : Method → Bytes → Option Bytes → Run (Server.State srv) Bytes
  call_raw method op query = do
    (code, raw) ← do_request method op query none []
    lift (call_raw_result p op code raw)
