-- ===== src/Client/Config.antt =====
-- internal/kmp/client.go: `Config` and `NewClient`.
pub mod Accepted
use kmp_issuer.Base.{
  ℕ, ◌*◌, Bool, true, false, not, ◌&&◌, List, [], ◌∷◌, ◌++◌, Option, none, some, Result, ok, err,
  ◌>>=◌, map_err, if◌then◌else◌, is_nil, ℤ, pos, ltz,
}
use kmp_issuer.Text.{Bytes, codes, Unicode, str_eq, trim_space}
use kmp_issuer.Errors.{GoError, plain, wrap}
use kmp_issuer.Client.Call.{Url, Transport, given, over_tls, Client}

-- The transport of tests is given by its name. The timeout is in nanoseconds.
pub record Config : Type 0 where
  pub base_url : Bytes
  pub auth_token : Bytes
  pub ca_bundle : Bytes
  pub insecure_skip_tls_verify : Bool
  pub timeout : ℤ
  pub user_agent : Bytes
  pub transport : Option Bytes

-- The functions of `net/url` and `crypto/x509` that `NewClient` calls.
pub record Net : Type 0 where
  -- `url.Parse`, with the text of its error.
  pub parse_url : Bytes → Result Bytes Url
  -- `pool.AppendCertsFromPEM`, for a pool that is empty.
  pub append_certs : Bytes → Bool

abbrev pub default_timeout : ℕ
default_timeout = 30 * 1000000000

-- `if timeout <= 0 { timeout = defaultTimeout }`
abbrev pub timeout_or_default : ℤ → ℤ
timeout_or_default timeout = if ltz (pos 0) timeout then timeout else pos default_timeout

abbrev pub quoted_url : Unicode → Bytes → Bytes → GoError
quoted_url u url rest = plain (codes "key manager plus URL " ++ Unicode.quote u url ++ rest)

-- The tests of the parsed URL.
unfoldable pub checked_url : Unicode → Config → Url → Result GoError Url
checked_url u cfg parsed =
    if not (str_eq parsed.scheme (codes "http")) && not (str_eq parsed.scheme (codes "https"))
    then err (quoted_url u cfg.base_url (codes " must use http or https"))
    else if is_nil parsed.host
    then err (quoted_url u cfg.base_url (codes " has no host"))
    else if is_nil (trim_space cfg.auth_token)
    then err (plain (codes "key manager plus auth token is empty"))
    else ok parsed

unfoldable pub tls_transport : Net → Config → Result GoError Transport
tls_transport n cfg =
    if is_nil cfg.ca_bundle
    then ok (over_tls cfg.insecure_skip_tls_verify none)
    else if Net.append_certs n cfg.ca_bundle
    then ok (over_tls cfg.insecure_skip_tls_verify (some cfg.ca_bundle))
    else err (plain (codes "no certificates found in the configured CA bundle"))

abbrev pub transport_of : Net → Config → Option Bytes → Result GoError Transport
transport_of n cfg (some name) = ok (given name)
transport_of n cfg none = tls_transport n cfg

unfoldable pub new_client : Unicode → Net → Config → Result GoError Client
new_client u n cfg =
    if is_nil (trim_space cfg.base_url)
    then err (plain (codes "key manager plus URL is empty"))
    else (do
      parsed ←
          map_err (λ e. wrap (codes "parsing key manager plus URL: ") (plain e) [])
            (Net.parse_url n (trim_space cfg.base_url))
      base_url ← checked_url u cfg parsed
      transport ← transport_of n cfg cfg.transport
      ok (record {
        base_url = base_url;
        auth_token = trim_space cfg.auth_token;
        transport = transport;
        timeout = timeout_or_default cfg.timeout;
        user_agent = cfg.user_agent;
      }))
