-- ===== src/Client/Config/Accepted.antt =====
-- The configurations that `NewClient` accepts.
use kmp_issuer.Base.{
  ◌≡◌, refl, sym, ◌∙◌, ap, subst, inl, inr, Bool, true, false, not, ◌&&◌, ◌⊎◌, [], Option, none,
  some, Result, ok, err, map_err, err-ne-ok, ok-injective, >>=-eq-ok, Bool-cases, if◌then◌else◌,
  is_nil,
}
use mathlib.Core.Bool.{false≢true}
use kmp_issuer.Text.{Bytes, codes, Unicode, str_eq, str_eq_iff, trim_space}
use kmp_issuer.Errors.{GoError, plain, wrap}
use kmp_issuer.Client.Call.{Url, Transport, given, over_tls, Client}
use kmp_issuer.Client.Call.Runs.{map_err-eq-ok}
use kmp_issuer.Client.Config.{
  Config, Net, timeout_or_default, checked_url, tls_transport, transport_of, new_client,
}

-- The transport of a configuration: the one that is given, or one over TLS with the roots of its
-- bundle, which has certificates, or those of the system where there is no bundle.
pub data IsTransportOf (n : Net) (cfg : Config) : Transport → Type 0 where
  given_one : (name : Bytes) → cfg.transport ≡ some name → IsTransportOf n cfg (given name)
  system_roots :
      cfg.transport ≡ none
      → is_nil cfg.ca_bundle ≡ true
      → IsTransportOf n cfg (over_tls cfg.insecure_skip_tls_verify none)
  own_roots :
      cfg.transport ≡ none
      → is_nil cfg.ca_bundle ≡ false
      → Net.append_certs n cfg.ca_bundle ≡ true
      → IsTransportOf n cfg (over_tls cfg.insecure_skip_tls_verify (some cfg.ca_bundle))

-- A client for a configuration: its URL, without space around it, is parsed, with the scheme http
-- or https and a host, its token is not empty, and its timeout is the one that is set, if that is
-- positive, or else 30 seconds.
pub record IsClientOf (n : Net) (cfg : Config) (c : Client) : Type 0 where
  pub url : is_nil (trim_space cfg.base_url) ≡ false
  pub parsed : Net.parse_url n (trim_space cfg.base_url) ≡ ok c.base_url
  pub scheme : (c.base_url.scheme ≡ codes "http") ⊎ (c.base_url.scheme ≡ codes "https")
  pub host : is_nil c.base_url.host ≡ false
  pub token : c.auth_token ≡ trim_space cfg.auth_token
  pub token_full : is_nil c.auth_token ≡ false
  pub transport : IsTransportOf n cfg c.transport
  pub timeout : c.timeout ≡ timeout_or_default cfg.timeout
  pub user_agent : c.user_agent ≡ cfg.user_agent

guard_false :
    {A : Type 0} (test : Bool) (e : GoError) (r : Result GoError A) {a : A}
    → (if test then err e else r) ≡ ok a
    → (test ≡ false) × (r ≡ ok a)
guard_false true e r h = absurd (err-ne-ok h)
guard_false false e r h = (refl, h)

one_of_two : (a b : Bool) → (not a && not b) ≡ false → (a ≡ true) ⊎ (b ≡ true)
one_of_two true b h = inl refl
one_of_two false true h = inr refl
one_of_two false false h = absurd (false≢true (sym h))

checked_url-eq-ok :
    (u : Unicode) (cfg : Config) (parsed url : Url)
    → checked_url u cfg parsed ≡ ok url
    → ((parsed.scheme ≡ codes "http") ⊎ (parsed.scheme ≡ codes "https"))
      × (is_nil parsed.host ≡ false)
      × (is_nil (trim_space cfg.auth_token) ≡ false)
      × (parsed ≡ url)
unfolding checked_url
checked_url-eq-ok u cfg parsed url h =
    let (scheme, h₁) =
      guard_false
        (not (str_eq parsed.scheme (codes "http")) && not (str_eq parsed.scheme (codes "https"))) _
        _ h in
    let (host, h₂) = guard_false (is_nil parsed.host) _ _ h₁ in
    let (token, h₃) = guard_false (is_nil (trim_space cfg.auth_token)) _ _ h₂ in
    (
      elim (one_of_two (str_eq parsed.scheme (codes "http")) (str_eq parsed.scheme (codes "https"))
          scheme) [ inl e ↦ inl ((str_eq_iff _ _).0 e) | inr e ↦ inr ((str_eq_iff _ _).0 e) ],
      host,
      token,
      ok-injective h₃,
    )

tls_transport-IsTransportOf :
    (n : Net) (cfg : Config) (t : Transport)
    → cfg.transport ≡ none
    → tls_transport n cfg ≡ ok t
    → IsTransportOf n cfg t
unfolding tls_transport
tls_transport-IsTransportOf n cfg t absent h = elim (Bool-cases (is_nil cfg.ca_bundle)) [
  | inl bare ↦
      subst (IsTransportOf n cfg) (ok-injective (rw (tls_transport, bare) at h))
        (system_roots absent bare)
  | inr full ↦ elim (Bool-cases (Net.append_certs n cfg.ca_bundle)) [
    | inl good ↦
        subst (IsTransportOf n cfg) (ok-injective (rw (tls_transport, full, good) at h))
          (own_roots absent full good)
    | inr bad ↦ absurd (err-ne-ok (rw (tls_transport, full, bad) at h))
  ]
]

transport_of-IsTransportOf :
    (n : Net) (cfg : Config) (o : Option Bytes) (t : Transport)
    → cfg.transport ≡ o
    → transport_of n cfg o ≡ ok t
    → IsTransportOf n cfg t
transport_of-IsTransportOf n cfg (some name) t e h =
    subst (IsTransportOf n cfg) (ok-injective h) (given_one name e)
transport_of-IsTransportOf n cfg none t e h = tls_transport-IsTransportOf n cfg t e h

-- If `NewClient` returns a client, the client is one for the configuration: the URL is parsed and
-- has the scheme http or https and a host, the token is not empty, the transport is the one that is
-- given or one over TLS with the roots of the bundle, and the timeout is the one that is set, if that
-- is positive, or else 30 seconds.
pub new_client-IsClientOf :
    (u : Unicode) (n : Net) (cfg : Config) (c : Client)
    → new_client u n cfg ≡ ok c
    → IsClientOf n cfg c
unfolding new_client
new_client-IsClientOf u n cfg c h =
    let (url, h₁) = guard_false (is_nil (trim_space cfg.base_url)) _ _ h in
    let (parsed, got, h₂) =
      >>=-eq-ok
        (map_err (λ e. wrap (codes "parsing key manager plus URL: ") (plain e) [])
          (Net.parse_url n (trim_space cfg.base_url)))
        _ h₁ in
    let (base_url, checked, h₃) = >>=-eq-ok (checked_url u cfg parsed) _ h₂ in
    let (transport, carried, h₄) = >>=-eq-ok (transport_of n cfg cfg.transport) _ h₃ in
    let (scheme, host, token, same) = checked_url-eq-ok u cfg parsed base_url checked in
    subst (IsClientOf n cfg) (ok-injective h₄) (record {
      url = url;
      parsed = map_err-eq-ok _ (Net.parse_url n (trim_space cfg.base_url)) got ∙ ap ok same;
      scheme = subst (λ x. (x.scheme ≡ codes "http") ⊎ (x.scheme ≡ codes "https")) same scheme;
      host = ap (λ x. is_nil x.host) (sym same) ∙ host;
      token = refl;
      token_full = token;
      transport = transport_of-IsTransportOf n cfg cfg.transport transport refl carried;
      timeout = refl;
      user_agent = refl;
    })
