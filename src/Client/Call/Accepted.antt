-- ===== src/Client/Call/Accepted.antt =====
-- Which answers `call` accepts.
use kmp_issuer.Base.{
  ℕ, ◌*◌, ◌≤◌, ◌≡◌, sym, ap, ◌∙◌, ◌↔◌, true, take, inl, inr, Option, ok, err-ne-ok, ok-injective,
  Result-cases, arith,
}
use kmp_issuer.Text.{Bytes}
use kmp_issuer.X509.{Platform}
use kmp_issuer.Response.Status.{Response, parse_response, succeeded}
use kmp_issuer.Client.Call.{
  Method, Form, Exchange, answered, Server, Client, limited, is_success, request_of, call,
}
use kmp_issuer.Client.Call.Outcome.{call_result-eq-ok}
use kmp_issuer.Client.Call.Runs.{call-IsAnswered, call_answered, call_state, pair_eq}

pub is_success_iff : (code : ℕ) → (is_success code ≡ true) ↔ ((200 ≤ code) × (code ≤ 299))
is_success_iff code = ground arith

-- The document of a body that `json.Unmarshal` reads, in a response.
pub record IsRead (p : Platform) (body : Bytes) (r : Response) : Type 0 where
  pub doc : Platform.unmarshal p body ≡ ok r.doc
  pub whole : r.body ≡ body

pub parse_response-IsRead :
    (p : Platform) (body : Bytes) (r : Response)
    → (parse_response (Platform.unmarshal p) body ≡ ok r) ↔ IsRead p body r
unfolding parse_response
parse_response-IsRead p body r = elim (Result-cases (Platform.unmarshal p body)) [
  | inl (doc, e) ↦ (
    λ h.
        let same : record { doc = doc; body = body } ≡ r =
          ok-injective (rw (parse_response, e) at h) in
        record {
          doc = e ∙ ap (λ x. ok (Response.doc x)) same;
          whole = sym (ap (λ x. Response.body x) same);
        },
    λ i.
        rw (parse_response, e)
          (let same : doc ≡ r.doc = ok-injective (sym e ∙ IsRead.doc i) in
            let whole : body ≡ r.body = sym (IsRead.whole i) in cc),
  )
  | inr (text, e) ↦ (
    λ h. absurd (err-ne-ok (rw (parse_response, e) at h)),
    λ i. absurd (err-ne-ok (sym e ∙ IsRead.doc i)),
  )
]

pair_of : {A B : Type 0} {x : A × B} {a : A} {b : B} → x.0 ≡ a → x.1 ≡ b → x ≡ (a, b)
pair_of h k = cc

module _ (p : Platform) (srv : Server) where
  -- An exchange that ends in a state with a status 2xx and a body of which the first 8 MiB are a
  -- document that does not report failure.
  pub record IsAcceptance (x : Exchange × Server.State srv) (r : Response) (t : Server.State srv)
      : Type 0 where
    pub code : ℕ
    pub raw : Bytes
    pub answer : x ≡ (answered code raw, t)
    pub low : 200 ≤ code
    pub high : code ≤ 299
    pub read : IsRead p (take (8 * 1048576) raw) r
    pub right : succeeded (Platform.unicode p) r ≡ true

  module _ (c : Client) (m : Method) (op : Bytes) (q : Option Bytes) (body : Option Form)
      (kind : Bytes) where
    -- `call` returns a response exactly if the exchange of its request ends with a status from 200
    -- to 299 and a body of which the first 8 MiB are a JSON document that does not report failure;
    -- the response is then that document with these bytes, and the state the one that the exchange
    -- left.
    pub call_eq_ok_iff :
        (s t : Server.State srv) (r : Response)
        → (call p srv c m op q body kind s ≡ (ok r, t))
          ↔ IsAcceptance (Server.exchange srv (request_of p srv c m op q body kind) s) r t
    unfolding limited
    call_eq_ok_iff s t r = (
      λ h.
          let a = call-IsAnswered p srv c m op q body kind h in
          let (good, parsed, right) =
            (call_result-eq-ok p op a.code (limited a.raw) r).0 a.accepted in
          record {
            code = a.code;
            raw = a.raw;
            answer = pair_of a.answer a.after;
            low = ((is_success_iff a.code).0 good).0;
            high = ((is_success_iff a.code).0 good).1;
            read = (parse_response-IsRead p (limited a.raw) r).0 parsed;
            right = right;
          },
      λ i.
          pair_eq
            (call_answered p srv c m op q body kind s (ap (λ x. x.0) (IsAcceptance.answer i)) (
              (call_result-eq-ok p op (IsAcceptance.code i) (limited (IsAcceptance.raw i)) r).1 (
                (is_success_iff (IsAcceptance.code i)).1 (IsAcceptance.low i, IsAcceptance.high i),
                (parse_response-IsRead p (limited (IsAcceptance.raw i)) r).1 (IsAcceptance.read i),
                IsAcceptance.right i,
              )))
            (call_state p srv c m op q body kind s ∙ ap (λ x. x.1) (IsAcceptance.answer i)),
    )
