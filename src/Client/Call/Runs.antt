-- ===== src/Client/Call/Runs.antt =====
-- Runs that end with a result: each of their steps does.
use kmp_issuer.Base.{
  ℕ, Option, ◌≡◌, refl, ap, subst, sym, ◌∙◌, Bool, true, false, Result, ok, err, map_err,
  ok-injective, err-ne-ok, if◌then◌else◌,
}
use kmp_issuer.Errors.{GoError}
use kmp_issuer.Text.{Bytes}
use kmp_issuer.X509.{Platform}
use kmp_issuer.Response.Status.{Response}
use kmp_issuer.Client.Call.{
  Run, continue, ◌>>=◌, lift, throw, Method, Form, HttpRequest, Exchange, not_built, not_answered,
  broken_off, answered, Server, Client, limited, call_result, request_of, read_exchange, do_request,
  call,
}

pub continue-eq-ok :
    {S A B : Type 0} (r : Result GoError A) (f : A → Run S B) (s : S) {b : B} {t : S}
    → continue r f s ≡ (ok b, t)
    → (a : A) × (r ≡ ok a) × (f a s ≡ (ok b, t))
continue-eq-ok (ok a) f s h = (a, refl, h)
continue-eq-ok (err e) f s h = absurd (err-ne-ok (ap (λ x. x.0) h))

pub run_eq_ok :
    {S A B : Type 0} (m : Run S A) (f : A → Run S B) {s : S} {b : B} {t : S}
    → (m >>= f) s ≡ (ok b, t)
    → (a : A) × ((m s).0 ≡ ok a) × (f a (m s).1 ≡ (ok b, t))
run_eq_ok m f {s} h = continue-eq-ok (m s).0 f (m s).1 h

pub lift_eq_ok :
    {S A B : Type 0} (r : Result GoError A) (f : A → Run S B) {s : S} {b : B} {t : S}
    → (lift r >>= f) s ≡ (ok b, t)
    → (a : A) × (r ≡ ok a) × (f a s ≡ (ok b, t))
lift_eq_ok r f {s} h = continue-eq-ok r f s h

pub map_err-eq-ok :
    {E F A : Type 0} (f : E → F) (r : Result E A) {a : A} → map_err f r ≡ ok a → r ≡ ok a
map_err-eq-ok f (ok a) h = ap ok (ok-injective h)
map_err-eq-ok f (err e) h = absurd (err-ne-ok h)

-- A guard that fails the run did not hold.
pub guard_eq_ok :
    {S B : Type 0} (test : Bool) (e : GoError) (m : Run S B) {s : S} {b : B} {t : S}
    → (if test then throw e else m) s ≡ (ok b, t)
    → (test ≡ false) × (m s ≡ (ok b, t))
guard_eq_ok true e m h = absurd (err-ne-ok (ap (λ x. x.0) h))
guard_eq_ok false e m h = (refl, h)

pub result_of :
    {S B : Type 0} {x : Result GoError B × S} {r : Result GoError B} {t : S} → x ≡ (r, t) → x.0 ≡ r
result_of h = ap (λ y. y.0) h

pub state_of :
    {S B : Type 0} {x : Result GoError B × S} {r : Result GoError B} {t : S} → x ≡ (r, t) → x.1 ≡ t
state_of h = ap (λ y. y.1) h

-- A response to a request, from a state to the next: the server answers with a status and a body
-- that `call` accepts.
pub record IsAnswered (p : Platform) (srv : Server) (req : HttpRequest) (op : Bytes) (r : Response)
    (s t : Server.State srv) : Type 0 where
  pub code : ℕ
  pub raw : Bytes
  pub answer : (Server.exchange srv req s).0 ≡ answered code raw
  pub after : (Server.exchange srv req s).1 ≡ t
  pub accepted : call_result p op code (limited raw) ≡ ok r

read_exchange-eq-ok :
    (p : Platform) (srv : Server) (c : Client) (op : Bytes) (x : Exchange) {code : ℕ} {raw : Bytes}
    → read_exchange p srv c op x ≡ ok (code, raw)
    → (body : Bytes) × (x ≡ answered code body) × (limited body ≡ raw)
read_exchange-eq-ok p srv c op (not_built e) h = absurd (err-ne-ok h)
read_exchange-eq-ok p srv c op (not_answered e) h = absurd (err-ne-ok h)
read_exchange-eq-ok p srv c op (broken_off code e) h = absurd (err-ne-ok h)
read_exchange-eq-ok p srv c op (answered code body) h =
    (body, ap (λ x. answered x.0 body) (ok-injective h), ap (λ x. x.1) (ok-injective h))

pub call-IsAnswered :
    (p : Platform) (srv : Server) (c : Client) (m : Method) (op : Bytes) (q : Option Bytes)
    (body : Option Form) (kind : Bytes) {s t : Server.State srv} {r : Response}
    → call p srv c m op q body kind s ≡ (ok r, t)
    → IsAnswered p srv (request_of p srv c m op q body kind) op r s t
unfolding call do_request
call-IsAnswered p srv c m op q body kind h =
    let ((code, raw), got, done) = run_eq_ok (do_request p srv c m op q body kind) _ h in
    let (whole, same, cut) = read_exchange-eq-ok p srv c op _ got in
    record {
      code = code;
      raw = whole;
      answer = same;
      after = state_of done;
      accepted = rw cut (result_of done);
    }

pub pair_eq :
    {S A : Type 0} {x : Result GoError A × S} {r : Result GoError A} {t : S}
    → x.0 ≡ r
    → x.1 ≡ t
    → x ≡ (r, t)
pair_eq h k = cc

-- The first of two steps that end with a result, with the state between them.
pub first_step :
    {S A B : Type 0} (m : Run S A) (f : A → Run S B) {s t : S} {b : B}
    → (m >>= f) s ≡ (ok b, t)
    → (a : A) × (u : S) × (m s ≡ (ok a, u)) × (f a u ≡ (ok b, t))
first_step m f {s} h = let (a, got, rest) = run_eq_ok m f h in (a, (m s).1, pair_eq got refl, rest)

-- The steps of most operations: the arguments are encoded, the call answers, and the response is
-- read.
pub asked_eq_ok :
    {S A : Type 0} (input : Result GoError Bytes) (ask : Bytes → Run S Response)
    (read : Response → Result GoError A) {s t : S} {a : A}
    → (do i ← lift input; r ← ask i; lift (read r)) s ≡ (ok a, t)
    → (i : Bytes) × (r : Response) × (input ≡ ok i) × (ask i s ≡ (ok r, t)) × (read r ≡ ok a)
asked_eq_ok input ask read {s} h =
    let (i, e, h₁) = continue-eq-ok input _ s h in
    let (r, got, h₂) = continue-eq-ok (ask i s).0 _ (ask i s).1 h₁ in
    (i, r, e, pair_eq got (state_of h₂), result_of h₂)

continue_of_ok :
    {S A B : Type 0} (x : Result GoError A) (f : A → Run S B) (t : S) {a : A}
    → x ≡ ok a
    → continue x f t ≡ f a t
continue_of_ok x f t h = rw h refl

pub asked_result :
    {S A : Type 0} (input : Result GoError Bytes) (ask : Bytes → Run S Response)
    (read : Response → Result GoError A) (s : S) {i : Bytes} {r : Response}
    → input ≡ ok i
    → (ask i s).0 ≡ ok r
    → ((do j ← lift input; q ← ask j; lift (read q)) s).0 ≡ read r
asked_result input ask read s {i} h k =
    ap (λ x. x.0)
      (continue_of_ok input (λ j. ask j >>= λ q. lift (read q)) s h
        ∙ continue_of_ok (ask i s).0 (λ q. lift (read q)) (ask i s).1 k)

pub call_answered :
    (p : Platform) (srv : Server) (c : Client) (m : Method) (op : Bytes) (q : Option Bytes)
    (body : Option Form) (kind : Bytes) (s : Server.State srv) {code : ℕ} {raw : Bytes}
    {r : Response}
    → (Server.exchange srv (request_of p srv c m op q body kind) s).0 ≡ answered code raw
    → call_result p op code (limited raw) ≡ ok r
    → (call p srv c m op q body kind s).0 ≡ ok r
unfolding call do_request
call_answered p srv c m op q body kind s h k =
    ap (λ x. x.0)
      (continue_of_ok _ (λ (code, raw). lift (call_result p op code raw)) _
        (ap (read_exchange p srv c op) h))
    ∙ k

continue_keeps :
    {S A B : Type 0} (x : Result GoError A) (f : A → Result GoError B) (t : S)
    → (continue x (λ a. lift (f a)) t).1 ≡ t
continue_keeps (ok a) f t = refl
continue_keeps (err e) f t = refl

pub call_state :
    (p : Platform) (srv : Server) (c : Client) (m : Method) (op : Bytes) (q : Option Bytes)
    (body : Option Form) (kind : Bytes) (s : Server.State srv)
    → (call p srv c m op q body kind s).1
      ≡ (Server.exchange srv (request_of p srv c m op q body kind) s).1
unfolding call do_request
call_state p srv c m op q body kind s =
    continue_keeps (do_request p srv c m op q body kind s).0
      (λ (code, raw). call_result p op code raw) (do_request p srv c m op q body kind s).1

-- Such an operation leaves the state as it is, or as the call leaves it.
pub asked_state :
    {S A : Type 0} (input : Result GoError Bytes) (ask : Bytes → Run S Response)
    (read : Response → Result GoError A) (s : S) (P : S → Type 0)
    → P s
    → ((i : Bytes) → P ((ask i s).1))
    → P (((do i ← lift input; r ← ask i; lift (read r)) s).1)
asked_state (err e) ask read s P still moved = still
asked_state (ok i) ask read s P still moved =
    subst P (sym (continue_keeps (ask i s).0 read (ask i s).1)) (moved i)
