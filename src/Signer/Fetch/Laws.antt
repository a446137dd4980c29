-- ===== src/Signer/Fetch/Laws.antt =====
-- The polling of `fetchCertificate` ends, and how it ends.
use native.Mathlib.Nat.{le_refl}
use kmp_issuer.Base.{
  ℕ, zero, suc, ◌+◌, ◌≤◌, ◌≡◌, refl, sym, subst, Bool, true, false, ◌||◌, ◌&&◌, is_nil, List, [],
  none, some, arith, Bool-cases, Option-cases, inl, inr, Result, ok, err, ltb,
}
use kmp_issuer.Text.{Bytes}
use kmp_issuer.X509.{Certificate, Platform}
use kmp_issuer.Errors.{GoError, plain, join, is_permanent}
use kmp_issuer.Client.Call.{Server, HttpRequest, Client, get, call}
use kmp_issuer.Client.Call.Runs.{call_state, asked_state}
use kmp_issuer.Client.Csr.{encoded}
use kmp_issuer.Client.Certificate.{
  get_certificate, certificates_in, op_get_certificate, lookup_details,
}
use kmp_issuer.Signer.Options.{Signer}
use kmp_issuer.Signer.Fetch.{
  Clock, poll_interval_of, poll_timeout_of, after_attempt, poll, fetch_certificate,
}

module _ (srv : Server) (k : Clock srv) where
  -- The clock does not go back: a state that a request leaves is not earlier, and a wait that is not
  -- broken off takes its time.
  pub record IsMonotonic : Type 0 where
    pub exchange_le :
        (r : HttpRequest) (s : Server.State srv)
        → Clock.now k s ≤ Clock.now k ((Server.exchange srv r s).1)
    pub wait_le :
        (d : ℕ) (s : Server.State srv)
        → (Clock.wait k d s).0 ≡ none
        → Clock.now k s + d ≤ Clock.now k ((Clock.wait k d s).1)

  -- The rounds of the loop for an attempt, an interval and a deadline, from a state to a result and
  -- the state after it. There is no other way for the loop to end.
  pub data Polls (attempt : Server.State srv → Result GoError (List Certificate) × Server.State srv)
      (interval deadline : ℕ)
      : Server.State srv → Result GoError (List Certificate) → Server.State srv → Type 0 where
    found :
        (s : Server.State srv) (certs : List Certificate)
        → (attempt s).0 ≡ ok certs
        → Polls attempt interval deadline s (ok certs) ((attempt s).1)
    given_up :
        (s : Server.State srv) (e : GoError)
        → (attempt s).0 ≡ err e
        → (is_permanent e || ltb deadline (Clock.now k ((attempt s).1) + interval)) ≡ true
        → Polls attempt interval deadline s (err e) ((attempt s).1)
    ended :
        (s : Server.State srv) (e : GoError) (text : Bytes)
        → (attempt s).0 ≡ err e
        → (is_permanent e || ltb deadline (Clock.now k ((attempt s).1) + interval)) ≡ false
        → (Clock.wait k interval ((attempt s).1)).0 ≡ some text
        → Polls attempt interval deadline s
            (err (join e (plain text)))
            ((Clock.wait k interval ((attempt s).1)).1)
    again :
        (s : Server.State srv) (e : GoError) {r : Result GoError (List Certificate)}
        {t : Server.State srv}
        → (attempt s).0 ≡ err e
        → (is_permanent e || ltb deadline (Clock.now k ((attempt s).1) + interval)) ≡ false
        → (Clock.wait k interval ((attempt s).1)).0 ≡ none
        → Polls attempt interval deadline ((Clock.wait k interval ((attempt s).1)).1) r t
        → Polls attempt interval deadline s r t

module _ (p : Platform) (srv : Server) (k : Clock srv)
    (attempt : Server.State srv → Result GoError (List Certificate) × Server.State srv)
    (forward : (s : Server.State srv) → Clock.now k s ≤ Clock.now k ((attempt s).1))
    (interval deadline : ℕ) (positive : 1 ≤ interval)
    (waits : (s : Server.State srv)
      → (Clock.wait k interval s).0 ≡ none
      → Clock.now k s + interval ≤ Clock.now k ((Clock.wait k interval s).1)) where
  not_late : (b : Bool) {x y : ℕ} → (b || ltb x y) ≡ false → y ≤ x
  not_late b h = ground arith

  -- One round, where every later round that it may come to is right.
  round-Polls :
      (later : Server.State srv → Result GoError (List Certificate) × Server.State srv)
      (s : Server.State srv) (r : Result GoError (List Certificate))
      → (attempt s).0 ≡ r
      → (Clock.now k ((attempt s).1) + interval ≤ deadline
          → Clock.now k ((attempt s).1) + interval
            ≤ Clock.now k ((Clock.wait k interval ((attempt s).1)).1)
          → Polls srv k attempt interval deadline
              ((Clock.wait k interval ((attempt s).1)).1)
              ((later ((Clock.wait k interval ((attempt s).1)).1)).0)
              ((later ((Clock.wait k interval ((attempt s).1)).1)).1))
      → Polls srv k attempt interval deadline s
          ((after_attempt p srv k interval deadline later (r, (attempt s).1)).0)
          ((after_attempt p srv k interval deadline later (r, (attempt s).1)).1)
  unfolding after_attempt
  round-Polls later s (ok certs) e next = found s certs e
  round-Polls later s (err x) e next =
      let t = (attempt s).1 in
      elim (Bool-cases (is_permanent x || ltb deadline (Clock.now k t + interval))) [
        | inl stop ↦ rw stop (given_up s x e stop)
        | inr go ↦ elim (Option-cases ((Clock.wait k interval t).0)) [
          | inl passed ↦
              rw (go, passed)
                (again s x e go passed (next (not_late (is_permanent x) go) (waits t passed)))
          | inr (text, over) ↦ rw (go, over) (ended s x text e go over)
        ]
      ]

  poll-Polls :
      (fuel : ℕ) (s : Server.State srv)
      → deadline ≤ Clock.now k s + fuel
      → Polls srv k attempt interval deadline s
          ((poll p srv k (suc fuel) attempt interval deadline s).0)
          ((poll p srv k (suc fuel) attempt interval deadline s).1)
  unfolding poll
  poll-Polls zero s h =
      round-Polls (poll p srv k zero attempt interval deadline) s ((attempt s).0) refl
        λ early _. absurd (let f = forward s in omega arith)
  poll-Polls (suc fuel) s h =
      round-Polls (poll p srv k (suc fuel) attempt interval deadline) s ((attempt s).0) refl
        λ early later. poll-Polls fuel _ (let f = forward s in omega arith)

interval_positive : (s : Signer) → 1 ≤ poll_interval_of s
unfolding poll_interval_of
interval_positive s = ground arith

module _ (p : Platform) (srv : Server) (k : Clock srv) where
  get_certificate-le :
      (m : IsMonotonic srv k) (c : Client) (common_name serial_number : Bytes)
      (s : Server.State srv)
      → Clock.now k s ≤ Clock.now k ((get_certificate p srv c common_name serial_number s).1)
  unfolding get_certificate
  get_certificate-le m c common_name serial_number s =
      elim (Bool-cases (is_nil common_name && is_nil serial_number)) [
        | inl nothing ↦ rw nothing (le_refl _)
        | inr given ↦ rw given (
            asked_state (encoded p op_get_certificate (lookup_details common_name serial_number))
              (λ i. call p srv c get op_get_certificate (some i) none []) (certificates_in p) s
              (λ t. Clock.now k s ≤ Clock.now k t) (le_refl _)
              λ i.
                subst (λ t. Clock.now k s ≤ Clock.now k t)
                  (sym (call_state p srv c get op_get_certificate (some i) none [] s))
                  (IsMonotonic.exchange_le m _ s))
      ]

  -- Where the clock does not go back, `fetchCertificate` ends, whatever the server answers: its
  -- result is the one of rounds that ask for the certificate until there is one, until a failure is
  -- for good or the next wait would pass the deadline, or until the context ends.
  pub fetch_certificate-Polls :
      (IsMonotonic srv k)
      → (s : Signer) (common_name serial_number : Bytes) (t : Server.State srv)
      → Polls srv k
          (get_certificate p srv s.client common_name serial_number)
          (poll_interval_of s)
          (Clock.now k t + poll_timeout_of s)
          t
          ((fetch_certificate p srv k s common_name serial_number t).0)
          ((fetch_certificate p srv k s common_name serial_number t).1)
  unfolding fetch_certificate
  fetch_certificate-Polls m s common_name serial_number t =
      poll-Polls p srv k (get_certificate p srv s.client common_name serial_number)
        (get_certificate-le m s.client common_name serial_number) (poll_interval_of s) _
        (interval_positive s) (IsMonotonic.wait_le m (poll_interval_of s)) (poll_timeout_of s) t
        (le_refl _)
