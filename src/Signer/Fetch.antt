-- ===== src/Signer/Fetch.antt =====
-- internal/kmp/signer.go: `fetchCertificate`, which polls for the certificate.
pub mod Laws
use kmp_issuer.Base.{
  ℕ, zero, suc, ◌+◌, ◌*◌, ◌<◌, ◌≡◌, Bool, true, false, ◌||◌, List, [], Option, none, some, Result,
  ok, err, ltb, if◌then◌else◌, ℤ, pos, negsuc, ltz,
}
use kmp_issuer.Text.{Bytes, codes}
use kmp_issuer.X509.{Certificate, Platform}
use kmp_issuer.Errors.{GoError, plain, join, is_permanent}
use kmp_issuer.Client.Call.{Server, Client, Run}
use kmp_issuer.Client.Certificate.{get_certificate}
use kmp_issuer.Signer.Options.{Signer}

-- The clock of a world and its `select`, which waits for a time: nothing where it has passed, the
-- text of `ctx.Err()` where the context ends first. Times are nanoseconds.
pub record Clock (srv : Server) : Type 0 where
  pub now : Server.State srv → ℕ
  pub wait : ℕ → Server.State srv → Option Bytes × Server.State srv

abbrev pub default_poll_interval : ℕ
default_poll_interval = 2 * 1000000000

abbrev pub default_poll_timeout : ℕ
default_poll_timeout = 60 * 1000000000

-- A duration that is not positive selects its default.
abbrev pub or_default : ℕ → ℤ → ℕ
or_default d (pos zero) = d
or_default d (pos (suc n)) = suc n
or_default d (negsuc n) = d

unfoldable pub poll_interval_of : Signer → ℕ
poll_interval_of s = or_default default_poll_interval s.poll_interval

unfoldable pub poll_timeout_of : Signer → ℕ
poll_timeout_of s = or_default default_poll_timeout s.poll_timeout

module _ (p : Platform) (srv : Server) (k : Clock srv) where
  abbrev pub Certificates : Type 0
  Certificates = Result GoError (List Certificate) × Server.State srv

  -- What the loop does after an attempt, with the later rounds as a function of the state.
  unfoldable pub after_attempt :
      ℕ → ℕ → (Server.State srv → Certificates) → Certificates → Certificates
  after_attempt interval deadline later (ok certs, t) = (ok certs, t)
  after_attempt interval deadline later (err e, t) =
      if is_permanent e || ltb deadline (Clock.now k t + interval)
      then (err e, t)
      else (let (ended, v) = Clock.wait k interval t in
          elim ended [ none ↦ later v | some text ↦ (err (join e (plain text)), v) ])

  -- The fuel counts the attempts.
  unfoldable pub poll :
      ℕ → (Server.State srv → Certificates) → ℕ → ℕ → Server.State srv → Certificates
  poll zero attempt interval deadline s = (err (plain []), s)
  poll (suc fuel) attempt interval deadline s =
      after_attempt interval deadline (poll fuel attempt interval deadline) (attempt s)

  unfoldable pub fetch_certificate :
      Signer → Bytes → Bytes → Run (Server.State srv) (List Certificate)
  fetch_certificate s common_name serial_number t =
      poll (suc (poll_timeout_of s)) (get_certificate p srv s.client common_name serial_number)
        (poll_interval_of s) (Clock.now k t + poll_timeout_of s) t
