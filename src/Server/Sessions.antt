-- ===== src/Server/Sessions.antt =====
-- src/marketplace-server.ts, lines 707 to 756: the tokens that admit a caller's transactions to the
-- hosted prover. A `Map` is a function of its key, since the program reads it by key and deletes by a
-- test of the entry. The clock is read once in a call, which nothing interrupts.
mod Facts
mod Tests
use perfect_weather_predicti.Prelude.{
  ℕ, ◌+◌, ◌-◌, ◌*◌, Bool, true, false, ◌&&◌, Option, none, some, String, str_eq, leb, ltb,
  if◌then◌else◌,
}

pub record TxSession : Type 0 where
  pub caller : String
  pub expires_at_unix_ms : ℕ

pub record SessionState : Type 0 where
  -- `txSessionTokens`
  pub tokens : String → Option TxSession
  -- `lastTxSessionIssuedAtByCaller`, with `|| 0`
  pub last_issued_at : String → ℕ

pub data Rejection : Type 0 where
  rate_limited missing_session invalid_or_expired_session caller_mismatch : Rejection

-- A call that throws when it is refused.
pub data Answer (A : Type 0) : Type 0 where
  accepted : A → Answer A
  rejected : Rejection → Answer A

abbrev pub unless_expired : ℕ → Option TxSession → Option TxSession
unless_expired now none = none
unless_expired now (some e) = if leb e.expires_at_unix_ms now then none else some e

-- `pruneExpiredTxSessions`
unfoldable pub prune_expired_tx_sessions : (now : ℕ) → SessionState → SessionState
prune_expired_tx_sessions now s = record s { tokens = λ token. unless_expired now (s.tokens token) }

abbrev pub session_ms : ℕ
session_ms = 15 * 60 * 1000

abbrev pub new_session : (now : ℕ) → String → TxSession
new_session now caller = record { caller = caller; expires_at_unix_ms = now + session_ms }

-- `issueTxSessionToken`, with the `randomUUID()` that it draws. A `min_interval_ms` that is not a
-- positive number limits nothing, as 0 does.
unfoldable pub issue_tx_session_token :
    (min_interval_ms now : ℕ) (caller token : String)
    → SessionState
    → SessionState × Answer TxSession
unfolding prune_expired_tx_sessions
issue_tx_session_token min_interval_ms now caller token s =
    let pruned = prune_expired_tx_sessions now s in
    if ltb 0 min_interval_ms && ltb (now - s.last_issued_at caller) min_interval_ms
    then (pruned, rejected rate_limited)
    else (
      record {
        tokens = λ t. if str_eq token t then some (new_session now caller) else pruned.tokens t;
        last_issued_at = λ c. if str_eq caller c then now else s.last_issued_at c;
      },
      accepted (new_session now caller),
    )

abbrev admit : String → Option TxSession → Answer (Unit {0})
admit caller none = rejected invalid_or_expired_session
admit caller (some e) = if str_eq e.caller caller then accepted tt else rejected caller_mismatch

-- `requireHostedTxSession`, with the trimmed token of the request's header, "" where there is none.
unfoldable pub require_hosted_tx_session :
    (now : ℕ) (is_hosted : Bool) (caller supplied : String)
    → SessionState
    → SessionState × Answer (Unit {0})
unfolding prune_expired_tx_sessions
require_hosted_tx_session now is_hosted caller supplied s =
    let pruned = prune_expired_tx_sessions now s in
    if is_hosted
    then (
      pruned,
      if str_eq supplied ""
          then rejected missing_session
          else admit caller (pruned.tokens supplied),
    )
    else (s, accepted tt)
