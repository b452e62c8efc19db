-- ===== src/Server/Sessions/Facts.antt =====
-- Whom a session token admits (src/marketplace-server.ts, lines 707 to 756).
use perfect_weather_predicti.Prelude.{
  ℕ, ◌+◌, ◌≤◌, ◌<◌, ◌≡◌, ◌≢◌, true, String, str_eq, eq_iff, leb, arith, if◌then◌else◌,
}
use perfect_weather_predicti.Server.Sessions.{
  SessionState, TxSession, accepted, rejected, invalid_or_expired_session, caller_mismatch,
  rate_limited, session_ms, prune_expired_tx_sessions, issue_tx_session_token,
  require_hosted_tx_session,
}

-- An issued token admits its caller until fifteen minutes have passed, and nobody else and not
-- later.
pub issued_token_admits :
    (min_interval_ms now : ℕ) (caller token : String) (s : SessionState) (e : TxSession)
    → token ≢ ""
    → (issue_tx_session_token min_interval_ms now caller token s).1 ≡ accepted e
    → (later : ℕ) (asking : String)
    → (require_hosted_tx_session later true asking token
        (issue_tx_session_token min_interval_ms now caller token s).0).1
      ≡ (if leb (now + session_ms) later
          then rejected invalid_or_expired_session
          else if str_eq caller asking
          then accepted tt
          else rejected caller_mismatch)
unfolding issue_tx_session_token require_hosted_tx_session prune_expired_tx_sessions
issued_token_admits min_interval_ms now caller token s e named issued later asking =
    ground (arith, eq_iff token token, eq_iff token "")

-- A caller who has been issued a token is refused another within the interval, and the refusal
-- does not shorten or extend the wait.
pub second_token_rejected :
    (min_interval_ms now : ℕ) (caller token : String) (s : SessionState) (e : TxSession)
    → (issue_tx_session_token min_interval_ms now caller token s).1 ≡ accepted e
    → (later : ℕ) (token' : String) → now ≤ later
    → later < now + min_interval_ms
    → let s' = (issue_tx_session_token min_interval_ms now caller token s).0 in
      ((issue_tx_session_token min_interval_ms later caller token' s').1 ≡ rejected rate_limited)
      × ((issue_tx_session_token min_interval_ms later caller token' s').0.last_issued_at caller
          ≡ now)
unfolding issue_tx_session_token prune_expired_tx_sessions
second_token_rejected min_interval_ms now caller token s e issued later token' after soon =
    ground (arith, eq_iff caller caller)
