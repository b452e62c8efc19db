-- ===== src/Server/Sessions/Tests.antt =====
-- Sessions of one caller, and of another who has the token.
use perfect_weather_predicti.Prelude.{◌≡◌, ◌≢◌, refl, false, none, String, str_eq, eq_iff, arith}
use perfect_weather_predicti.Server.Sessions.{
  SessionState, accepted, prune_expired_tx_sessions, issue_tx_session_token,
}

abbrev nobody : SessionState
nobody = record { tokens = λ t. none; last_issued_at = λ c. 0 }

abbrev issued : SessionState
issued = (issue_tx_session_token 60_000 100_000 "10.0.0.1" "t" nobody).0

issues :
    (issue_tx_session_token 60_000 100_000 "10.0.0.1" "t" nobody).1
    ≡ accepted (record { caller = "10.0.0.1"; expires_at_unix_ms = 1_000_000 })
unfolding issue_tx_session_token prune_expired_tx_sessions
issues = refl

abbrev token : String
token = "t"

abbrev empty : String
empty = ""

differ : str_eq "t" "" ≡ false
differ = refl

named : token ≢ empty
named e = ground (arith, eq_iff "t" "", differ, e)
