-- ===== src/Server/Bans/Limit.antt =====
-- How many bets the hosted prover takes, and whom it bans (src/marketplace-server.ts, lines 629 to
-- 705).
use perfect_weather_predicti.Prelude.{
  ℕ, ◌+◌, ◌-◌, ◌≤◌, ◌<◌, ◌≡◌, ◌≢◌, ◌⊎◌, Bool, some, List, [], ◌∷◌, String, eq_iff, arith,
}
use perfect_weather_predicti.Server.Bans.{
  BanState, BetRequest, Verdict, allowed, banned, count_on, require_hosted_tx_not_blocked,
  record_hosted_market_bet,
}

abbrev pub accepted_one : Verdict → ℕ
accepted_one allowed = 1
accepted_one _ = 0

-- The number of the requests that are allowed, one after the other.
unfoldable pub accepted_count : (cooldown_ms max_per_day : ℕ) → List BetRequest → BanState → ℕ
accepted_count cooldown_ms max_per_day [] s = 0
accepted_count cooldown_ms max_per_day (r ∷ rs) s =
    let result = record_hosted_market_bet cooldown_ms max_per_day r s in
    accepted_one result.1 + accepted_count cooldown_ms max_per_day rs result.0

-- The requests are of one browser on one day.
pub data AreOf (fingerprint today : String) : List BetRequest → Type 0 where
  no_more : AreOf fingerprint today []
  and_then :
      {r : BetRequest} {rs : List BetRequest}
      → r.fingerprint ≡ fingerprint
      → r.today ≡ today
      → AreOf fingerprint today rs
      → AreOf fingerprint today (r ∷ rs)

-- A bet beyond the daily limit is refused, and from then on so is every request of its caller, and
-- every request for its wallet.
pub excess_bet_bans :
    (cooldown_ms max_per_day : ℕ) (r : BetRequest) (s : BanState)
    → (record_hosted_market_bet cooldown_ms max_per_day r s).1 ≡ banned
    → (env_callers env_wallets : String → Bool) (caller wallet : String) → wallet ≢ ""
    → (caller ≡ r.caller) ⊎ (wallet ≡ r.wallet_public_key)
    → require_hosted_tx_not_blocked env_callers env_wallets
        (record_hosted_market_bet cooldown_ms max_per_day r s).0
        caller
        (some wallet)
      ≢ allowed
unfolding record_hosted_market_bet require_hosted_tx_not_blocked
excess_bet_bans cooldown_ms max_per_day r s ban env_callers env_wallets caller wallet named known =
    ground (arith, eq_iff r.caller caller, eq_iff r.wallet_public_key wallet, eq_iff wallet "")

abbrev pub bets_of : String → String → BanState → ℕ
bets_of fingerprint today s = count_on today (s.bet_counts fingerprint)

bets_counted :
    (cooldown_ms max_per_day : ℕ) (r : BetRequest) (s : BanState) (fingerprint today : String)
    → 0 < max_per_day
    → r.fingerprint ≡ fingerprint
    → r.today ≡ today
    → let result = record_hosted_market_bet cooldown_ms max_per_day r s in
      accepted_one result.1 + (max_per_day - bets_of fingerprint today result.0)
      ≤ max_per_day - bets_of fingerprint today s
unfolding record_hosted_market_bet
bets_counted cooldown_ms max_per_day r s fingerprint today positive same_browser same_day =
    ground (arith, eq_iff r.fingerprint fingerprint, eq_iff r.today today)

-- Of any sequence of requests of one browser on one day, at most as many are allowed as the daily
-- limit leaves, with or without a cooldown.
pub accepted_count-le :
    (cooldown_ms max_per_day : ℕ) (rs : List BetRequest) (s : BanState)
    → (fingerprint today : String) → 0 < max_per_day
    → AreOf fingerprint today rs
    → accepted_count cooldown_ms max_per_day rs s ≤ max_per_day - bets_of fingerprint today s
unfolding accepted_count
accepted_count-le cooldown_ms max_per_day [] s fingerprint today positive no_more = omega arith
accepted_count-le cooldown_ms max_per_day (r ∷ rs) s fingerprint today positive
      (and_then same_browser same_day rest) =
    let result = record_hosted_market_bet cooldown_ms max_per_day r s in
    omega (
      arith,
      bets_counted cooldown_ms max_per_day r s fingerprint today positive same_browser same_day,
      accepted_count-le cooldown_ms max_per_day rs result.0 fingerprint today positive rest,
    )
