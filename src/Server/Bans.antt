-- ===== src/Server/Bans.antt =====
-- src/marketplace-server.ts, lines 629 to 705: callers and wallets that the hosted prover refuses,
-- and the count of bets that puts them there. A `Set` or `Map` is a function of its key, which is
-- all that the program asks of it. Writing the list to disk is not modelled.
mod Limit
mod Tests
use perfect_weather_predicti.Prelude.{
  ℕ, ◌+◌, ◌-◌, Bool, true, false, ◌&&◌, ◌||◌, Option, none, some, String, str_eq, ltb,
  if◌then◌else◌,
}

pub record DayCount : Type 0 where
  pub date : String
  pub count : ℕ

pub record BanState : Type 0 where
  -- `persistentHostedBlockedCallers` and `persistentHostedBlockedWallets`
  pub blocked_callers : String → Bool
  pub blocked_wallets : String → Bool
  -- `hostedTxLastBetAtByFingerprint`, with `|| 0`
  pub last_bet_at : String → ℕ
  -- `hostedTxBetCountsByFingerprint`
  pub bet_counts : String → Option DayCount

pub data Verdict : Type 0 where
  allowed blocked_caller blocked_wallet cooldown_active banned : Verdict

abbrev pub wallet_verdict : (String → Bool) → Option String → Verdict
wallet_verdict is_blocked none = allowed
wallet_verdict is_blocked (some wallet) =
    if str_eq wallet "" then allowed else if is_blocked wallet then blocked_wallet else allowed

-- `requireHostedTxNotBlocked`, with the sets of the environment, the caller and the wallet of the
-- request.
unfoldable pub require_hosted_tx_not_blocked :
    (env_callers env_wallets : String → Bool) → BanState → String → Option String → Verdict
require_hosted_tx_not_blocked env_callers env_wallets s caller wallet =
    if env_callers caller || s.blocked_callers caller
    then blocked_caller
    else wallet_verdict (λ w. env_wallets w || s.blocked_wallets w) wallet

-- A request: who asks, when, and for which wallet.
pub record BetRequest : Type 0 where
  pub fingerprint : String
  pub caller : String
  pub wallet_public_key : String
  pub now : ℕ
  pub today : String

abbrev pub count_on : String → Option DayCount → ℕ
count_on today none = 0
count_on today (some c) = if str_eq c.date today then c.count else 0

abbrev pub insert : String → (String → Bool) → String → Bool
insert x set y = if str_eq x y then true else set y

-- `recordHostedMarketBetAndMaybeBlock`. A limit of the environment that is not a positive number is
-- no limit, as 0 is.
unfoldable pub record_hosted_market_bet :
    (cooldown_ms max_per_day : ℕ) → BetRequest → BanState → BanState × Verdict
record_hosted_market_bet cooldown_ms max_per_day r s =
    if ltb 0 cooldown_ms && ltb (r.now - s.last_bet_at r.fingerprint) cooldown_ms
    then (s, cooldown_active)
    else let noted = record s {
      last_bet_at = λ f. if str_eq r.fingerprint f then r.now else s.last_bet_at f;
    } in
      let next_count = count_on r.today (s.bet_counts r.fingerprint) + 1 in
      let counted = record noted {
        bet_counts = λ f.
            if str_eq r.fingerprint f
            then some (record { date = r.today; count = next_count })
            else s.bet_counts f;
      } in
      if ltb 0 max_per_day
      then if ltb max_per_day next_count
        then (
          record counted {
            blocked_callers = insert r.caller s.blocked_callers;
            blocked_wallets = insert r.wallet_public_key s.blocked_wallets;
          },
          banned,
        )
        else (counted, allowed)
      else (noted, allowed)
