-- ===== src/Server/Bans/Tests.antt =====
-- Two bets of one browser on one day, where the limit is one.
use perfect_weather_predicti.Prelude.{
  ◌≤◌, ◌≡◌, ◌≢◌, refl, false, none, [], ◌∷◌, String, str_eq, eq_iff, arith,
}
use perfect_weather_predicti.Server.Bans.{BanState, BetRequest, banned, record_hosted_market_bet}
use perfect_weather_predicti.Server.Bans.Limit.{
  accepted_count, no_more, and_then, accepted_count-le,
}

abbrev clean : BanState
clean = record {
  blocked_callers = λ c. false;
  blocked_wallets = λ w. false;
  last_bet_at = λ f. 0;
  bet_counts = λ f. none;
}

abbrev first : BetRequest
first = record {
  fingerprint = "10.0.0.1|browser";
  caller = "10.0.0.1";
  wallet_public_key = "B62a";
  now = 100_000;
  today = "2026-03-01";
}

abbrev second : BetRequest
second = record first { now = 200_000 }

abbrev after_first : BanState
after_first = (record_hosted_market_bet 60_000 1 first clean).0

second_is_banned : (record_hosted_market_bet 60_000 1 second after_first).1 ≡ banned
unfolding record_hosted_market_bet
second_is_banned = refl

abbrev wallet : String
wallet = "B62b"

abbrev empty : String
empty = ""

differ : str_eq "B62b" "" ≡ false
differ = refl

named : wallet ≢ empty
named e = ground (arith, eq_iff "B62b" "", differ, e)

accepted_count-le_example : accepted_count 60_000 1 (first ∷ second ∷ []) clean ≤ 1
accepted_count-le_example =
    accepted_count-le 60_000 1 (first ∷ second ∷ []) clean "10.0.0.1|browser" "2026-03-01"
      (omega arith) (and_then refl refl (and_then refl refl no_more))
