-- ===== src/Server/Finalize/Tests.antt =====
-- A bet and a claim that are finalized.
use perfect_weather_predicti.Prelude.{
  ◌≡◌, ◌↔◌, ◌≤◌, ◌+◌, refl, true, false, none, some, Option, [], ◌∷◌, String, str_eq, eq_iff, Dict,
  lookup, put, arith,
}
use perfect_weather_predicti.O1js.Unary.{unary}
use perfect_weather_predicti.StateStore.{OperatorState, load_operator_state}
use perfect_weather_predicti.Server.Finalize.Intents.{
  PendingTxIntent, market_bet, FinalizeBody, Finalized, saved, delete, finalize, intent_ttl_ms,
  record_intent, bet_receipt_meta,
}
use perfect_weather_predicti.Server.Finalize.Once.{IsRecordable, Saves, finalize-Saves_iff}

abbrev bet : PendingTxIntent
bet = record {
  intent_type = market_bet;
  market_key = "1";
  market_date = none;
  wallet_public_key = "B62a";
  position_key = "2";
  add_total_bet = 3;
  add_yes_bet = 3;
  has_new_leaf = true;
  receipt_commitment = some "77";
  receipt_salt = some "salt";
  created_at_unix_ms = 5;
}

abbrev body : FinalizeBody
body = record {
  intent_id = "a";
  tx_hash = "5J";
  fallback_type = "";
  market_key = "";
  position_key = "";
  wallet_public_key = "";
}

abbrev pending : Dict PendingTxIntent
pending = ("a", bet) ∷ []

abbrev no_file : OperatorState
no_file = load_operator_state none

abbrev unknown : String → Option String
unknown hash = none

abbrev owners : String → String
owners wallet = "1"

abbrev no_refresh : OperatorState → Option OperatorState
no_refresh s = none

abbrev run : Dict PendingTxIntent → OperatorState → Finalized
run = finalize "B62z" owners unary unknown 7 6 no_refresh body

abbrev after : OperatorState
after = record no_file {
  receipt_meta = ("2", bet_receipt_meta "B62z" owners no_file bet "77" "5J" 6) ∷ [];
}

empty : str_eq "a" "" ≡ false
empty = refl

empty' : str_eq "5J" "" ≡ false
empty' = refl

finds_bet : lookup "a" pending ≡ some bet
unfolding lookup
finds_bet = refl

runs : run pending no_file ≡ saved [] after
unfolding finalize record_intent delete lookup put load_operator_state bet_receipt_meta
runs = refl

no_fallback : str_eq "" "payout-claim" ≡ false
no_fallback = refl

finalize-Saves_iff_example :
    Saves "B62z" owners unary unknown 7 6 no_refresh (run pending no_file) ↔ (
      (6 ≤ 5 + intent_ttl_ms)
      × IsRecordable "B62z" owners unary unknown 7 6 no_refresh bet "5J" no_file)
finalize-Saves_iff_example =
    finalize-Saves_iff "B62z" owners unary unknown 7 6 no_refresh body pending no_file bet
      (ground (arith, eq_iff "a" "", empty)) (ground (arith, eq_iff "5J" "", empty')) finds_bet
