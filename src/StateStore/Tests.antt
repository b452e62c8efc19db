-- ===== src/StateStore/Tests.antt =====
-- The round trips of src/state-store.ts at a market and at a position.
use perfect_weather_predicti.Prelude.{◌≡◌, true, false, some}
use perfect_weather_predicti.O1js.Unary.{unary, unary-IsLawfulText}
use perfect_weather_predicti.MarketTypes.{MarketLeaf}
use perfect_weather_predicti.Contract.{PositionLeaf}
use perfect_weather_predicti.StateStore.{serialize_market_leaf, deserialize_market_leaf}
use perfect_weather_predicti.StateStore.Roundtrip.{IsRanged, deserialize_market_leaf-serialize}
use native.Mathlib.Omega.{arith}

abbrev leaf : MarketLeaf
leaf = record {
  config_hash = 7;
  close_slot = 10;
  expiry_slot = 20;
  threshold_value_tenth_c = 12;
  total_position_bet = 5;
  total_yes_position_bet = 3;
  resolved = true;
  outcome = false;
  oracle_statement_hash = 9;
}

abbrev position : PositionLeaf
position = record {
  market_key = 2;
  side_over = true;
  stake = 3;
  owner_commitment = 8;
  claimed = false;
}

deserialize_market_leaf-serialize_example :
    deserialize_market_leaf unary (serialize_market_leaf unary leaf) ≡ some leaf
unfolding IsRanged
deserialize_market_leaf-serialize_example =
    deserialize_market_leaf-serialize unary unary-IsLawfulText leaf
      (ground arith, ground arith, ground arith, ground arith, ground arith)
