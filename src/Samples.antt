-- ===== src/Samples.antt =====
-- Test data that the runs of both contracts share: one market from its creation to its result, the
-- statement that resolves it, and a wallet.
use perfect_weather_predicti.Prelude.{ℕ, true, false}
use perfect_weather_predicti.O1js.Concrete.{concrete}
use perfect_weather_predicti.MarketTypes.{
  MarketLeaf, WeatherOracleStatement, hash_market, digest_of,
}
open concrete use {MerkleMap, PublicKey, set, empty_map, hash, to_fields}

abbrev pub fresh : MarketLeaf
fresh = record {
  config_hash = 7;
  close_slot = 10;
  expiry_slot = 20;
  threshold_value_tenth_c = 250;
  total_position_bet = 0;
  total_yes_position_bet = 0;
  resolved = false;
  outcome = false;
  oracle_statement_hash = 0;
}

abbrev pub one_bet : MarketLeaf
one_bet = record fresh { total_position_bet = 30; total_yes_position_bet = 30 }

abbrev pub two_bets : MarketLeaf
two_bets = record fresh { total_position_bet = 40; total_yes_position_bet = 30 }

abbrev pub unsigned_statement : WeatherOracleStatement
unsigned_statement = record {
  source_hash = 0;
  request_path_hash = 0;
  observed_at_slot = 15;
  observed_value_tenth_c = 260;
  threshold_value_tenth_c = 250;
  outcome = true;
  nonce = 1;
  statement_digest = 0;
}

abbrev pub statement : WeatherOracleStatement
statement = record unsigned_statement { statement_digest = digest_of concrete 1 unsigned_statement }

abbrev pub settled : MarketLeaf
settled = record two_bets {
  resolved = true;
  outcome = true;
  oracle_statement_hash = statement.statement_digest;
}

abbrev pub alice_key : PublicKey
unfolding concrete
alice_key = 5

abbrev pub alice : ℕ
alice = hash (to_fields alice_key)

abbrev pub markets_with : MarketLeaf → MerkleMap
markets_with m = set empty_map 1 (hash_market concrete m)

abbrev pub no_map : MerkleMap
no_map = empty_map
