-- ===== src/MarketTypes.antt =====
-- src/market-types.ts: the leaf of a market and the statement of the weather oracle; and the
-- assertions on them that src/contract.ts and src/fast-contract.ts share word for word.
pub mod Hashing
pub mod Facts
use perfect_weather_predicti.Prelude.{
  ℕ, ◌≡◌, Bool, true, false, not, Option, some, List, [], ◌∷◌, ltb, leb, ◌==◌, eq_bool,
  if◌then◌else◌, assert, ◌>>◌,
}
use perfect_weather_predicti.O1js.{O1js}

pub record MarketLeaf : Type 0 where
  pub config_hash : ℕ
  pub close_slot : ℕ
  pub expiry_slot : ℕ
  pub threshold_value_tenth_c : ℕ
  pub total_position_bet : ℕ
  pub total_yes_position_bet : ℕ
  pub resolved : Bool
  pub outcome : Bool
  pub oracle_statement_hash : ℕ

pub record WeatherOracleStatement : Type 0 where
  pub source_hash : ℕ
  pub request_path_hash : ℕ
  pub observed_at_slot : ℕ
  pub observed_value_tenth_c : ℕ
  pub threshold_value_tenth_c : ℕ
  pub outcome : Bool
  pub nonce : ℕ
  pub statement_digest : ℕ

-- `Bool.toField`
abbrev pub to_field : Bool → ℕ
to_field b = if b then 1 else 0

-- The input of `MarketLeaf.hash`.
abbrev pub market_fields : MarketLeaf → List ℕ
market_fields m =
    m.config_hash
    ∷ m.close_slot
    ∷ m.expiry_slot
    ∷ m.threshold_value_tenth_c
    ∷ m.total_position_bet
    ∷ m.total_yes_position_bet
    ∷ to_field m.resolved
    ∷ to_field m.outcome
    ∷ m.oracle_statement_hash
    ∷ []

-- `createMarket`: no bets, no result, and a window that is not empty.
unfoldable pub assert_new_market : MarketLeaf → Option (Unit {0})
assert_new_market m = do
  assert (m.total_position_bet == 0)
  assert (m.total_yes_position_bet == 0)
  assert (not m.resolved)
  assert (not m.outcome)
  assert (m.oracle_statement_hash == 0)
  assert (leb m.close_slot m.expiry_slot)

-- A bet: neither leaf is resolved.
unfoldable pub assert_open : MarketLeaf → MarketLeaf → Option (Unit {0})
assert_open old new = do
  assert (not old.resolved)
  assert (not new.resolved)
  assert (not new.outcome)
  assert (new.oracle_statement_hash == 0)

-- The parameters of a market never change.
unfoldable pub assert_same_config : MarketLeaf → MarketLeaf → Option (Unit {0})
assert_same_config old new = do
  assert (old.config_hash == new.config_hash)
  assert (old.close_slot == new.close_slot)
  assert (old.expiry_slot == new.expiry_slot)
  assert (old.threshold_value_tenth_c == new.threshold_value_tenth_c)

-- A bet whose amounts are hidden: the totals do not fall, and the part is within the whole.
unfoldable pub assert_totals_grow : MarketLeaf → MarketLeaf → Option (Unit {0})
assert_totals_grow old new = do
  assert (leb old.total_position_bet new.total_position_bet)
  assert (leb old.total_yes_position_bet new.total_yes_position_bet)
  assert (leb new.total_yes_position_bet new.total_position_bet)

-- `resolveWeatherMarket`: the leaf that follows is the old one with the statement's result.
unfoldable pub assert_resolution :
    MarketLeaf → MarketLeaf → WeatherOracleStatement → Option (Unit {0})
assert_resolution old new oracle = do
  assert (new.config_hash == old.config_hash)
  assert (new.close_slot == old.close_slot)
  assert (new.expiry_slot == old.expiry_slot)
  assert (new.threshold_value_tenth_c == old.threshold_value_tenth_c)
  assert (new.total_position_bet == old.total_position_bet)
  assert (new.total_yes_position_bet == old.total_yes_position_bet)
  assert new.resolved
  assert (eq_bool new.outcome oracle.outcome)
  assert (new.oracle_statement_hash == oracle.statement_digest)

module _ (o : O1js) where
  -- `MarketLeaf.hash`
  unfoldable pub hash_market : MarketLeaf → ℕ
  hash_market m = o.hash (market_fields m)

  -- `expectedStatementDigest`
  unfoldable pub digest_of : ℕ → WeatherOracleStatement → ℕ
  digest_of market_key oracle = o.hash (
      market_key
      ∷ oracle.source_hash
      ∷ oracle.request_path_hash
      ∷ oracle.observed_at_slot
      ∷ oracle.observed_value_tenth_c
      ∷ oracle.threshold_value_tenth_c
      ∷ to_field oracle.outcome
      ∷ oracle.nonce
      ∷ [])

  -- `resolveWeatherMarket`: the statement against the policy and the market.
  unfoldable pub assert_statement :
      ℕ
      → MarketLeaf
      → WeatherOracleStatement
      → (source_hash request_path_hash : ℕ) → Option (Unit {0})
  unfolding digest_of
  assert_statement market_key old oracle source_hash request_path_hash = do
    assert (oracle.source_hash == source_hash)
    assert (oracle.request_path_hash == request_path_hash)
    assert (leb old.close_slot oracle.observed_at_slot)
    assert (leb oracle.observed_at_slot old.expiry_slot)
    assert (oracle.threshold_value_tenth_c == old.threshold_value_tenth_c)
    assert
        (eq_bool (ltb oracle.threshold_value_tenth_c oracle.observed_value_tenth_c) oracle.outcome)
    assert (oracle.statement_digest == digest_of market_key oracle)
