-- ===== src/MarketTypes/Facts.antt =====
-- What the shared assertions establish when they pass.
use perfect_weather_predicti.Prelude.{ℕ, ◌≡◌, ◌≤◌, true, false, some, arith, ltb}
use perfect_weather_predicti.O1js.{O1js}
use perfect_weather_predicti.MarketTypes.{
  MarketLeaf, WeatherOracleStatement, digest_of, assert_new_market, assert_open, assert_same_config,
  assert_totals_grow, assert_resolution, assert_statement,
}

-- The invariant of a market leaf.
pub record IsWellFormed (m : MarketLeaf) : Type 0 where
  pub yes_within : m.total_yes_position_bet ≤ m.total_position_bet
  pub window : m.close_slot ≤ m.expiry_slot
  pub no_early_outcome : m.resolved ≡ false → m.outcome ≡ false
  pub no_early_statement : m.resolved ≡ false → m.oracle_statement_hash ≡ 0

pub record SameConfig (a b : MarketLeaf) : Type 0 where
  pub config_hash : a.config_hash ≡ b.config_hash
  pub close_slot : a.close_slot ≡ b.close_slot
  pub expiry_slot : a.expiry_slot ≡ b.expiry_slot
  pub threshold : a.threshold_value_tenth_c ≡ b.threshold_value_tenth_c

pub record TotalsGrow (a b : MarketLeaf) : Type 0 where
  pub total : a.total_position_bet ≤ b.total_position_bet
  pub yes : a.total_yes_position_bet ≤ b.total_yes_position_bet

pub assert_new_market-IsWellFormed :
    (m : MarketLeaf) → assert_new_market m ≡ some tt → IsWellFormed m × (m.resolved ≡ false)
unfolding assert_new_market
assert_new_market-IsWellFormed m h = ground arith

pub assert_new_market_totals :
    (m : MarketLeaf)
    → assert_new_market m ≡ some tt
    → (m.total_position_bet ≡ 0) × (m.total_yes_position_bet ≡ 0)
unfolding assert_new_market
assert_new_market_totals m h = ground arith

pub assert_open_facts :
    (a b : MarketLeaf)
    → assert_open a b ≡ some tt
    → (a.resolved ≡ false)
      × (b.resolved ≡ false)
      × (b.outcome ≡ false)
      × (b.oracle_statement_hash ≡ 0)
unfolding assert_open
assert_open_facts a b h = ground arith

pub assert_same_config_facts :
    (a b : MarketLeaf) → assert_same_config a b ≡ some tt → SameConfig a b
unfolding assert_same_config
assert_same_config_facts a b h = ground arith

pub assert_totals_grow_facts :
    (a b : MarketLeaf)
    → assert_totals_grow a b ≡ some tt
    → TotalsGrow a b × (b.total_yes_position_bet ≤ b.total_position_bet)
unfolding assert_totals_grow
assert_totals_grow_facts a b h = ground arith

pub record Resolves (a b : MarketLeaf) (oracle : WeatherOracleStatement) : Type 0 where
  pub config : SameConfig a b
  pub total : a.total_position_bet ≡ b.total_position_bet
  pub yes : a.total_yes_position_bet ≡ b.total_yes_position_bet
  pub resolved : b.resolved ≡ true
  pub outcome : b.outcome ≡ oracle.outcome
  pub statement : b.oracle_statement_hash ≡ oracle.statement_digest

pub assert_resolution_facts :
    (a b : MarketLeaf) (oracle : WeatherOracleStatement)
    → assert_resolution a b oracle ≡ some tt
    → Resolves a b oracle
unfolding assert_resolution
assert_resolution_facts a b oracle h = ground arith

module _ (o : O1js) where
  pub record IsValidStatement (key : ℕ) (m : MarketLeaf) (oracle : WeatherOracleStatement)
      (source path : ℕ) : Type 0 where
    pub source_hash : oracle.source_hash ≡ source
    pub request_path_hash : oracle.request_path_hash ≡ path
    pub not_before : m.close_slot ≤ oracle.observed_at_slot
    pub not_after : oracle.observed_at_slot ≤ m.expiry_slot
    pub threshold : oracle.threshold_value_tenth_c ≡ m.threshold_value_tenth_c
    pub outcome : oracle.outcome ≡ ltb m.threshold_value_tenth_c oracle.observed_value_tenth_c
    pub digest : oracle.statement_digest ≡ digest_of o key oracle

  pub assert_statement_facts :
      (key : ℕ) (m : MarketLeaf) (oracle : WeatherOracleStatement) (source path : ℕ)
      → assert_statement o key m oracle source path ≡ some tt
      → IsValidStatement key m oracle source path
  unfolding assert_statement
  assert_statement_facts key m oracle source path h = ground arith
