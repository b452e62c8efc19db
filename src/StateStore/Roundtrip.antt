-- ===== src/StateStore/Roundtrip.antt =====
-- Leaves written to the operator's file and read from it (src/state-store.ts).
use perfect_weather_predicti.Prelude.{ℕ, ◌<◌, ◌≡◌, refl, ap, ◌∙◌, Bool, true, false, some, arith}
use perfect_weather_predicti.O1js.{NumberText, IsLawfulText, uint64_mod}
use perfect_weather_predicti.MarketTypes.{MarketLeaf, to_field}
use perfect_weather_predicti.Contract.{PositionLeaf}
use perfect_weather_predicti.StateStore.{
  parse_bool_field, serialize_market_leaf, deserialize_market_leaf, serialize_position_leaf,
  deserialize_position_leaf,
}

-- The `UInt64` fields of the leaf are in range.
unfoldable pub IsRanged : MarketLeaf → Type 0
IsRanged leaf =
    (leaf.close_slot < uint64_mod)
    × (leaf.expiry_slot < uint64_mod)
    × (leaf.threshold_value_tenth_c < uint64_mod)
    × (leaf.total_position_bet < uint64_mod)
    × (leaf.total_yes_position_bet < uint64_mod)

parse_zero : parse_bool_field "0" ≡ false
unfolding parse_bool_field
parse_zero = refl

parse_one : parse_bool_field "1" ≡ true
unfolding parse_bool_field
parse_one = refl

module _ (x : NumberText) (lawful : IsLawfulText x) where
  open lawful use {field_of-to_string, uint64_of-to_string, to_string_zero, to_string_one}

  parse_bool_field-to_string : (b : Bool) → parse_bool_field (x.to_string (to_field b)) ≡ b
  parse_bool_field-to_string true = ap parse_bool_field to_string_one ∙ parse_one
  parse_bool_field-to_string false = ap parse_bool_field to_string_zero ∙ parse_zero

  pub uint64_of-ranged : (n : ℕ) → n < uint64_mod → x.uint64_of (x.to_string n) ≡ some n
  uint64_of-ranged n below = ground (arith, uint64_of-to_string n)

  -- A market leaf whose `UInt64` fields are in range is read back as it was written.
  pub deserialize_market_leaf-serialize :
      (leaf : MarketLeaf)
      → IsRanged leaf
      → deserialize_market_leaf x (serialize_market_leaf x leaf) ≡ some leaf
  unfolding deserialize_market_leaf serialize_market_leaf IsRanged
  deserialize_market_leaf-serialize leaf ranged =
      let (close, expiry, threshold, total, yes_total) = ranged in
      ground (
        arith,
        field_of-to_string leaf.config_hash,
        uint64_of-ranged leaf.close_slot close,
        uint64_of-ranged leaf.expiry_slot expiry,
        uint64_of-ranged leaf.threshold_value_tenth_c threshold,
        uint64_of-ranged leaf.total_position_bet total,
        uint64_of-ranged leaf.total_yes_position_bet yes_total,
        parse_bool_field-to_string leaf.resolved,
        parse_bool_field-to_string leaf.outcome,
        field_of-to_string leaf.oracle_statement_hash,
      )

  -- A position leaf whose stake is in range is read back as it was written.
  pub deserialize_position_leaf-serialize :
      (leaf : PositionLeaf)
      → leaf.stake < uint64_mod
      → deserialize_position_leaf x (serialize_position_leaf x leaf) ≡ some leaf
  unfolding deserialize_position_leaf serialize_position_leaf
  deserialize_position_leaf-serialize leaf ranged = ground (
    arith,
    field_of-to_string leaf.market_key,
    uint64_of-ranged leaf.stake ranged,
    field_of-to_string leaf.owner_commitment,
    parse_bool_field-to_string leaf.side_over,
    parse_bool_field-to_string leaf.claimed,
  )
