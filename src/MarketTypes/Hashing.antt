-- ===== src/MarketTypes/Hashing.antt =====
-- A market leaf is determined by its hash.
use perfect_weather_predicti.Prelude.{◌≡◌, ◌≢◌, refl, Bool, arith}
use perfect_weather_predicti.O1js.{O1js, IsLawful}
use perfect_weather_predicti.MarketTypes.{MarketLeaf, to_field, market_fields, hash_market}

pub to_field_injective : (a b : Bool) → to_field a ≡ to_field b → a ≡ b
to_field_injective a b h = ground arith

market_fields_injective : (a b : MarketLeaf) → market_fields a ≡ market_fields b → a ≡ b
market_fields_injective a b h =
    ground (arith, to_field_injective a.resolved b.resolved, to_field_injective a.outcome b.outcome)

module _ (o : O1js) (l : IsLawful o) where
  pub hash_market_injective : (a b : MarketLeaf) → hash_market o a ≡ hash_market o b → a ≡ b
  unfolding hash_market
  hash_market_injective a b h =
      market_fields_injective a b (l.hash_injective (market_fields a) (market_fields b) refl h)

  pub hash_market_ne_zero : (a : MarketLeaf) → hash_market o a ≢ 0
  unfolding hash_market
  hash_market_ne_zero a = l.hash_ne_zero (market_fields a)
