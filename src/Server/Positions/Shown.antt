-- ===== src/Server/Positions/Shown.antt =====
-- What is shown as claimable, against the checks of a claim (src/marketplace-server.ts, lines 2633 to
-- 2718 and 3139 to 3164).
use perfect_weather_predicti.Prelude.{ℕ, Nullish, ◌≡◌, Option, some, String}
use perfect_weather_predicti.O1js.{NumberText}
use perfect_weather_predicti.MarketTypes.{MarketLeaf}
use perfect_weather_predicti.StateStore.{OperatorState, ClaimStatus, Side}
use perfect_weather_predicti.Contract.{PositionLeaf}
use perfect_weather_predicti.Server.Positions.{
  position_row, ResolvedWalletPosition, resolved_market,
}
use perfect_weather_predicti.Server.Positions.Checks.{IsOwnPosition}

module _ (x : NumberText) (derived : String → Option Side) (s : OperatorState)
    (wallet owner_commitment : String) where
  -- The row of a position, from the values of its entry.
  abbrev IsPositionRow : (key : String) → PositionLeaf → ResolvedWalletPosition → Type 0
  IsPositionRow key p r =
      (market_key : String) × (market_date : Option String) × (status : Nullish ClaimStatus)
      × (hash : Nullish String) × (submitted_at : Nullish ℕ) × (confirmed_at : Nullish ℕ)
      × (leaf : MarketLeaf) × (outcome : Side) × IsOwnPosition x derived s wallet owner_commitment
          key p market_key
      × (resolved_market x derived s market_key ≡ some (some (leaf, outcome)))
      × (position_row x derived s wallet owner_commitment key p market_key market_date status hash
            submitted_at confirmed_at (leaf, outcome)
          ≡ r)
