-- ===== src/Contract/BackedCalls.antt =====
-- Calls of the platform contract (src/contract.ts) that bet only with positions, the emergency reset
-- among them, and what it means that the totals of the markets are the stakes of these bets.
use perfect_weather_predicti.Prelude.{
  ℕ, ◌+◌, ◌≡◌, Bool, true, false, some, List, [], ◌∷◌, ◌++◌, ◌||◌, if◌then◌else◌, sum,
}
use perfect_weather_predicti.O1js.{O1js}
use perfect_weather_predicti.MarketTypes.{MarketLeaf, WeatherOracleStatement, hash_market}
use perfect_weather_predicti.Contract.{
  PositionLeaf, PlatformState, PlatformOutcome, configure_oracle_policy, create_market,
  place_claimable_bet, resolve_weather_market, claim_payout, emergency_reset_positions,
}
use perfect_weather_predicti.Contract.Book.{Book, Stand, stakes_on}

-- The totals of a market are the stakes that were bet on it.
abbrev pub HasTotals : List (ℕ × PositionLeaf) → ℕ → MarketLeaf → Type 0
HasTotals bets k m =
    (m.total_yes_position_bet ≡ sum (stakes_on true k bets))
    × (m.total_position_bet ≡ sum (stakes_on true k bets) + sum (stakes_on false k bets))

module _ (o : O1js) where
  open o use {PublicKey, MerkleMapWitness, get, set, empty_map}

  -- An accepted call of any method but `placePrivateBet` and `placeReceiptBet`, which bet without a
  -- position that the contract checks.
  pub data BackedCall (s : PlatformState) (out : PlatformOutcome o) : Type 0 where
    configured :
        (signed : Bool) (source path : ℕ)
        → configure_oracle_policy o signed source path s ≡ some out
        → BackedCall s out
    created :
        (key : ℕ) (m : MarketLeaf) (w : MerkleMapWitness)
        → create_market o key m w s ≡ some out
        → BackedCall s out
    bet :
        (key : ℕ) (old new : MarketLeaf) (w : MerkleMapWitness) (position_key : ℕ)
        → (p : PositionLeaf) (position_witness : MerkleMapWitness)
        → place_claimable_bet o key old new w position_key p position_witness s ≡ some out
        → BackedCall s out
    resolved :
        (key : ℕ) (old new : MarketLeaf) (w : MerkleMapWitness) (oracle : WeatherOracleStatement)
        → (nonce_witness : MerkleMapWitness)
        → resolve_weather_market o key old new w oracle nonce_witness s ≡ some out
        → BackedCall s out
    claimed :
        (key : ℕ) (m : MarketLeaf) (w : MerkleMapWitness) (position_key : ℕ) (p : PositionLeaf)
        → (position_witness : MerkleMapWitness) (claimant : PublicKey)
        → claim_payout o key m w position_key p position_witness claimant s ≡ some out
        → BackedCall s out
    reset : (signed : Bool) → emergency_reset_positions o signed s ≡ some out → BackedCall s out

  pub data BackedCalls (s : PlatformState) : PlatformState → Type 0 where
    start : BackedCalls s s
    call :
        {t u : PlatformState} (out : PlatformOutcome o)
        → BackedCalls s t
        → BackedCall t out
        → out.state ≡ u
        → BackedCalls s u

  abbrev pub is_reset : {s : PlatformState} {out : PlatformOutcome o} → BackedCall s out → Bool
  is_reset (configured signed source path e) = false
  is_reset (created key m w e) = false
  is_reset (bet key old new w position_key p pw e) = false
  is_reset (resolved key old new w oracle nw e) = false
  is_reset (claimed key m w position_key p pw claimant e) = false
  is_reset (reset signed e) = true

  -- Whether the positions are reset along the calls.
  abbrev pub has_reset : {s t : PlatformState} → BackedCalls s t → Bool
  has_reset start = false
  has_reset (call out cs c e) = is_reset c || has_reset cs

  -- The position that a call bets, if it bets one.
  abbrev pub bet_of :
      {s : PlatformState} {out : PlatformOutcome o} → BackedCall s out → List (ℕ × PositionLeaf)
  bet_of (configured signed source path e) = []
  bet_of (created key m w e) = []
  bet_of (bet key old new w position_key p pw e) = (position_key, p) ∷ []
  bet_of (resolved key old new w oracle nw e) = []
  bet_of (claimed key m w position_key p pw claimant e) = []
  bet_of (reset signed e) = []

  -- All the positions that the calls bet, latest first.
  abbrev pub bets_of : {s t : PlatformState} → BackedCalls s t → List (ℕ × PositionLeaf)
  bets_of start = []
  bets_of (call out cs c e) = bet_of c ++ bets_of cs

  -- Those of them that were bet after the last reset.
  abbrev pub standing_of : {s t : PlatformState} → BackedCalls s t → List (ℕ × PositionLeaf)
  standing_of start = []
  standing_of (call out cs c e) = if is_reset c then [] else bet_of c ++ standing_of cs

  -- The book's bets stand among its positions, the totals of every market are the stakes that were ever
  -- bet on it, and a key with no market has no stakes.
  pub record IsBacked (b : Book o) (staked : List (ℕ × PositionLeaf)) : Type 0 where
    pub stand : Stand o b.positions b.bets
    pub unlisted :
        (k : ℕ)
        → get b.markets k ≡ 0
        → (sum (stakes_on true k staked) ≡ 0) × (sum (stakes_on false k staked) ≡ 0)
    pub totals : (k : ℕ) (m : MarketLeaf) → get b.markets k ≡ hash_market o m → HasTotals staked k m
