-- ===== src/Contract/Book.antt =====
-- The maps behind the roots of the platform contract (src/contract.ts), and the positions that were
-- bet into them.
use perfect_weather_predicti.Prelude.{
  ℕ, ◌+◌, ◌<◌, ◌≡◌, ◌≢◌, ◌⊎◌, Bool, true, false, List, [], ◌∷◌, ◌==◌, eq_bool, ◌&&◌, if◌then◌else◌,
}
use perfect_weather_predicti.O1js.{O1js}
use perfect_weather_predicti.MarketTypes.{MarketLeaf, hash_market}
use perfect_weather_predicti.MarketTypes.Facts.{SameConfig}
use perfect_weather_predicti.Contract.{PositionLeaf, PlatformState, hash_position}

abbrev pub as_claimed : PositionLeaf → PositionLeaf
as_claimed p = record p { claimed = true }

-- The stakes on one side of one market, latest first.
abbrev pub stakes_on : Bool → ℕ → List (ℕ × PositionLeaf) → List ℕ
stakes_on side key [] = []
stakes_on side key ((_, p) ∷ bets) =
    let rest = stakes_on side key bets in
    if (p.market_key == key) && eq_bool p.side_over side then p.stake ∷ rest else rest

-- No bet under this key.
abbrev pub Absent : ℕ → List (ℕ × PositionLeaf) → Type 0
Absent key [] = Unit
Absent key ((k, _) ∷ bets) = (k ≢ key) × Absent key bets

module _ (o : O1js) where
  open o use {MerkleMap, get, set, get_root}

  pub record Book : Type 0 where
    pub markets : MerkleMap
    pub positions : MerkleMap
    pub bets : List (ℕ × PositionLeaf)

  pub record Represents (s : PlatformState) (b : Book) : Type 0 where
    pub markets : s.markets_root ≡ get_root b.markets
    pub positions : s.positions_root ≡ get_root b.positions

  -- Every bet stands among the positions under a key of its own, claimed or not.
  abbrev pub Stand : MerkleMap → List (ℕ × PositionLeaf) → Type 0
  Stand positions [] = Unit
  Stand positions ((k, p) ∷ bets) =
      ((get positions k ≡ hash_position o p) ⊎ (get positions k ≡ hash_position o (as_claimed p)))
      × (p.claimed ≡ false)
      × Absent k bets
      × Stand positions bets

  pub record IsClaimableBet (b : Book) (key : ℕ) (old new : MarketLeaf) (position_key : ℕ)
      (p : PositionLeaf) : Type 0 where
    pub listed : get b.markets key ≡ hash_market o old
    pub free : get b.positions position_key ≡ 0
    pub open_before : old.resolved ≡ false
    pub config : SameConfig old new
    pub of_market : p.market_key ≡ key
    pub unclaimed : p.claimed ≡ false
    pub staked : 0 < p.stake
    pub total : new.total_position_bet ≡ old.total_position_bet + p.stake
    pub yes_total :
        new.total_yes_position_bet
        ≡ (if p.side_over then old.total_yes_position_bet + p.stake else old.total_yes_position_bet)
