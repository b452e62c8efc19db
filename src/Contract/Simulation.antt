-- ===== src/Contract/Simulation.antt =====
-- What accepted calls of the platform contract (src/contract.ts) do to the maps behind the roots.
use perfect_weather_predicti.Prelude.{
  ℕ, ◌+◌, ◌<◌, ◌≡◌, true, false, some, ◌∷◌, arith, inl, inr, Option-cases, if◌then◌else◌,
}
use perfect_weather_predicti.O1js.{O1js, IsLawful}
use perfect_weather_predicti.O1js.Witnesses.{checked_tells, checked_writes}
use perfect_weather_predicti.MarketTypes.{MarketLeaf, WeatherOracleStatement, hash_market}
use perfect_weather_predicti.MarketTypes.Facts.{
  Resolves, assert_new_market_totals, assert_open_facts, assert_same_config_facts,
  assert_resolution_facts,
}
use perfect_weather_predicti.Payout.{payout_nanomina}
use perfect_weather_predicti.Contract.{
  PositionLeaf, PlatformState, PlatformOutcome, hash_position, create_market, place_claimable_bet,
  resolve_weather_market, claim_payout, assert_new_position, assert_stake_added,
  assert_winning_position,
}
use perfect_weather_predicti.Contract.Book.{Book, Represents, IsClaimableBet, as_claimed}

module _ (o : O1js) (l : IsLawful o) where
  open o use {PublicKey, MerkleMapWitness, to_fields, hash, get, set, get_root}

  assert_new_position_facts :
      (key : ℕ) (p : PositionLeaf)
      → assert_new_position o key p ≡ some tt
      → (p.market_key ≡ key) × (p.claimed ≡ false) × (0 < p.stake)
  unfolding assert_new_position
  assert_new_position_facts key p h = ground arith

  assert_stake_added_facts :
      (old new : MarketLeaf) (p : PositionLeaf)
      → assert_stake_added o old new p ≡ some tt
      → (new.total_position_bet ≡ old.total_position_bet + p.stake)
        × (new.total_yes_position_bet ≡ (
            if p.side_over
            then old.total_yes_position_bet + p.stake
            else old.total_yes_position_bet))
  unfolding assert_stake_added
  assert_stake_added_facts old new p h = ground (
    arith,
    l.add_lem old.total_position_bet p.stake,
    l.add_lem old.total_yes_position_bet p.stake,
  )

  -- What a winning claim shows.
  pub record IsPositionClaim (b : Book o) (key : ℕ) (m : MarketLeaf) (position_key : ℕ)
      (p : PositionLeaf) (claimant : PublicKey) : Type 0 where
    pub listed : get b.markets key ≡ hash_market o m
    pub resolved : m.resolved ≡ true
    pub held : get b.positions position_key ≡ hash_position o p
    pub of_market : p.market_key ≡ key
    pub unclaimed : p.claimed ≡ false
    pub owned : p.owner_commitment ≡ hash (to_fields claimant)
    pub won : p.side_over ≡ m.outcome

  pub assert_winning_position_facts :
      (key : ℕ) (m : MarketLeaf) (p : PositionLeaf) (claimant : PublicKey)
      → assert_winning_position o key m p claimant ≡ some tt
      → (p.market_key ≡ key)
        × (p.claimed ≡ false)
        × (p.owner_commitment ≡ hash (to_fields claimant))
        × (p.side_over ≡ m.outcome)
  unfolding assert_winning_position
  assert_winning_position_facts key m p claimant h = ground arith

  module _ (s : PlatformState) (b : Book o) (r : Represents o s b) where
    pub create_market_lem :
        (key : ℕ) (m : MarketLeaf) (w : MerkleMapWitness) (out : PlatformOutcome o)
        → create_market o key m w s ≡ some out
        → (get b.markets key ≡ 0)
          × (m.total_position_bet ≡ 0)
          × (m.total_yes_position_bet ≡ 0)
          × Represents o out.state (record b { markets = set b.markets key (hash_market o m) })
    unfolding create_market
    create_market_lem key m w out h = ground (
      arith,
      checked_tells o l w b.markets 0 key,
      checked_writes o l w b.markets 0 key (hash_market o m),
      assert_new_market_totals m,
    )

    pub place_claimable_bet_lem :
        (key : ℕ) (old new : MarketLeaf) (w : MerkleMapWitness) (position_key : ℕ)
        → (p : PositionLeaf) (pw : MerkleMapWitness) (out : PlatformOutcome o)
        → place_claimable_bet o key old new w position_key p pw s ≡ some out
        → IsClaimableBet o b key old new position_key p
          × Represents o out.state (record {
            markets = set b.markets key (hash_market o new);
            positions = set b.positions position_key (hash_position o p);
            bets = (position_key, p) ∷ b.bets;
          })
    unfolding place_claimable_bet
    place_claimable_bet_lem key old new w position_key p pw out h = ground (
      arith,
      checked_tells o l w b.markets (hash_market o old) key,
      checked_writes o l w b.markets (hash_market o old) key (hash_market o new),
      checked_tells o l pw b.positions 0 position_key,
      checked_writes o l pw b.positions 0 position_key (hash_position o p),
      assert_open_facts old new,
      assert_new_position_facts key p,
      assert_same_config_facts old new,
      assert_stake_added_facts old new p,
    )

    pub resolve_weather_market_lem :
        (key : ℕ) (old new : MarketLeaf) (w : MerkleMapWitness) (oracle : WeatherOracleStatement)
        → (nw : MerkleMapWitness) (out : PlatformOutcome o)
        → resolve_weather_market o key old new w oracle nw s ≡ some out
        → (get b.markets key ≡ hash_market o old)
          × Resolves old new oracle
          × Represents o out.state (record b { markets = set b.markets key (hash_market o new) })
    unfolding resolve_weather_market
    resolve_weather_market_lem key old new w oracle nw out h = ground (
      arith,
      checked_tells o l w b.markets (hash_market o old) key,
      checked_writes o l w b.markets (hash_market o old) key (hash_market o new),
      assert_resolution_facts old new oracle,
    )

    pub claim_payout_lem :
        (key : ℕ) (m : MarketLeaf) (w : MerkleMapWitness) (position_key : ℕ) (p : PositionLeaf)
        → (pw : MerkleMapWitness) (claimant : PublicKey) (out : PlatformOutcome o)
        → claim_payout o key m w position_key p pw claimant s ≡ some out
        → IsPositionClaim b key m position_key p claimant
          × Represents o out.state (record b {
            positions = set b.positions position_key (hash_position o (as_claimed p));
          })
    unfolding claim_payout
    claim_payout_lem key m w position_key p pw claimant out h =
        elim (Option-cases (payout_nanomina o m.outcome m p.stake)) [
          | inl no_payout ↦ absurd (ground arith)
          | inr (amount, e) ↦ ground (
            arith,
            e,
            checked_tells o l w b.markets (hash_market o m) key,
            checked_tells o l pw b.positions (hash_position o p) position_key,
            checked_writes o l pw b.positions (hash_position o p) position_key
                (hash_position o (as_claimed p)),
            assert_winning_position_facts key m p claimant,
          )
        ]
