-- ===== src/Contract/Backing.antt =====
-- The totals of the markets of the platform contract (src/contract.ts) against the stakes that were
-- bet by claimable bets.
use perfect_weather_predicti.Prelude.{
  ℕ, ◌+◌, ◌≤◌, ◌≡◌, refl, sym, ap, ◌∙◌, ◌++◌, subst₂, Bool, true, false, some, List, [], ◌∷◌, sum,
  arith, ◌==◌, ==_iff, eq_bool, ◌&&◌, if◌then◌else◌, inl, inr, Bool-cases,
}
use perfect_weather_predicti.O1js.{O1js, IsLawful}
use perfect_weather_predicti.O1js.Witnesses.{check_witness, checked_tells}
use perfect_weather_predicti.MarketTypes.{MarketLeaf, hash_market}
use perfect_weather_predicti.MarketTypes.Hashing.{hash_market_injective, hash_market_ne_zero}
use perfect_weather_predicti.Payout.Bounds.{pool_of}
use perfect_weather_predicti.Payout.Solvency.{total_paid, total_paid-le}
use perfect_weather_predicti.Contract.{
  PositionLeaf, PlatformState, PlatformOutcome, hash_position, init, configure_oracle_policy,
  emergency_reset_positions,
}
use perfect_weather_predicti.Contract.Book.{Book, Represents, IsClaimableBet, stakes_on}
use perfect_weather_predicti.Contract.Standing.{Stand-set_free, Stand-claim}
use perfect_weather_predicti.Contract.Simulation.{
  create_market_lem, place_claimable_bet_lem, resolve_weather_market_lem, claim_payout_lem,
}
use perfect_weather_predicti.Contract.BackedCalls.{
  HasTotals, BackedCall, BackedCalls, IsBacked, configured, created, bet, resolved, claimed, reset,
  start, call, is_reset, bet_of, bets_of, standing_of,
}

sum-stakes_on :
    (side : Bool) (k position_key : ℕ) (p : PositionLeaf) (bets : List (ℕ × PositionLeaf))
    → sum (stakes_on side k ((position_key, p) ∷ bets))
      ≡ (if (p.market_key == k) && eq_bool p.side_over side then p.stake else 0)
        + sum (stakes_on side k bets)
sum-stakes_on side k position_key p bets = ground arith

-- What was bet on a side is the pool of that side.
HasTotals-pool_of :
    (bets : List (ℕ × PositionLeaf)) (k : ℕ) (m : MarketLeaf) (side : Bool)
    → HasTotals bets k m
    → sum (stakes_on side k bets) ≤ pool_of side m
HasTotals-pool_of bets k m true t = omega (arith, t)
HasTotals-pool_of bets k m false t = omega (arith, t)

module _ (o : O1js) (l : IsLawful o) where
  open o use {PublicKey, MerkleMapWitness, get, set, empty_map}

  -- A write at `key` of a leaf with the totals of the bets there keeps the rest.
  write-totals :
      (b : Book o) (staked : List (ℕ × PositionLeaf)) (key : ℕ) (new : MarketLeaf)
      → IsBacked o b staked
      → HasTotals staked key new
      → IsBacked o (record b { markets = set b.markets key (hash_market o new) }) staked
  write-totals b staked key new h t = record {
    stand = h.stand;
    unlisted = λ k free. h.unlisted k (
        ground (
          arith,
          free,
          hash_market_ne_zero o l new,
          l.get-set b.markets key (hash_market o new) k,
        ));
    totals = λ k m listed. elim (Bool-cases (key == k)) [
      | inl same ↦
          let e : m ≡ new =
            hash_market_injective o l m new
              (ground (arith, listed, l.get-set b.markets key (hash_market o new) k)) in
          subst₂ (HasTotals staked) ((==_iff key k).0 same) (sym e) t
      | inr other ↦
          h.totals k m (ground (arith, listed, l.get-set b.markets key (hash_market o new) k))
    ];
  }

  bet_totals :
      (b : Book o) (staked : List (ℕ × PositionLeaf)) (key : ℕ) (old new : MarketLeaf)
      (position_key : ℕ) (p : PositionLeaf)
      → IsBacked o b staked
      → IsClaimableBet o b key old new position_key p
      → HasTotals ((position_key, p) ∷ staked) key new
  bet_totals b staked key old new position_key p h f = ground (
    arith,
    f,
    h.totals key old f.listed,
    sum-stakes_on true key position_key p staked,
    sum-stakes_on false key position_key p staked,
  )

  -- A bet is added to the book and to the totals of its market.
  bet-IsBacked :
      (b : Book o) (staked : List (ℕ × PositionLeaf)) (key : ℕ) (old new : MarketLeaf)
      (position_key : ℕ) (p : PositionLeaf)
      → IsBacked o b staked
      → IsClaimableBet o b key old new position_key p
      → IsBacked o
          (record {
            markets = set b.markets key (hash_market o new);
            positions = set b.positions position_key (hash_position o p);
            bets = (position_key, p) ∷ b.bets;
          })
          ((position_key, p) ∷ staked)
  bet-IsBacked b staked key old new position_key p h f = record {
    stand =
        let rest =
          Stand-set_free o l b.positions b.bets position_key (hash_position o p) f.free h.stand in
        (
          inl (ground (arith, l.get-set b.positions position_key (hash_position o p) position_key)),
          f.unclaimed,
          rest.1,
          rest.0,
        );
    unlisted = λ k free. ground (
      arith,
      f.of_market,
      free,
      h.unlisted k,
      hash_market_ne_zero o l new,
      l.get-set b.markets key (hash_market o new) k,
      sum-stakes_on true k position_key p staked,
      sum-stakes_on false k position_key p staked,
    );
    totals = λ k m listed. elim (Bool-cases (key == k)) [
      | inl same ↦
          let e : m ≡ new =
            hash_market_injective o l m new
              (ground (arith, listed, l.get-set b.markets key (hash_market o new) k)) in
          subst₂ (HasTotals ((position_key, p) ∷ staked)) ((==_iff key k).0 same) (sym e)
            (bet_totals b staked key old new position_key p h f)
      | inr other ↦ ground (
        arith,
        f.of_market,
        h.totals k m (ground (arith, listed, l.get-set b.markets key (hash_market o new) k)),
        sum-stakes_on true k position_key p staked,
        sum-stakes_on false k position_key p staked,
      )
    ];
  }

  pub configure-Represents :
      (signed : Bool) (source path : ℕ) (s : PlatformState) (b : Book o) (out : PlatformOutcome o)
      → Represents o s b
      → configure_oracle_policy o signed source path s ≡ some out
      → Represents o out.state b
  unfolding configure_oracle_policy
  configure-Represents signed source path s b out r h = ground arith

  emergency_reset-Represents :
      (signed : Bool) (s : PlatformState) (b : Book o) (out : PlatformOutcome o)
      → Represents o s b
      → emergency_reset_positions o signed s ≡ some out
      → Represents o out.state (record b { positions = empty_map; bets = [] })
  unfolding emergency_reset_positions
  emergency_reset-Represents signed s b out r h = ground arith

  BackedCall-IsBacked :
      (s : PlatformState) (b : Book o) (staked : List (ℕ × PositionLeaf)) (out : PlatformOutcome o)
      → Represents o s b
      → IsBacked o b staked
      → (c : BackedCall o s out)
      → (b' : Book o) × Represents o out.state b'
        × IsBacked o b' (bet_of o c ++ staked)
        × (b'.bets ≡ (if is_reset o c then [] else bet_of o c ++ b.bets))
  BackedCall-IsBacked s b staked out r h (configured signed source path e) =
      (b, configure-Represents signed source path s b out r e, h, refl)
  BackedCall-IsBacked s b staked out r h (created key m w e) =
      let f = create_market_lem o l s b r key m w out e in
      (_, f.3, write-totals b staked key m h (ground (arith, f, h.unlisted key f.0)), refl)
  BackedCall-IsBacked s b staked out r h (bet key old new w position_key p pw e) =
      let f = place_claimable_bet_lem o l s b r key old new w position_key p pw out e in
      (_, f.1, bet-IsBacked b staked key old new position_key p h f.0, refl)
  BackedCall-IsBacked s b staked out r h (resolved key old new w oracle nw e) =
      let f = resolve_weather_market_lem o l s b r key old new w oracle nw out e in
      (_, f.2, write-totals b staked key new h (ground (arith, f.1, h.totals key old f.0)), refl)
  BackedCall-IsBacked s b staked out r h (claimed key m w position_key p pw claimant e) =
      let f = claim_payout_lem o l s b r key m w position_key p pw claimant out e in
      (
        _,
        f.1,
        record {
          stand = Stand-claim o l b.positions b.bets position_key p f.0.held f.0.unclaimed h.stand;
          unlisted = h.unlisted;
          totals = h.totals;
        },
        refl,
      )
  BackedCall-IsBacked s b staked out r h (reset signed e) = (
    _,
    emergency_reset-Represents signed s b out r e,
    record { stand = tt; unlisted = h.unlisted; totals = h.totals },
    refl,
  )

  init-Represents :
      Represents o (init o) (record { markets = empty_map; positions = empty_map; bets = [] })
  unfolding init
  init-Represents = record { markets = refl; positions = refl }

  init-IsBacked : IsBacked o (record { markets = empty_map; positions = empty_map; bets = [] }) []
  init-IsBacked = record {
    stand = tt;
    unlisted = λ k _. (refl, refl);
    totals = λ k m e. absurd (hash_market_ne_zero o l m (sym e ∙ l.get-empty_map k));
  }

  -- From `init` on, along accepted calls of any methods but `placePrivateBet` and `placeReceiptBet`, the roots
  -- are those of a book whose bets are the positions that the calls bet after the last emergency reset,
  -- or at all if there is none. Each of them stands among the positions, claimed or not, under a key of
  -- its own. Every market's totals are the sums of the stakes that the calls ever bet on it, and a key
  -- without a market has no stakes.
  pub BackedCalls-IsBacked :
      (s : PlatformState) (cs : BackedCalls o (init o) s)
      → (b : Book o) × Represents o s b × IsBacked o b (bets_of o cs) × (b.bets ≡ standing_of o cs)
  BackedCalls-IsBacked s start = (_, init-Represents, init-IsBacked, refl)
  BackedCalls-IsBacked s (call {t} out cs c e) =
      let (b, r, h, same) = BackedCalls-IsBacked t cs in
      let (b', r', h', same') = BackedCall-IsBacked t b (bets_of o cs) out r h c in
      (
        b',
        rw (← e) r',
        h',
        same' ∙ ap (λ bets. if is_reset o c then [] else bet_of o c ++ bets) same,
      )

  -- From `init` on, along accepted calls of any methods but `placePrivateBet` and `placeReceiptBet`, a
  -- market that a witness opens in the state is solvent: its total is the sum of the stakes that the
  -- calls bet on its two sides, its YES total that of the stakes on YES, and the payouts in tMINA of all
  -- these bets on either side, were it the outcome, do not exceed its total together. A payout that
  -- the contract rejects counts as 0.
  pub backed_market_solvent :
      (s : PlatformState) (w : MerkleMapWitness) (key : ℕ) (m : MarketLeaf) (side : Bool)
      → (cs : BackedCalls o (init o) s)
      → check_witness o w (hash_market o m) s.markets_root key ≡ some tt
      → HasTotals (bets_of o cs) key m
        × (total_paid o side m (stakes_on side key (bets_of o cs)) ≤ m.total_position_bet)
  backed_market_solvent s w key m side cs opens =
      let (b, r, h, _) = BackedCalls-IsBacked s cs in
      let listed = checked_tells o l w b.markets (hash_market o m) key (rw (← r.markets) opens) in
      let totals = h.totals key m listed in
      let fits = HasTotals-pool_of (bets_of o cs) key m side totals in
      (totals, total_paid-le o l side m (stakes_on side key (bets_of o cs)) fits)
