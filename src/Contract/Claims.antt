-- ===== src/Contract/Claims.antt =====
-- Claims of positions, and what destroys positions, in the platform contract (src/contract.ts).
use perfect_weather_predicti.Prelude.{
  ℕ, ◌*◌, ◌/◌, ◌≡◌, sym, ◌∙◌, ap, Bool, true, false, some, none, [], ◌∷◌, arith, inl, inr,
  Option-cases, some_of_ne_none,
}
use perfect_weather_predicti.O1js.{O1js, IsLawful}
use perfect_weather_predicti.O1js.Witnesses.{check_witness_at, checked_tells}
use perfect_weather_predicti.MarketTypes.{
  MarketLeaf, hash_market, assert_open, assert_same_config, assert_totals_grow,
}
use perfect_weather_predicti.MarketTypes.Facts.{IsWellFormed}
use perfect_weather_predicti.Payout.{payout_nanomina, nanomina_per_tmina}
use perfect_weather_predicti.Payout.Bounds.{pool_of, payout_nanomina_facts}
use perfect_weather_predicti.Contract.{
  PositionLeaf, PlatformState, PlatformOutcome, hash_position, init, place_private_bet,
  claim_payout, emergency_reset_positions,
}
use perfect_weather_predicti.Contract.Book.{Book, Represents, as_claimed}
use perfect_weather_predicti.Contract.Standing.{hash_position_injective, hash_position_ne_zero}
use perfect_weather_predicti.Contract.Simulation.{
  assert_winning_position_facts, create_market_lem, place_claimable_bet_lem,
  resolve_weather_market_lem, claim_payout_lem,
}
use perfect_weather_predicti.Contract.BackedCalls.{
  BackedCall, configured, created, bet, resolved, claimed, reset, BackedCalls, start, call,
  is_reset, has_reset,
}
use perfect_weather_predicti.Contract.Backing.{configure-Represents, BackedCalls-IsBacked}

module _ (o : O1js) (l : IsLawful o) where
  open o use {PublicKey, MerkleMap, MerkleMapWitness, get, set, get_root, get_witness, empty_map}

  -- An accepted claim is of a resolved market and of a position of it on the winning side that is
  -- not claimed; it makes one payment, to the claimant, of the stake's share of the pot in nanomina,
  -- and changes the root of the positions alone.
  pub claim_payout_effect :
      (key : ℕ) (m : MarketLeaf) (w : MerkleMapWitness) (position_key : ℕ) (p : PositionLeaf)
      → (pw : MerkleMapWitness) (claimant : PublicKey) (s : PlatformState)
      → (out : PlatformOutcome o) → claim_payout o key m w position_key p pw claimant s ≡ some out
      → (m.resolved ≡ true)
        × (p.market_key ≡ key)
        × (p.claimed ≡ false)
        × (p.side_over ≡ m.outcome)
        × (out.sends
            ≡ (
              claimant,
              ((m.total_position_bet * p.stake) / pool_of m.outcome m) * nanomina_per_tmina,
            )
              ∷ [])
        × (record out.state { positions_root = s.positions_root } ≡ s)
  unfolding claim_payout
  claim_payout_effect key m w position_key p pw claimant s out h =
      elim (Option-cases (payout_nanomina o m.outcome m p.stake)) [
        | inl no_payout ↦ absurd (ground arith)
        | inr (amount, e) ↦
            let (payout, pays, amount_eq, _) =
              payout_nanomina_facts o l m.outcome m p.stake amount e in
            let winning = assert_winning_position_facts o l key m p claimant in
            let sent : out.sends ≡ (claimant, amount) ∷ [] = ground arith in
            (
              ground arith,
              ground (arith, winning),
              ground (arith, winning),
              ground (arith, winning),
              sent ∙ ap (λ (a : ℕ). (claimant, a) ∷ []) (rw (amount_eq, pays.payout_eq)),
              ground arith,
            )
      ]

  -- A position that is marked as claimed stays so, whatever call but a reset is accepted.
  BackedCall-claimed :
      (position_key : ℕ) (q : PositionLeaf) (s : PlatformState) (b : Book o)
      → (out : PlatformOutcome o) → Represents o s b
      → get b.positions position_key ≡ hash_position o (as_claimed q)
      → (c : BackedCall o s out) → is_reset o c ≡ false
      → (b' : Book o) × Represents o out.state b'
        × (get b'.positions position_key ≡ hash_position o (as_claimed q))
  BackedCall-claimed position_key q s b out r h (configured signed source path e) kept =
      (b, configure-Represents o l signed source path s b out r e, h)
  BackedCall-claimed position_key q s b out r h (created key m w e) kept =
      let f = create_market_lem o l s b r key m w out e in (_, f.3, h)
  BackedCall-claimed position_key q s b out r h (bet key old new w pk p pw e) kept =
      let f = place_claimable_bet_lem o l s b r key old new w pk p pw out e in
      (
        _,
        f.1,
        ground (
          arith,
          h,
          f.0.free,
          hash_position_ne_zero o l (as_claimed q),
          l.get-set b.positions pk (hash_position o p) position_key,
        ),
      )
  BackedCall-claimed position_key q s b out r h (resolved key old new w oracle nw e) kept =
      let f = resolve_weather_market_lem o l s b r key old new w oracle nw out e in (_, f.2, h)
  BackedCall-claimed position_key q s b out r h (claimed key m w pk p pw claimant e) kept =
      let f = claim_payout_lem o l s b r key m w pk p pw claimant out e in
      (
        _,
        f.1,
        ground (
          arith,
          h,
          f.0.held,
          f.0.unclaimed,
          hash_position_injective o l p (as_claimed q),
          l.get-set b.positions pk (hash_position o (as_claimed p)) position_key,
        ),
      )
  BackedCall-claimed position_key q s b out r h (reset signed e) kept = absurd (ground arith)

  BackedCalls-claimed :
      (position_key : ℕ) (q : PositionLeaf) {s t : PlatformState} (b : Book o)
      → (cs : BackedCalls o s t) → has_reset o cs ≡ false
      → Represents o s b
      → get b.positions position_key ≡ hash_position o (as_claimed q)
      → (b' : Book o) × Represents o t b'
        × (get b'.positions position_key ≡ hash_position o (as_claimed q))
  BackedCalls-claimed position_key q b start kept r h = (b, r, h)
  BackedCalls-claimed position_key q b (call out cs c e) kept r h =
      let (b', r', h') = BackedCalls-claimed position_key q b cs (ground arith) r h in
      let (b'', r'', h'') = BackedCall-claimed position_key q _ b' out r' h' c (ground arith) in
      (b'', rw (← e) r'', h'')

  -- Along accepted calls of any methods but `placePrivateBet` and `placeReceiptBet` a position is paid
  -- once until the next emergency reset: after an accepted claim, and any such calls without a reset
  -- among them, every claim under its key is rejected, whatever its other arguments. Before the claim
  -- there may be resets.
  pub position_claimed_once :
      (s t : PlatformState) (out : PlatformOutcome o)
      → (key : ℕ) (m : MarketLeaf) (w : MerkleMapWitness) (position_key : ℕ) (p : PositionLeaf)
      → (pw : MerkleMapWitness) (claimant : PublicKey)
      → (key' : ℕ) (m' : MarketLeaf) (w' : MerkleMapWitness) (p' : PositionLeaf)
      → (pw' : MerkleMapWitness) (claimant' : PublicKey) → BackedCalls o (init o) s
      → claim_payout o key m w position_key p pw claimant s ≡ some out
      → (after : BackedCalls o out.state t) → has_reset o after ≡ false
      → claim_payout o key' m' w' position_key p' pw' claimant' t ≡ none
  position_claimed_once s t out key m w position_key p pw claimant key' m' w' p' pw' claimant'
        before h after kept =
      let (b, r, _, _) = BackedCalls-IsBacked o l s before in
      let first = claim_payout_lem o l s b r key m w position_key p pw claimant out h in
      let marked = BackedCalls-claimed position_key p _ after kept first.1 (
        ground (
          arith,
          l.get-set b.positions position_key (hash_position o (as_claimed p)) position_key,
        )) in
      elim (Option-cases (claim_payout o key' m' w' position_key p' pw' claimant' t)) [
        | inl rejected ↦ rejected
        | inr (out', h') ↦
            let second =
              claim_payout_lem o l t marked.0 marked.1 key' m' w' position_key p' pw' claimant' out'
                h' in
            absurd (
              ground (
                arith,
                hash_position_injective o l p' (as_claimed p) (sym second.0.held ∙ marked.2),
                second.0.unclaimed,
              ))
      ]

  -- The emergency reset is accepted exactly with the contract's signature. It empties the positions,
  -- so every claim that follows it directly is rejected: bets that were not yet paid are lost.
  pub emergency_reset_rejects_claims :
      (signed : Bool) (s : PlatformState) (out : PlatformOutcome o)
      → (key : ℕ) (m : MarketLeaf) (w : MerkleMapWitness) (position_key : ℕ) (p : PositionLeaf)
      → (pw : MerkleMapWitness) (claimant : PublicKey)
      → emergency_reset_positions o signed s ≡ some out
      → (signed ≡ true) × (claim_payout o key m w position_key p pw claimant out.state ≡ none)
  unfolding emergency_reset_positions claim_payout
  emergency_reset_rejects_claims signed s out key m w position_key p pw claimant h = (
    ground arith,
    ground (
      arith,
      checked_tells o l pw empty_map (hash_position o p) position_key,
      l.get-empty_map position_key,
      hash_position_ne_zero o l p,
    ),
  )

  -- Anybody can replace the positions: with an open market at hand, a private bet that adds nothing
  -- to it is accepted and sets the root of the positions to any value, without a signature.
  pub private_bet_replaces_positions :
      (s : PlatformState) (b : Book o) (key : ℕ) (m : MarketLeaf) (next_root digest : ℕ)
      → Represents o s b
      → get b.markets key ≡ hash_market o m
      → IsWellFormed m
      → m.resolved ≡ false
      → (out : PlatformOutcome o) × (place_private_bet o key m m
            (get_witness b.markets key)
            next_root
            digest
            s
          ≡ some out)
        × (out.state.positions_root ≡ next_root)
  unfolding place_private_bet assert_open assert_same_config assert_totals_grow
  private_bet_replaces_positions s b key m next_root digest r listed w u =
      let opens =
        check_witness_at o l b.markets key (hash_market o m) s.markets_root r.markets listed in
      let (out, e) =
        some_of_ne_none (place_private_bet o key m m (get_witness b.markets key) next_root digest s)
          λ rejected.
            ground (arith, w.yes_within, w.no_early_outcome u, w.no_early_statement u, opens) in
      (out, e, ground (arith, opens))
