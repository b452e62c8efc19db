-- ===== src/Contract.antt =====
-- src/contract.ts: the platform contract with positions, which the application keeps beside the
-- fast contract. As there, a method is a function of its arguments and the on-chain state, and
-- `none` is an assertion that fails.
mod State
pub mod Book
pub mod Standing
pub mod BackedCalls
pub mod Backing
pub mod Claims
mod Tests
pub mod Simulation
pub use State.*
use perfect_weather_predicti.Prelude.{
  ℕ, ◌+◌, Bool, true, false, Option, some, List, [], ◌∷◌, ltb, ◌==◌, eq_bool, not, if◌then◌else◌,
  assert, ◌>>=◌, ◌>>◌,
}
use perfect_weather_predicti.O1js.{O1js}
use perfect_weather_predicti.O1js.Witnesses.{check_witness, root_with}
use perfect_weather_predicti.MarketTypes.{
  MarketLeaf, WeatherOracleStatement, hash_market, to_field, assert_new_market, assert_open,
  assert_same_config, assert_totals_grow, assert_resolution, assert_statement,
}
use perfect_weather_predicti.Transaction.{
  Outcome, AuthRequired, proof_or_signature, MarketSnapshotEvent, MarketResolvedEvent,
  ReceiptCommittedEvent, snapshot_event, resolved_event,
}
use perfect_weather_predicti.Payout.{payout_nanomina}

module _ (o : O1js) where
  open o use {PublicKey, to_fields, hash, add, empty_map, get_root, MerkleMapWitness}

  abbrev pub PlatformOutcome : Type 0
  PlatformOutcome = Outcome PlatformState PlatformEvent (PublicKey × ℕ)

  -- `PositionLeaf.hash`
  unfoldable pub hash_position : PositionLeaf → ℕ
  hash_position p = hash (position_fields p)

  unfoldable pub init : PlatformState
  init = record {
    markets_root = get_root empty_map;
    positions_root = get_root empty_map;
    receipts_root = get_root empty_map;
    used_oracle_nonce_root = get_root empty_map;
    oracle_source_hash = 0;
    oracle_request_path_hash = 0;
    market_count = 0;
    edit_state = proof_or_signature;
  }

  -- `signed`: the transaction carries the signature of the contract's key.
  unfoldable pub configure_oracle_policy : Bool → ℕ → ℕ → PlatformState → Option PlatformOutcome
  configure_oracle_policy signed source_hash request_path_hash s = do
    assert signed
    some (record {
      state = record s {
        oracle_source_hash = source_hash;
        oracle_request_path_hash = request_path_hash;
      };
      events = [];
      sends = [];
    })

  unfoldable pub create_market :
      ℕ → MarketLeaf → MerkleMapWitness → PlatformState → Option PlatformOutcome
  create_market market_key market market_witness s = do
    check_witness o market_witness 0 s.markets_root market_key
    assert_new_market market
    count ← add s.market_count 1
    some (record {
      state = record s {
        markets_root = root_with o market_witness (hash_market o market);
        market_count = count;
      };
      events = market_created (snapshot_event market_key market) ∷ [];
      sends = [];
    })

  unfoldable pub place_private_bet :
      (market_key : ℕ) (old new : MarketLeaf) (market_witness : MerkleMapWitness)
      → (next_positions_root position_transition_digest : ℕ) → PlatformState
      → Option PlatformOutcome
  place_private_bet market_key old new market_witness next_positions_root position_transition_digest
        s =
      do
        check_witness o market_witness (hash_market o old) s.markets_root market_key
        assert_open old new
        assert_same_config old new
        assert_totals_grow old new
        some (record {
          state = record s {
            markets_root = root_with o market_witness (hash_market o new);
            positions_root = next_positions_root;
          };
          events =
              market_updated (snapshot_event market_key new)
              ∷ trade_settled (record {
                market_key = market_key;
                transition_digest = position_transition_digest;
                next_positions_root = next_positions_root;
              })
              ∷ [];
          sends = [];
        })

  -- The position is of this market, not claimed, and has a stake.
  unfoldable pub assert_new_position : ℕ → PositionLeaf → Option (Unit {0})
  assert_new_position market_key p = do
    assert (p.market_key == market_key)
    assert (not p.claimed)
    assert (ltb 0 p.stake)

  -- The stake is added to the total, and to the YES total on that side. `Provable.if` computes both
  -- branches, so the sum is range-checked on either side.
  unfoldable pub assert_stake_added : MarketLeaf → MarketLeaf → PositionLeaf → Option (Unit {0})
  assert_stake_added old new p = do
    total ← add old.total_position_bet p.stake
    assert (new.total_position_bet == total)
    yes_total ← add old.total_yes_position_bet p.stake
    assert (
        new.total_yes_position_bet
        == (if p.side_over then yes_total else old.total_yes_position_bet))

  unfoldable pub place_claimable_bet :
      (market_key : ℕ) (old new : MarketLeaf) (market_witness : MerkleMapWitness)
      → (position_key : ℕ) → PositionLeaf
      → (position_witness : MerkleMapWitness) → PlatformState
      → Option PlatformOutcome
  place_claimable_bet market_key old new market_witness position_key p position_witness s = do
    check_witness o market_witness (hash_market o old) s.markets_root market_key
    check_witness o position_witness 0 s.positions_root position_key
    assert_open old new
    assert_new_position market_key p
    assert_same_config old new
    assert_stake_added old new p
    some (record {
      state = record s {
        markets_root = root_with o market_witness (hash_market o new);
        positions_root = root_with o position_witness (hash_position p);
      };
      events =
          market_updated (snapshot_event market_key new)
          ∷ trade_settled (record {
            market_key = market_key;
            transition_digest = hash (position_key ∷ hash_position p ∷ []);
            next_positions_root = root_with o position_witness (hash_position p);
          })
          ∷ position_changed (position_event position_key p)
          ∷ [];
      sends = [];
    })

  unfoldable pub place_receipt_bet :
      (market_key : ℕ) (old new : MarketLeaf) (market_witness : MerkleMapWitness)
      → (receipt_key receipt_commitment : ℕ) (receipt_witness : MerkleMapWitness)
      → (owner_commitment : ℕ) → PlatformState
      → Option PlatformOutcome
  place_receipt_bet market_key old new market_witness receipt_key receipt_commitment receipt_witness
        owner_commitment s =
      do
        check_witness o market_witness (hash_market o old) s.markets_root market_key
        check_witness o receipt_witness 0 s.receipts_root receipt_key
        assert_open old new
        assert_same_config old new
        assert_totals_grow old new
        some (record {
          state = record s {
            markets_root = root_with o market_witness (hash_market o new);
            receipts_root = root_with o receipt_witness receipt_commitment;
          };
          events =
              market_updated (snapshot_event market_key new)
              ∷ receipt_committed (record {
                receipt_key = receipt_key;
                market_key = market_key;
                owner_commitment = owner_commitment;
                receipt_commitment = receipt_commitment;
              })
              ∷ [];
          sends = [];
        })

  unfoldable pub resolve_weather_market :
      (market_key : ℕ) (old resolved : MarketLeaf) (market_witness : MerkleMapWitness)
      → WeatherOracleStatement
      → (nonce_witness : MerkleMapWitness) → PlatformState
      → Option PlatformOutcome
  resolve_weather_market market_key old resolved market_witness oracle nonce_witness s = do
    check_witness o market_witness (hash_market o old) s.markets_root market_key
    assert (not old.resolved)
    assert (old.oracle_statement_hash == 0)
    assert_statement o market_key old oracle s.oracle_source_hash s.oracle_request_path_hash
    check_witness o nonce_witness 0 s.used_oracle_nonce_root oracle.nonce
    assert_resolution old resolved oracle
    some (record {
      state = record s {
        used_oracle_nonce_root = root_with o nonce_witness 1;
        markets_root = root_with o market_witness (hash_market o resolved);
      };
      events = market_resolved (resolved_event market_key resolved oracle.nonce) ∷ [];
      sends = [];
    })

  -- The claimant owns the position, which is of this market, not claimed, and on the winning side.
  unfoldable pub assert_winning_position :
      ℕ → MarketLeaf → PositionLeaf → PublicKey → Option (Unit {0})
  assert_winning_position market_key resolved p claimant = do
    assert (p.market_key == market_key)
    assert (not p.claimed)
    assert (p.owner_commitment == hash (to_fields claimant))
    assert (eq_bool p.side_over resolved.outcome)

  unfoldable pub claim_payout :
      (market_key : ℕ) (resolved : MarketLeaf) (market_witness : MerkleMapWitness)
      → (position_key : ℕ) → PositionLeaf
      → (position_witness : MerkleMapWitness) → PublicKey
      → PlatformState
      → Option PlatformOutcome
  claim_payout market_key resolved market_witness position_key p position_witness claimant s = do
    check_witness o market_witness (hash_market o resolved) s.markets_root market_key
    assert resolved.resolved
    check_witness o position_witness (hash_position p) s.positions_root position_key
    assert_winning_position market_key resolved p claimant
    amount ← payout_nanomina o resolved.outcome resolved p.stake
    some (record {
      state = record s {
        positions_root = root_with o position_witness (hash_position (record p { claimed = true }));
      };
      events =
          payout_claimed (record {
            market_key = market_key;
            position_key = position_key;
            owner_commitment = p.owner_commitment;
            amount = amount;
          })
          ∷ position_changed (position_event position_key (record p { claimed = true }))
          ∷ [];
      sends = (claimant, amount) ∷ [];
    })

  unfoldable pub emergency_reset_positions : Bool → PlatformState → Option PlatformOutcome
  emergency_reset_positions signed s = do
    assert signed
    some (record {
      state = record s { positions_root = get_root empty_map };
      events =
          positions_reset (record {
            previous_positions_root = s.positions_root;
            next_positions_root = get_root empty_map;
          })
          ∷ [];
      sends = [];
    })
