-- ===== src/FastContract.antt =====
-- src/fast-contract.ts: the market contract that the application deploys. A method is a function of
-- its arguments and the on-chain state; `none` is a proof that cannot be made or a transaction that
-- is rejected, because an assertion fails.
pub mod Ledger
pub mod Simulation
pub mod Calls
pub mod Lifecycle
pub mod Invariant
pub mod Guarantees
pub mod Acceptance
pub mod Claims
mod Tests
use perfect_weather_predicti.Prelude.{
  ℕ, Bool, Option, some, [], ◌∷◌, leb, ◌==◌, eq_bool, not, ◌||◌, assert, ◌>>=◌, ◌>>◌,
}
use perfect_weather_predicti.O1js.{O1js}
use perfect_weather_predicti.O1js.Witnesses.{check_witness, root_with}
use perfect_weather_predicti.MarketTypes.{
  MarketLeaf, WeatherOracleStatement, hash_market, assert_new_market, assert_open,
  assert_same_config, assert_totals_grow, assert_resolution, assert_statement,
}
use perfect_weather_predicti.Transaction.{
  Outcome, AuthRequired, proof_or_signature, MarketSnapshotEvent, MarketResolvedEvent,
  ReceiptCommittedEvent, snapshot_event, resolved_event,
}
use perfect_weather_predicti.Payout.{payout_nanomina}

pub record FastState : Type 0 where
  pub markets_root : ℕ
  pub receipts_root : ℕ
  pub claimed_receipts_root : ℕ
  pub used_oracle_nonce_root : ℕ
  pub oracle_source_hash : ℕ
  pub oracle_request_path_hash : ℕ
  pub market_count : ℕ
  pub edit_state : AuthRequired

pub record ReceiptClaimedEvent : Type 0 where
  pub receipt_key : ℕ
  pub market_key : ℕ
  pub owner_commitment : ℕ
  pub amount : ℕ

pub data FastEvent : Type 0 where
  market_created : MarketSnapshotEvent → FastEvent
  market_updated : MarketSnapshotEvent → FastEvent
  market_resolved : MarketResolvedEvent → FastEvent
  receipt_committed : ReceiptCommittedEvent → FastEvent
  receipt_claimed : ReceiptClaimedEvent → FastEvent

module _ (o : O1js) where
  open o use {PublicKey, to_fields, hash, add, empty_map, get_root, MerkleMapWitness}

  abbrev pub FastOutcome : Type 0
  FastOutcome = Outcome FastState FastEvent (PublicKey × ℕ)

  unfoldable pub init : FastState
  init = record {
    markets_root = get_root empty_map;
    receipts_root = get_root empty_map;
    claimed_receipts_root = get_root empty_map;
    used_oracle_nonce_root = get_root empty_map;
    oracle_source_hash = 0;
    oracle_request_path_hash = 0;
    market_count = 0;
    edit_state = proof_or_signature;
  }

  -- `signed`: the transaction carries the signature of the contract's key.
  unfoldable pub configure_oracle_policy : Bool → ℕ → ℕ → FastState → Option FastOutcome
  configure_oracle_policy signed source_hash request_path_hash s = do
    assert signed
    some (record {
      state = record s {
        oracle_source_hash = source_hash;
        oracle_request_path_hash = request_path_hash;
      };
      events = [];
      sends = [];
    })

  unfoldable pub create_market : ℕ → MarketLeaf → MerkleMapWitness → FastState → Option FastOutcome
  create_market market_key market market_witness s = do
    check_witness o market_witness 0 s.markets_root market_key
    assert_new_market market
    count ← add s.market_count 1
    some (record {
      state = record s {
        markets_root = root_with o market_witness (hash_market o market);
        market_count = count;
      };
      events = market_created (snapshot_event market_key market) ∷ [];
      sends = [];
    })

  unfoldable pub place_receipt_bet :
      (market_key : ℕ) (old new : MarketLeaf) (market_witness : MerkleMapWitness)
      → (receipt_key receipt_commitment : ℕ) (receipt_witness : MerkleMapWitness)
      → (owner_commitment : ℕ) → FastState
      → Option FastOutcome
  place_receipt_bet market_key old new market_witness receipt_key receipt_commitment receipt_witness
        owner_commitment s =
      do
        check_witness o market_witness (hash_market o old) s.markets_root market_key
        check_witness o receipt_witness 0 s.receipts_root receipt_key
        assert_open old new
        assert_same_config old new
        assert_totals_grow old new
        some (record {
          state = record s {
            markets_root = root_with o market_witness (hash_market o new);
            receipts_root = root_with o receipt_witness receipt_commitment;
          };
          events =
              market_updated (snapshot_event market_key new)
              ∷ receipt_committed (record {
                receipt_key = receipt_key;
                market_key = market_key;
                owner_commitment = owner_commitment;
                receipt_commitment = receipt_commitment;
              })
              ∷ [];
          sends = [];
        })

  unfoldable pub resolve_weather_market :
      (market_key : ℕ) (old resolved : MarketLeaf) (market_witness : MerkleMapWitness)
      → WeatherOracleStatement
      → (nonce_witness : MerkleMapWitness) → FastState
      → Option FastOutcome
  resolve_weather_market market_key old resolved market_witness oracle nonce_witness s = do
    check_witness o market_witness (hash_market o old) s.markets_root market_key
    assert (not old.resolved)
    assert (old.oracle_statement_hash == 0)
    assert_statement o market_key old oracle s.oracle_source_hash s.oracle_request_path_hash
    check_witness o nonce_witness 0 s.used_oracle_nonce_root oracle.nonce
    assert_resolution old resolved oracle
    some (record {
      state = record s {
        used_oracle_nonce_root = root_with o nonce_witness 1;
        markets_root = root_with o market_witness (hash_market o resolved);
      };
      events = market_resolved (resolved_event market_key resolved oracle.nonce) ∷ [];
      sends = [];
    })

  -- `expectedReceiptCommitment`
  unfoldable pub receipt_commitment_of :
      (market_key add_total_bet add_yes_bet owner_commitment salt_hash : ℕ) → ℕ
  receipt_commitment_of market_key add_total_bet add_yes_bet owner_commitment salt_hash =
      hash (market_key ∷ add_total_bet ∷ add_yes_bet ∷ owner_commitment ∷ salt_hash ∷ [])

  -- The claimant owns the receipt, its stake lies on one side, and that side has won.
  unfoldable pub assert_winning_receipt :
      (market_key : ℕ)
      → MarketLeaf
      → (receipt_commitment : ℕ) → PublicKey
      → (add_total_bet add_yes_bet owner_commitment salt_hash : ℕ) → Option (Unit {0})
  unfolding receipt_commitment_of
  assert_winning_receipt market_key resolved receipt_commitment claimant add_total_bet add_yes_bet
        owner_commitment salt_hash =
      do
        assert (owner_commitment == hash (to_fields claimant))
        assert (leb add_yes_bet add_total_bet)
        assert ((add_yes_bet == add_total_bet) || (add_yes_bet == 0))
        assert (
            receipt_commitment_of market_key add_total_bet add_yes_bet owner_commitment salt_hash
            == receipt_commitment)
        assert (eq_bool (add_yes_bet == add_total_bet) resolved.outcome)

  unfoldable pub claim_receipt_payout :
      (market_key : ℕ) (resolved : MarketLeaf) (market_witness : MerkleMapWitness)
      → (receipt_key receipt_commitment : ℕ)
      → (receipt_witness claimed_receipt_witness : MerkleMapWitness) → PublicKey
      → (add_total_bet add_yes_bet owner_commitment salt_hash : ℕ) → FastState
      → Option FastOutcome
  claim_receipt_payout market_key resolved market_witness receipt_key receipt_commitment
        receipt_witness claimed_receipt_witness claimant add_total_bet add_yes_bet owner_commitment
        salt_hash s =
      do
        check_witness o market_witness (hash_market o resolved) s.markets_root market_key
        assert resolved.resolved
        check_witness o receipt_witness receipt_commitment s.receipts_root receipt_key
        check_witness o claimed_receipt_witness 0 s.claimed_receipts_root receipt_key
        assert_winning_receipt market_key resolved receipt_commitment claimant add_total_bet
            add_yes_bet owner_commitment salt_hash
        amount ← payout_nanomina o (add_yes_bet == add_total_bet) resolved add_total_bet
        some (record {
          state = record s { claimed_receipts_root = root_with o claimed_receipt_witness 1 };
          events =
              receipt_claimed (record {
                receipt_key = receipt_key;
                market_key = market_key;
                owner_commitment = owner_commitment;
                amount = amount;
              })
              ∷ [];
          sends = (claimant, amount) ∷ [];
        })
