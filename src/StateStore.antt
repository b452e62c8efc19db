-- ===== src/StateStore.antt =====
-- src/state-store.ts: the operator's copy of the contract's maps, as it is kept in a JSON file. The
-- numbers in it are texts. Reading and writing the file itself is not modelled.
pub mod Roundtrip
pub mod Tables
mod Tests
use perfect_weather_predicti.Prelude.{
  ℕ, Bool, true, false, Option, none, some, List, [], ◌∷◌, String, str_eq, Dict, Nullish, ◌>>=◌,
  if◌then◌else◌,
}
use perfect_weather_predicti.O1js.{O1js, NumberText}
use perfect_weather_predicti.MarketTypes.{MarketLeaf, hash_market, to_field}
use perfect_weather_predicti.Contract.{PositionLeaf, hash_position}

pub record StoredMarketLeaf : Type 0 where
  pub config_hash : String
  pub close_slot : String
  pub expiry_slot : String
  pub threshold_value_tenth_c : String
  pub total_position_bet : String
  pub total_yes_position_bet : String
  pub resolved : String
  pub outcome : String
  pub oracle_statement_hash : String

pub record StoredPositionLeaf : Type 0 where
  pub market_key : String
  pub side_over : String
  pub stake : String
  pub owner_commitment : String
  pub claimed : String

pub record StoredMarketMeta : Type 0 where
  pub title : String
  pub rules_primary : String
  pub settlement_source : String
  pub created_at_unix_ms : ℕ
  pub close_slot : String
  pub expiry_slot : String
  pub determination_slot : String

pub data ClaimStatus : Type 0 where
  claimable submitted confirmed not_applicable : ClaimStatus

pub data SubmissionStatus : Type 0 where
  submitted confirmed : SubmissionStatus

pub data Side : Type 0 where
  over under : Side

-- The type of `claimStatus` has no "claimable", but `resetSubmittedClaimForRetry` writes it.
pub record StoredPositionMeta : Type 0 where
  pub zkapp_public_key : Nullish String
  pub market_key : String
  pub market_date : Option String
  pub wallet_public_key : String
  pub owner_commitment : Nullish String
  pub created_at_unix_ms : ℕ
  pub funding_tx_hash : Option String
  pub claim_status : Nullish ClaimStatus
  pub claim_tx_hash : Nullish String
  pub claim_submitted_at_unix_ms : Nullish ℕ
  pub claim_confirmed_at_unix_ms : Nullish ℕ

pub record StoredReceiptMeta : Type 0 where
  pub zkapp_public_key : Nullish String
  pub market_key : String
  pub market_date : Option String
  pub wallet_public_key : String
  pub owner_commitment : String
  pub created_at_unix_ms : ℕ
  pub funding_tx_hash : Option String
  pub funding_status : Nullish SubmissionStatus
  pub funding_submitted_at_unix_ms : Nullish ℕ
  pub funding_confirmed_at_unix_ms : Nullish ℕ
  pub receipt_commitment : String
  pub receipt_salt : String
  pub side : Side
  pub stake_tmina : ℕ
  pub claim_status : Nullish ClaimStatus
  pub claim_tx_hash : Nullish String
  pub claim_submitted_at_unix_ms : Nullish ℕ
  pub claim_confirmed_at_unix_ms : Nullish ℕ

-- `OperatorStateFile`, with `{}` for an optional map that is not there, as every reader takes it.
pub record OperatorState : Type 0 where
  pub zkapp_public_key : Option String
  pub markets : Dict StoredMarketLeaf
  pub positions : Dict StoredPositionLeaf
  pub receipts : Dict String
  pub claimed_receipts : Dict String
  pub used_nonces : Dict String
  pub market_meta : Dict StoredMarketMeta
  pub position_meta : Dict StoredPositionMeta
  pub receipt_meta : Dict StoredReceiptMeta

-- The parsed file, any part of which may be missing.
pub record ParsedFile : Type 0 where
  pub zkapp_public_key : Option String
  pub markets : Option (Dict StoredMarketLeaf)
  pub positions : Option (Dict StoredPositionLeaf)
  pub receipts : Option (Dict String)
  pub claimed_receipts : Option (Dict String)
  pub used_nonces : Option (Dict String)
  pub market_meta : Option (Dict StoredMarketMeta)
  pub position_meta : Option (Dict StoredPositionMeta)
  pub receipt_meta : Option (Dict StoredReceiptMeta)

-- `d || {}`
abbrev pub or_empty : {V : Type 0} → Option (Dict V) → Dict V
or_empty none = []
or_empty (some d) = d

-- `loadOperatorState`: a file that cannot be read or parsed is an empty state.
unfoldable pub load_operator_state : Option ParsedFile → OperatorState
load_operator_state none = record {
  zkapp_public_key = none;
  markets = [];
  positions = [];
  receipts = [];
  claimed_receipts = [];
  used_nonces = [];
  market_meta = [];
  position_meta = [];
  receipt_meta = [];
}
load_operator_state (some f) = record {
  zkapp_public_key = f.zkapp_public_key;
  markets = or_empty f.markets;
  positions = or_empty f.positions;
  receipts = or_empty f.receipts;
  claimed_receipts = or_empty f.claimed_receipts;
  used_nonces = or_empty f.used_nonces;
  market_meta = or_empty f.market_meta;
  position_meta = or_empty f.position_meta;
  receipt_meta = or_empty f.receipt_meta;
}

unfoldable pub parse_bool_field : String → Bool
parse_bool_field text = if str_eq text "1" then true else false

module _ (x : NumberText) where
  open x use {to_string, field_of, uint64_of}

  unfoldable pub serialize_market_leaf : MarketLeaf → StoredMarketLeaf
  serialize_market_leaf leaf = record {
    config_hash = to_string leaf.config_hash;
    close_slot = to_string leaf.close_slot;
    expiry_slot = to_string leaf.expiry_slot;
    threshold_value_tenth_c = to_string leaf.threshold_value_tenth_c;
    total_position_bet = to_string leaf.total_position_bet;
    total_yes_position_bet = to_string leaf.total_yes_position_bet;
    resolved = to_string (to_field leaf.resolved);
    outcome = to_string (to_field leaf.outcome);
    oracle_statement_hash = to_string leaf.oracle_statement_hash;
  }

  unfoldable pub deserialize_market_leaf : StoredMarketLeaf → Option MarketLeaf
  deserialize_market_leaf stored = do
    config_hash ← field_of stored.config_hash
    close_slot ← uint64_of stored.close_slot
    expiry_slot ← uint64_of stored.expiry_slot
    threshold ← uint64_of stored.threshold_value_tenth_c
    total ← uint64_of stored.total_position_bet
    yes_total ← uint64_of stored.total_yes_position_bet
    oracle_statement_hash ← field_of stored.oracle_statement_hash
    some (record {
      config_hash = config_hash;
      close_slot = close_slot;
      expiry_slot = expiry_slot;
      threshold_value_tenth_c = threshold;
      total_position_bet = total;
      total_yes_position_bet = yes_total;
      resolved = parse_bool_field stored.resolved;
      outcome = parse_bool_field stored.outcome;
      oracle_statement_hash = oracle_statement_hash;
    })

  unfoldable pub serialize_position_leaf : PositionLeaf → StoredPositionLeaf
  serialize_position_leaf leaf = record {
    market_key = to_string leaf.market_key;
    side_over = to_string (to_field leaf.side_over);
    stake = to_string leaf.stake;
    owner_commitment = to_string leaf.owner_commitment;
    claimed = to_string (to_field leaf.claimed);
  }

  unfoldable pub deserialize_position_leaf : StoredPositionLeaf → Option PositionLeaf
  deserialize_position_leaf stored = do
    market_key ← field_of stored.market_key
    stake ← uint64_of stored.stake
    owner_commitment ← field_of stored.owner_commitment
    some (record {
      market_key = market_key;
      side_over = parse_bool_field stored.side_over;
      stake = stake;
      owner_commitment = owner_commitment;
      claimed = parse_bool_field stored.claimed;
    })

  module _ (o : O1js) where
    open o use {MerkleMap, empty_map, set}

    -- `for (const [key, stored] of Object.entries(d)) map.set(Field(key), leaf(stored))`
    unfoldable pub set_entries :
        {V : Type 0} → (V → Option ℕ) → Dict V → MerkleMap → Option MerkleMap
    set_entries leaf [] m = some m
    set_entries leaf ((key, stored) ∷ d) m =
        let rest = set_entries leaf d in do v ← leaf stored; k ← field_of key; rest (set m k v)

    abbrev pub market_value : StoredMarketLeaf → Option ℕ
    market_value stored = do leaf ← deserialize_market_leaf stored; some (hash_market o leaf)

    abbrev pub position_value : StoredPositionLeaf → Option ℕ
    position_value stored = do leaf ← deserialize_position_leaf stored; some (hash_position o leaf)

    unfoldable pub build_markets_merkle_map : OperatorState → Option MerkleMap
    build_markets_merkle_map state = set_entries market_value state.markets empty_map

    unfoldable pub build_positions_merkle_map : OperatorState → Option MerkleMap
    build_positions_merkle_map state = set_entries position_value state.positions empty_map

    unfoldable pub build_nonce_merkle_map : OperatorState → Option MerkleMap
    build_nonce_merkle_map state = set_entries field_of state.used_nonces empty_map

    unfoldable pub build_receipts_merkle_map : OperatorState → Option MerkleMap
    build_receipts_merkle_map state = set_entries field_of state.receipts empty_map

    unfoldable pub build_claimed_receipts_merkle_map : OperatorState → Option MerkleMap
    build_claimed_receipts_merkle_map state = set_entries field_of state.claimed_receipts empty_map
