-- ===== src/Transaction.antt =====
-- What an accepted contract method leaves behind, and the events that src/contract.ts and
-- src/fast-contract.ts declare alike.
use perfect_weather_predicti.Prelude.{ℕ, Bool, List}
use perfect_weather_predicti.MarketTypes.{MarketLeaf}

-- The state after the call, what `emitEvent` emitted and what `send` paid, in order.
pub record Outcome (S E P : Type 0) : Type 0 where
  pub state : S
  pub events : List E
  pub sends : List P

-- `this.account.permissions`, of which the contracts set `editState` alone.
pub data AuthRequired : Type 0 where
  proof_or_signature other : AuthRequired

pub record MarketSnapshotEvent : Type 0 where
  pub market_key : ℕ
  pub config_hash : ℕ
  pub close_slot : ℕ
  pub expiry_slot : ℕ
  pub threshold_value_tenth_c : ℕ
  pub total_position_bet : ℕ
  pub total_yes_position_bet : ℕ
  pub resolved : Bool
  pub outcome : Bool
  pub oracle_statement_hash : ℕ

pub record MarketResolvedEvent : Type 0 where
  pub market_key : ℕ
  pub config_hash : ℕ
  pub close_slot : ℕ
  pub expiry_slot : ℕ
  pub threshold_value_tenth_c : ℕ
  pub total_position_bet : ℕ
  pub total_yes_position_bet : ℕ
  pub outcome : Bool
  pub oracle_statement_hash : ℕ
  pub resolved : Bool
  pub oracle_nonce : ℕ

pub record ReceiptCommittedEvent : Type 0 where
  pub receipt_key : ℕ
  pub market_key : ℕ
  pub owner_commitment : ℕ
  pub receipt_commitment : ℕ

-- `new MarketSnapshotEvent({ marketKey, configHash: m.configHash, … })`
abbrev pub snapshot_event : ℕ → MarketLeaf → MarketSnapshotEvent
snapshot_event key m = record {
  market_key = key;
  config_hash = m.config_hash;
  close_slot = m.close_slot;
  expiry_slot = m.expiry_slot;
  threshold_value_tenth_c = m.threshold_value_tenth_c;
  total_position_bet = m.total_position_bet;
  total_yes_position_bet = m.total_yes_position_bet;
  resolved = m.resolved;
  outcome = m.outcome;
  oracle_statement_hash = m.oracle_statement_hash;
}

-- `new MarketResolvedEvent({ marketKey, …, oracleNonce: oracle.nonce })`
abbrev pub resolved_event : ℕ → MarketLeaf → ℕ → MarketResolvedEvent
resolved_event key m nonce = record {
  market_key = key;
  config_hash = m.config_hash;
  close_slot = m.close_slot;
  expiry_slot = m.expiry_slot;
  threshold_value_tenth_c = m.threshold_value_tenth_c;
  total_position_bet = m.total_position_bet;
  total_yes_position_bet = m.total_yes_position_bet;
  outcome = m.outcome;
  oracle_statement_hash = m.oracle_statement_hash;
  resolved = m.resolved;
  oracle_nonce = nonce;
}
