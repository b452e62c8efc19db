-- ===== src/Contract/State.antt =====
-- src/contract.ts: the leaf of a position, the state of the contract and its events.
use perfect_weather_predicti.Prelude.{ℕ, Bool, List, [], ◌∷◌}
use perfect_weather_predicti.MarketTypes.{to_field}
use perfect_weather_predicti.Transaction.{
  AuthRequired, MarketSnapshotEvent, MarketResolvedEvent, ReceiptCommittedEvent,
}

pub record PositionLeaf : Type 0 where
  pub market_key : ℕ
  pub side_over : Bool
  pub stake : ℕ
  pub owner_commitment : ℕ
  pub claimed : Bool

abbrev pub position_fields : PositionLeaf → List ℕ
position_fields p =
    p.market_key ∷ to_field p.side_over ∷ p.stake ∷ p.owner_commitment ∷ to_field p.claimed ∷ []

pub record PlatformState : Type 0 where
  pub markets_root : ℕ
  pub positions_root : ℕ
  pub receipts_root : ℕ
  pub used_oracle_nonce_root : ℕ
  pub oracle_source_hash : ℕ
  pub oracle_request_path_hash : ℕ
  pub market_count : ℕ
  pub edit_state : AuthRequired

pub record TradeSettlementEvent : Type 0 where
  pub market_key : ℕ
  pub transition_digest : ℕ
  pub next_positions_root : ℕ

pub record PayoutClaimedEvent : Type 0 where
  pub market_key : ℕ
  pub position_key : ℕ
  pub owner_commitment : ℕ
  pub amount : ℕ

pub record PositionsResetEvent : Type 0 where
  pub previous_positions_root : ℕ
  pub next_positions_root : ℕ

pub record PositionSnapshotEvent : Type 0 where
  pub position_key : ℕ
  pub market_key : ℕ
  pub side_over : Bool
  pub stake : ℕ
  pub owner_commitment : ℕ
  pub claimed : Bool

abbrev pub position_event : ℕ → PositionLeaf → PositionSnapshotEvent
position_event key p = record {
  position_key = key;
  market_key = p.market_key;
  side_over = p.side_over;
  stake = p.stake;
  owner_commitment = p.owner_commitment;
  claimed = p.claimed;
}

pub data PlatformEvent : Type 0 where
  market_created : MarketSnapshotEvent → PlatformEvent
  market_updated : MarketSnapshotEvent → PlatformEvent
  market_resolved : MarketResolvedEvent → PlatformEvent
  trade_settled : TradeSettlementEvent → PlatformEvent
  payout_claimed : PayoutClaimedEvent → PlatformEvent
  receipt_committed : ReceiptCommittedEvent → PlatformEvent
  positions_reset : PositionsResetEvent → PlatformEvent
  position_changed : PositionSnapshotEvent → PlatformEvent
