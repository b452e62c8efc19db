-- ===== src/Server/Authoritative.antt =====
-- src/marketplace-server.ts, lines 2076 to 2166: the state from which the server builds transactions
-- is rebuilt from the events at each request. The events are parsed as in
-- src/recover-state-from-events.ts, word for word; the readers of values differ.
pub mod Agreement
mod Tests
use perfect_weather_predicti.Prelude.{
  ℕ, Bool, true, false, ◌||◌, Option, none, some, List, [], ◌∷◌, String, str_eq, put, is_true_text,
  if◌then◌else◌, ◌>>=◌,
}
use perfect_weather_predicti.O1js.{NumberText}
use perfect_weather_predicti.MarketTypes.{MarketLeaf}
use perfect_weather_predicti.StateStore.{OperatorState, serialize_market_leaf}
use perfect_weather_predicti.Replay.{
  EventValue, text, number, flag, object, missing, EventData, ParsedEvent, RawEvent,
  extract_parsed_events, is_truthy, is_market_event,
}
use perfect_weather_predicti.Replay.Sync.{spread}

module _ (x : NumberText) where
  open x use {to_string, field_of, uint64_of}

  -- `asSyncField`: a flag throws.
  unfoldable pub as_sync_field : EventValue → Option ℕ
  as_sync_field (text t) = field_of t
  as_sync_field (number n) = field_of (to_string n)
  as_sync_field (flag b) = none
  as_sync_field (object t) = field_of t
  as_sync_field missing = none

  -- `asSyncUInt64`
  unfoldable pub as_sync_uint64 : EventValue → Option ℕ
  as_sync_uint64 (text t) = uint64_of t
  as_sync_uint64 (number n) = uint64_of (to_string n)
  as_sync_uint64 (flag b) = none
  as_sync_uint64 (object t) = uint64_of t
  as_sync_uint64 missing = none

  abbrev is_true : String → Bool
  is_true normalized = str_eq normalized "1" || is_true_text normalized

  -- `asSyncBool`
  unfoldable pub as_sync_bool : EventValue → Option Bool
  as_sync_bool (text t) = some (is_true t)
  as_sync_bool (number n) = some (is_true (to_string n))
  as_sync_bool (flag b) = some (is_true (if b then "1" else "0"))
  as_sync_bool (object t) = some (is_true t)
  as_sync_bool missing = none

  -- The key and the leaf of a market event.
  unfoldable pub sync_leaf : EventData → Option (String × MarketLeaf)
  sync_leaf d = do
    market_key ← as_sync_field (d "marketKey")
    config_hash ← as_sync_field (d "configHash")
    close_slot ← as_sync_uint64 (d "closeSlot")
    expiry_slot ← as_sync_uint64 (d "expirySlot")
    threshold ← as_sync_uint64 (d "thresholdValueTenthC")
    total ← as_sync_uint64 (d "totalPositionBet")
    yes_total ← as_sync_uint64 (d "totalYesPositionBet")
    resolved ← as_sync_bool (d "resolved")
    outcome ← as_sync_bool (d "outcome")
    oracle_statement_hash ← as_sync_field (d "oracleStatementHash")
    some (
      to_string market_key,
      record {
        config_hash = config_hash;
        close_slot = close_slot;
        expiry_slot = expiry_slot;
        threshold_value_tenth_c = threshold;
        total_position_bet = total;
        total_yes_position_bet = yes_total;
        resolved = resolved;
        outcome = outcome;
        oracle_statement_hash = oracle_statement_hash;
      },
    )

  -- The leaf is kept also where the nonce after it throws.
  unfoldable pub sync_nonce : EventValue → OperatorState → OperatorState
  sync_nonce v s =
      if is_truthy x v
      then (elim (as_sync_field v) [
        | none ↦ s
        | some n ↦ record s { used_nonces = put (to_string n) "1" s.used_nonces }
      ])
      else s

  unfoldable pub sync_market : EventData → OperatorState → OperatorState
  sync_market d s = elim (sync_leaf d) [
    | none ↦ s
    | some (key, leaf) ↦
        sync_nonce (d "oracleNonce")
          (record s { markets = put key (serialize_market_leaf x leaf) s.markets })
  ]

  unfoldable pub sync_committed : EventData → OperatorState → OperatorState
  sync_committed d s = elim (as_sync_field (d "receiptKey")) [
    | none ↦ s
    | some key ↦ elim (as_sync_field (d "receiptCommitment")) [
      | none ↦ s
      | some commitment ↦ record s {
        receipts = put (to_string key) (to_string commitment) s.receipts;
      }
    ]
  ]

  unfoldable pub sync_claimed : EventData → OperatorState → OperatorState
  sync_claimed d s = elim (as_sync_field (d "receiptKey")) [
    | none ↦ s
    | some key ↦ record s { claimed_receipts = put (to_string key) "1" s.claimed_receipts }
  ]

  -- The body of the loop of `buildAuthoritativeStateFromEvents`.
  unfoldable pub sync_event : OperatorState → ParsedEvent → OperatorState
  sync_event s e =
      if is_market_event x e.event_type
      then sync_market e.event_data s
      else if str_eq e.event_type "receiptCommitted"
      then sync_committed e.event_data s
      else if str_eq e.event_type "receiptClaimed"
      then sync_claimed e.event_data s
      else s

  unfoldable pub sync_events : List ParsedEvent → OperatorState → OperatorState
  sync_events [] s = s
  sync_events (e ∷ es) s = sync_events es (sync_event s e)

  -- The state that the loop starts from.
  abbrev pub without_chain : String → OperatorState → OperatorState
  without_chain zkapp existing = record existing {
    zkapp_public_key = some zkapp;
    markets = [];
    receipts = [];
    claimed_receipts = [];
    used_nonces = [];
  }

  -- `buildAuthoritativeStateFromEvents`
  unfoldable pub build_authoritative_state : OperatorState → List RawEvent → String → OperatorState
  build_authoritative_state existing raw zkapp =
      let next = sync_events (extract_parsed_events raw) (without_chain zkapp existing) in
      record next { used_nonces = spread existing.used_nonces next.used_nonces }
