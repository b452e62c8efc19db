-- ===== src/Replay.antt =====
-- src/recover-state-from-events.ts: the operator's state from the events of the fast contract, as they
-- are fetched. src/sync-state-zeko.ts and the server hold copies of the same functions.
-- Parsing reads the events.
mod Parsing
pub mod Steps
pub mod Mirror
pub mod Built
pub mod Events
mod Runs
mod Rebuild
pub mod Recovery
pub mod Sync
pub mod Tests
use perfect_weather_predicti.Prelude.{
  ℕ, zero, suc, Bool, true, false, ◌&&◌, ◌||◌, Option, none, some, List, [], ◌∷◌, ◌++◌, String,
  str_eq, Dict, put, is_true_text, if◌then◌else◌, ◌>>=◌,
}
use perfect_weather_predicti.O1js.{O1js, NumberText}
use perfect_weather_predicti.MarketTypes.{MarketLeaf}
use perfect_weather_predicti.StateStore.{
  OperatorState, serialize_market_leaf, build_markets_merkle_map, build_receipts_merkle_map,
}
pub use Parsing.{
  EventValue, text, number, flag, object, missing, EventData, ParsedEvent, RawNested, RawEvent,
  or_nested, is_truthy, EventLeaf,
}
unfoldable pub use Parsing.{
  extract_nested, extract_parsed_events, as_string_like, as_bool, as_field, as_uint64,
  oracle_nonce_of, leaf_from_event_data,
}

module _ (x : NumberText) where
  open x use {to_string, field_of, uint64_of}

  -- `if (oracleNonce) state.usedNonces[oracleNonce] = '1'`
  abbrev pub use_nonce : Option String → Dict String → Dict String
  use_nonce none d = d
  use_nonce (some n) d = if str_eq n "" then d else put n "1" d

  abbrev pub is_market_event : String → Bool
  is_market_event t =
      str_eq t "marketCreated" || str_eq t "marketUpdated" || str_eq t "marketResolved"

  abbrev pub put_leaf : EventLeaf x → OperatorState → OperatorState
  put_leaf e s = record s {
    markets = put e.market_key (serialize_market_leaf x e.leaf) s.markets;
    used_nonces = use_nonce e.oracle_nonce s.used_nonces;
  }

  unfoldable pub apply_market : EventData → OperatorState → Option OperatorState
  apply_market d s = do e ← leaf_from_event_data x d; some (put_leaf e s)

  unfoldable pub apply_committed : EventData → OperatorState → Option OperatorState
  apply_committed d s = do
    receipt_key ← as_field x (d "receiptKey")
    receipt_commitment ← as_field x (d "receiptCommitment")
    some (record s {
      receipts = put (to_string receipt_key) (to_string receipt_commitment) s.receipts;
    })

  unfoldable pub apply_claimed : EventData → OperatorState → Option OperatorState
  apply_claimed d s = do
    receipt_key ← as_field x (d "receiptKey")
    some (record s { claimed_receipts = put (to_string receipt_key) "1" s.claimed_receipts })

  -- `applyEvent`
  unfoldable pub apply_event : OperatorState → ParsedEvent → Option OperatorState
  apply_event s e =
      if is_market_event e.event_type
      then apply_market e.event_data s
      else if str_eq e.event_type "receiptCommitted"
      then apply_committed e.event_data s
      else if str_eq e.event_type "receiptClaimed"
      then apply_claimed e.event_data s
      else some s

  abbrev pub or_state : OperatorState → Option OperatorState → OperatorState
  or_state s none = s
  or_state s (some s') = s'

  -- The loop over all events, which passes over those that throw.
  unfoldable pub replay : List ParsedEvent → OperatorState → OperatorState
  replay [] s = s
  replay (e ∷ es) s = replay es (or_state s (apply_event s e))

-- `emptyState`
unfoldable pub empty_state : Option String → OperatorState → OperatorState
empty_state zkapp_public_key existing = record {
  zkapp_public_key = zkapp_public_key;
  markets = [];
  positions = [];
  receipts = [];
  claimed_receipts = [];
  used_nonces = [];
  market_meta = existing.market_meta;
  position_meta = existing.position_meta;
  receipt_meta = existing.receipt_meta;
}

module _ (x : NumberText) (o : O1js) where
  open o use {get_root}

  -- `getLocalMarketsRoot` and `getLocalReceiptsRoot` of src/fast-chain-state.ts
  unfoldable pub get_local_markets_root : OperatorState → Option String
  get_local_markets_root s = do m ← build_markets_merkle_map x o s; some (x.to_string (get_root m))

  unfoldable pub get_local_receipts_root : OperatorState → Option String
  get_local_receipts_root s = do
    m ← build_receipts_merkle_map x o s
    some (x.to_string (get_root m))

  abbrev pub matches : (markets_root receipts_root : String) → OperatorState → Option Bool
  matches markets_root receipts_root s = do
    markets ← get_local_markets_root s
    receipts ← get_local_receipts_root s
    some (str_eq markets markets_root && str_eq receipts receipts_root)

  -- The loop of `main`: it ends at the first event after which both roots are the targets, or with
  -- no match; `none` is a map that cannot be built, which ends the program.
  unfoldable pub recover :
      (markets_root receipts_root : String)
      → List ParsedEvent
      → OperatorState
      → Option (OperatorState × Bool)
  recover markets_root receipts_root [] s = some (s, false)
  recover markets_root receipts_root (e ∷ es) s =
      let next = apply_event x s e in
      let skipped = recover markets_root receipts_root es s in
      let s' = or_state x s next in
      let rest = recover markets_root receipts_root es s' in
      elim next [
        | none ↦ skipped
        | some _ ↦ do
          matched ← matches markets_root receipts_root s'
          if matched then some (s', true) else rest
      ]
