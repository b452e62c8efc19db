-- ===== src/Replay/Sync.antt =====
-- src/sync-state-zeko.ts, lines 112 to 236: the state file is written anew from the events, unless
-- its roots are not those on the chain. Reading the file, the events and the chain are parameters.
-- The markets and receipts roots are read one after the other.
pub mod Decision
mod Tests
use perfect_weather_predicti.Prelude.{
  Bool, true, false, not, ◌&&◌, ◌||◌, Option, none, some, List, [], ◌∷◌, String, str_eq, Dict, put,
  if◌then◌else◌, ◌>>=◌,
}
use perfect_weather_predicti.O1js.{O1js, NumberText}
use perfect_weather_predicti.StateStore.{OperatorState}
use perfect_weather_predicti.Replay.{
  RawEvent, extract_parsed_events, replay, empty_state, get_local_markets_root,
  get_local_receipts_root,
}

-- `{ ...a, ...b }`
unfoldable pub spread : {V : Type 0} → Dict V → Dict V → Dict V
spread a [] = a
spread a ((key, v) ∷ b) = spread (put key v a) b

-- `mergeMonotonicState`
unfoldable pub merge_monotonic_state : OperatorState → OperatorState → OperatorState
merge_monotonic_state existing next = record next {
  used_nonces = spread existing.used_nonces next.used_nonces;
}

-- A root of the chain: read, the account is not there yet, or another error.
pub data Reading : Type 0 where
  read : String → Reading
  uninitialized failed : Reading

-- What the two reads leave in `chainRoot` and `chainReceiptsRoot`, and whether the account was
-- missing; an error of another kind ends the program.
pub record ChainRoots : Type 0 where
  pub markets : Option String
  pub receipts : Option String
  pub missing_account : Bool

unfoldable pub read_roots : Reading → Reading → Option ChainRoots
read_roots (read m) (read r) =
    some (record { markets = some m; receipts = some r; missing_account = false })
read_roots (read m) uninitialized =
    some (record { markets = some m; receipts = none; missing_account = true })
read_roots (read m) failed = none
read_roots uninitialized second =
    some (record { markets = none; receipts = none; missing_account = true })
read_roots failed second = none

-- The state that was last written to the file, if any was, and whether the program fails.
pub record Synced : Type 0 where
  pub saved : Option OperatorState
  pub fails : Bool

abbrev pub is_read : Option String → Bool
is_read none = false
is_read (some root) = true

-- `chainRoot !== null ? localRoot === chainRoot : true`
abbrev pub agrees : String → Option String → Bool
agrees local none = true
agrees local (some root) = str_eq local root

-- From the comparison of the roots to the end of `main`.
unfoldable pub decide :
    (allow_root_mismatch : Bool) (local local_receipts : String)
    → ChainRoots
    → OperatorState
    → Synced
decide allow local local_receipts c next =
    let before : Option OperatorState = if c.missing_account then some next else none in
    if is_read c.markets || is_read c.receipts
    then (if not allow && (not (agrees local c.markets) || not (agrees local_receipts c.receipts))
        then record { saved = before; fails = true }
        else record { saved = some next; fails = false })
    else record { saved = before; fails = false }

module _ (x : NumberText) where
  -- `buildStateFromEvents`
  unfoldable pub build_state_from_events : String → List RawEvent → OperatorState → OperatorState
  build_state_from_events zkapp raw existing =
      merge_monotonic_state existing
        (replay x (extract_parsed_events raw) (empty_state (some zkapp) existing))

  -- The state that `main` may save: `existing` and `latest` are two readings of the file.
  unfoldable pub next_state :
      String → List RawEvent → (existing latest : OperatorState) → OperatorState
  next_state zkapp raw existing latest = record (build_state_from_events zkapp raw latest) {
    market_meta = spread existing.market_meta latest.market_meta;
    position_meta = spread existing.position_meta latest.position_meta;
    receipt_meta = spread existing.receipt_meta latest.receipt_meta;
  }

  module _ (o : O1js) where
    abbrev attempted : Bool → Reading → Reading → OperatorState → Option Synced
    attempted allow markets receipts next = do
      local ← get_local_markets_root x o next
      local_receipts ← get_local_receipts_root x o next
      c ← read_roots markets receipts
      some (decide allow local local_receipts c next)

    -- `main`, with the state that it may save.
    unfoldable pub sync :
        (allow_root_mismatch : Bool) (markets receipts : Reading) → OperatorState → Synced
    sync allow markets receipts next = elim (attempted allow markets receipts next) [
      | none ↦ record { saved = none; fails = true }
      | some r ↦ r
    ]
