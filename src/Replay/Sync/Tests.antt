-- ===== src/Replay/Sync/Tests.antt =====
-- A state without events, and the roots of the empty maps.
use perfect_weather_predicti.Prelude.{◌≡◌, ◌≢◌, ◌⊎◌, true, false, none, some}
use perfect_weather_predicti.O1js.Concrete.{concrete}
use perfect_weather_predicti.O1js.Unary.{unary}
use perfect_weather_predicti.StateStore.{OperatorState, load_operator_state}
use perfect_weather_predicti.Replay.{get_local_markets_root, get_local_receipts_root}
use perfect_weather_predicti.Replay.Sync.{Synced, read, sync}
use perfect_weather_predicti.Replay.Sync.Decision.{saved_has_chain_roots}

abbrev next : OperatorState
next = load_operator_state none

abbrev decided : Synced
decided = sync unary concrete false (read "1") (read "0") next

saved_has_chain_roots_example :
    ((decided.saved ≡ some next)
      × (decided.fails ≡ false)
      × (get_local_markets_root unary concrete next ≡ some "1")
      × (get_local_receipts_root unary concrete next ≡ some "0"))
    ⊎ ((decided.saved ≡ none)
        × (decided.fails ≡ true)
        × ((get_local_markets_root unary concrete next ≢ some "1")
            ⊎ (get_local_receipts_root unary concrete next ≢ some "0")))
saved_has_chain_roots_example = saved_has_chain_roots unary concrete "1" "0" next
