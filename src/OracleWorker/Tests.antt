-- ===== src/OracleWorker/Tests.antt =====
-- A worker with one market of yesterday and one of today, and a request that meets a change.
mod Printed
use perfect_weather_predicti.Prelude.{
  ℕ, ◌≤◌, ◌≡◌, ◌≢◌, ◌⊎◌, refl, ap, Bool, true, false, Option, none, some, List, [], ◌∷◌, String,
  Dict, IsUnique, lookup, put, length, ◌+◌, leb, ◌==◌, undefined, arith,
}
use perfect_weather_predicti.StateStore.{
  StoredMarketLeaf, StoredMarketMeta, OperatorState, load_operator_state,
}
use perfect_weather_predicti.TxRetry.{returned}
use perfect_weather_predicti.OracleWorker.{
  DailyMarket, Memory, Wait, wait_from, wait_for_market_ready, collect_market_dates, is_unresolved,
  should_run_resolve_pass,
}
use perfect_weather_predicti.OracleWorker.Title.{market_date_from_title}
use perfect_weather_predicti.OracleWorker.Waiting.{wait_for_market_ready_ends}
use perfect_weather_predicti.OracleWorker.Changes.{export_changes, receive_changes}
use perfect_weather_predicti.OracleWorker.Changes.Merged.{IsMerged, received_changes-IsMerged}
use perfect_weather_predicti.OracleWorker.Tests.Printed.{printed, printed-AreInjective}
use perfect_weather_predicti.OracleWorker.Cycle.{
  Outside, Call, Run, Files, is_in, target_dates, maybe_run_chain_actions,
}
use perfect_weather_predicti.OracleWorker.Cycle.Lease.{HoldsLease, cycle_gives_lease_back}
use perfect_weather_predicti.OracleWorker.Cycle.Due.{IsDue, resolves, resolved_market-IsDue}
use perfect_weather_predicti.OracleWorker.Cycle.Window.{IsResolvedBy, closed_window-IsResolvedBy}

abbrev leaf : String → StoredMarketLeaf
leaf resolved = record {
  config_hash = "7";
  close_slot = "10";
  expiry_slot = "20";
  threshold_value_tenth_c = "211";
  total_position_bet = "0";
  total_yes_position_bet = "0";
  resolved = resolved;
  outcome = "0";
  oracle_statement_hash = "0";
}

abbrev described : String → StoredMarketMeta
described title = record {
  title = title;
  rules_primary = "";
  settlement_source = "";
  created_at_unix_ms = 0;
  close_slot = "10";
  expiry_slot = "20";
  determination_slot = "20";
}

-- The state with the markets "1", of the 1st of March, and "2", of the 2nd.
abbrev state_with : (first second : String) → OperatorState
state_with first second = record {
  zkapp_public_key = none;
  markets = ("1", leaf first) ∷ ("2", leaf second) ∷ [];
  positions = [];
  receipts = [];
  claimed_receipts = [];
  used_nonces = [];
  market_meta = ("1", described "Atherton, CA - 2026-03-01 Over/Under 70F") ∷ [];
  position_meta = [];
  receipt_meta = [];
}

abbrev daily : Dict DailyMarket
daily = ("2026-03-02", record { market_key = some "2"; rest = "{}" }) ∷ []

title_date : market_date_from_title "Atherton, CA - 2026-03-01 Over/Under 70F" ≡ some "2026-03-01"
unfolding market_date_from_title
title_date = refl

no_title_date : market_date_from_title "Atherton, CA - 2026-03-01 Over/Under -5F" ≡ none
unfolding market_date_from_title
no_title_date = refl

dates_collected :
    collect_market_dates (state_with "0" "0") daily ≡ ("1", "2026-03-01") ∷ ("2", "2026-03-02") ∷ []
unfolding collect_market_dates lookup market_date_from_title put
dates_collected = refl

third_is_ready : ℕ → Bool
third_is_ready n = n == 3

waited :
    wait_for_market_ready third_is_ready 5 3000
    ≡ record { ready = true; checks = 3; sleeps = 3000 ∷ 3000 ∷ [] }
unfolding wait_for_market_ready third_is_ready wait_from
waited = refl

wait_for_market_ready_ends_example :
    let w = wait_for_market_ready third_is_ready 5 3000 in
    (w.checks ≤ 5)
    × (length w.sleeps + 1 ≡ w.checks)
    × (((w.ready ≡ true)
          × (third_is_ready w.checks ≡ true)
          × ((w.checks ≤ 3) ⊎ (third_is_ready 3 ≡ false)))
        ⊎ ((w.ready ≡ false) × (w.checks ≡ 5) × (third_is_ready 3 ≡ false)))
wait_for_market_ready_ends_example =
    wait_for_market_ready_ends third_is_ready 5 3000 3 (omega arith) (omega arith)

abbrev outside : Outside
outside = record {
  exported = returned (some (state_with "0" "0", daily));
  files_saved = none;
  lease_acquired = none;
  state_synced = none;
  markets_ensured = none;
  files_after_ensure = returned (state_with "0" "0", daily);
  market_resolved = λ key. none;
  files_at_end = returned (state_with "1" "1", daily);
  state_imported = none;
}

abbrev fresh : Memory
fresh = record { last_ensure_date = none; last_resolve_window_key = none }

abbrev evening : Run
evening = maybe_run_chain_actions printed outside "2026-03-02" "2026-03-03" 21 fresh

evening_resolves : resolves "2" "2026-03-02" evening.calls ≡ true
unfolding maybe_run_chain_actions should_run_resolve_pass lookup market_date_from_title put
evening_resolves = refl

evening_closes : evening.memory.last_resolve_window_key ≡ some "2026-03-02-past-due"
unfolding maybe_run_chain_actions should_run_resolve_pass lookup market_date_from_title put
    export_changes printed
evening_closes = refl

cycle_gives_lease_back_example : HoldsLease none evening
cycle_gives_lease_back_example =
    cycle_gives_lease_back printed outside "2026-03-02" "2026-03-03" 21 fresh

resolved_market-IsDue_example :
    IsDue "2026-03-02" 21 "2026-03-02"
    × ((loaded : Files) × (outside.files_after_ensure ≡ returned loaded)
        × (is_unresolved loaded.0 "2" "2026-03-02" ≡ true))
resolved_market-IsDue_example =
    resolved_market-IsDue printed outside "2026-03-02" "2026-03-03" 21 fresh "2" "2026-03-02"
      evening_resolves

second_is_listed : lookup "2" (collect_market_dates (state_with "0" "0") daily) ≡ some "2026-03-02"
unfolding collect_market_dates lookup market_date_from_title put
second_is_listed = refl

second_is_unresolved : is_unresolved (state_with "0" "0") "2" "2026-03-02" ≡ true
unfolding is_unresolved lookup
second_is_unresolved = refl

second_is_due :
    is_in "2026-03-02"
      (target_dates (should_run_resolve_pass fresh "2026-03-02" 21 (state_with "0" "0") daily).due)
    ≡ true
unfolding should_run_resolve_pass lookup market_date_from_title put
second_is_due = refl

some_ne_none : {A : Type 0} → {a : A} → some a ≢ none
some_ne_none h = ground arith

window_changes : evening.memory.last_resolve_window_key ≢ fresh.last_resolve_window_key
window_changes h = ground (arith, evening_closes)

closed_window-IsResolvedBy_example : IsResolvedBy outside "2" "2026-03-02" evening.calls
closed_window-IsResolvedBy_example =
    closed_window-IsResolvedBy printed outside "2026-03-02" "2026-03-03" 21 fresh "2" "2026-03-02"
      (state_with "0" "0") (state_with "0" "0") daily daily refl refl second_is_listed
      second_is_unresolved second_is_due window_changes

-- The worker has resolved the market "1", and the server has meanwhile taken a bet on "2".
abbrev busy_server : OperatorState
busy_server = record (state_with "0" "0") {
  markets = ("1", leaf "0") ∷ ("2", record (leaf "0") { total_position_bet = "5" }) ∷ [];
}

abbrev received : Files
received =
    receive_changes (export_changes printed (state_with "0" "0") (state_with "1" "0") daily daily)
      busy_server daily

markets-IsUnique : IsUnique (state_with "1" "0").markets
unfolding lookup
markets-IsUnique = (refl, (refl, tt))

metas-IsUnique : IsUnique (state_with "1" "0").market_meta
unfolding lookup
metas-IsUnique = (refl, tt)

daily-IsUnique : IsUnique daily
unfolding lookup
daily-IsUnique = (refl, tt)

received_changes-IsMerged_example :
    IsMerged "2"
      (state_with "0" "0").markets
      (state_with "1" "0").markets
      busy_server.markets
      received.0.markets
    × IsMerged "2"
        (state_with "0" "0").market_meta
        (state_with "1" "0").market_meta
        busy_server.market_meta
        received.0.market_meta
    × IsMerged "2"
        (state_with "0" "0").used_nonces
        (state_with "1" "0").used_nonces
        busy_server.used_nonces
        received.0.used_nonces
    × IsMerged "2" daily daily daily received.1
received_changes-IsMerged_example =
    received_changes-IsMerged printed printed-AreInjective (state_with "0" "0") (state_with "1" "0")
      busy_server daily daily daily markets-IsUnique metas-IsUnique tt daily-IsUnique "2"
