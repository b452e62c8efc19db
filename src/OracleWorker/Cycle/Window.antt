-- ===== src/OracleWorker/Cycle/Window.antt =====
-- When the window of a pass is closed (src/oracle-worker.ts, lines 211 to 230 and 300 to 325).
use perfect_weather_predicti.Prelude.{
  ℕ, ◌≡◌, ◌≢◌, ◌⊎◌, Bool, true, none, some, List, [], ◌∷◌, String, Dict, lookup, arith,
}
use perfect_weather_predicti.TxRetry.{returned}
use perfect_weather_predicti.StateStore.{OperatorState}
use perfect_weather_predicti.OracleWorker.{
  DailyMarket, Memory, ResolveDecision, collect_market_dates, is_unresolved, should_run_ensure_pass,
  should_run_resolve_pass,
}
use perfect_weather_predicti.OracleWorker.Changes.{Printers}
use perfect_weather_predicti.OracleWorker.Cycle.{
  Outside, Call, Files, import_pass, resolve_with, resolve_pass, ensure_pass, is_in, target_dates,
  actions_in_lease, with_lease, run_decision, maybe_run_chain_actions,
}
use perfect_weather_predicti.OracleWorker.Cycle.Due.{
  resolves, resolves-append, import_pass-memory, resolve_markets-all,
}

-- The command has been run for the market, without an error.
abbrev pub IsResolvedBy : Outside → (market_key market_date : String) → List Call → Type 0
IsResolvedBy o key date calls = (resolves key date calls ≡ true) × (o.market_resolved key ≡ none)

module _ (json : Printers) (o : Outside) (key date : String) (d : ResolveDecision) where
  module _ (state : OperatorState) (daily_markets : Dict DailyMarket) where
    resolve_pass-closes :
        (exported : Files) (m : Memory)
        → o.files_after_ensure ≡ returned (state, daily_markets)
        → lookup key (collect_market_dates state daily_markets) ≡ some date
        → is_unresolved state key date ≡ true
        → is_in date (target_dates d.due) ≡ true
        → let run = resolve_pass json o d exported m in
          (run.memory ≡ m) ⊎ IsResolvedBy o key date run.calls
    unfolding resolve_pass resolve_with
    resolve_pass-closes exported m read has unresolved target =
        let after =
          import_pass json o exported (record m { last_resolve_window_key = d.window_key }) in
        ground (
          arith,
          import_pass-memory json o key date exported m,
          resolve_markets-all json o key date (target_dates d.due) state
              (collect_market_dates state daily_markets) m after has unresolved target,
        )

    actions_in_lease-closes :
        (run_ensure : Bool) (active_market_date : String) (exported : Files) (m : Memory)
        → o.files_after_ensure ≡ returned (state, daily_markets)
        → lookup key (collect_market_dates state daily_markets) ≡ some date
        → is_unresolved state key date ≡ true
        → is_in date (target_dates d.due) ≡ true
        → let run = actions_in_lease json o run_ensure active_market_date d exported m in
          (run.memory.last_resolve_window_key ≡ m.last_resolve_window_key)
          ⊎ IsResolvedBy o key date run.calls
    unfolding actions_in_lease ensure_pass
    actions_in_lease-closes run_ensure active_market_date exported m read has unresolved target =
        ground (
          arith,
          resolve_pass-closes exported m read has unresolved target,
          resolve_pass-closes exported (record m { last_ensure_date = some active_market_date })
              read has unresolved target,
        )

    run_decision-closes :
        (run_ensure : Bool) (active_market_date : String) (exported : Files) (m : Memory)
        → o.files_after_ensure ≡ returned (state, daily_markets)
        → lookup key (collect_market_dates state daily_markets) ≡ some date
        → is_unresolved state key date ≡ true
        → is_in date (target_dates d.due) ≡ true
        → let run = run_decision json o run_ensure active_market_date d exported m in
          (run.memory.last_resolve_window_key ≡ m.last_resolve_window_key)
          ⊎ IsResolvedBy o key date run.calls
    unfolding run_decision with_lease
    run_decision-closes run_ensure active_market_date exported m read has unresolved target =
        let body = actions_in_lease json o run_ensure active_market_date d exported m in
        ground (
          arith,
          actions_in_lease-closes run_ensure active_market_date exported m read has unresolved
              target,
          resolves-append key date body.calls (Call.release_chain_lease ∷ []),
        )

-- If a cycle changes the window that the worker remembers as done, then it has run, without an error,
-- the command of every market that was not resolved in the state loaded after the markets of the day
-- were ensured and whose date was due in the state that the server exported.
pub closed_window-IsResolvedBy :
    (json : Printers) (o : Outside) (today_iso active_market_date : String) (now_hour : ℕ)
    → (m : Memory) (key date : String) (exported_state loaded_state : OperatorState)
    → (exported_daily loaded_daily : Dict DailyMarket)
    → o.exported ≡ returned (some (exported_state, exported_daily))
    → o.files_after_ensure ≡ returned (loaded_state, loaded_daily)
    → lookup key (collect_market_dates loaded_state loaded_daily) ≡ some date
    → is_unresolved loaded_state key date ≡ true
    → is_in date (
        target_dates
          (should_run_resolve_pass m today_iso now_hour exported_state exported_daily).due)
      ≡ true
    → (maybe_run_chain_actions json o today_iso active_market_date now_hour
        m).memory.last_resolve_window_key
      ≢ m.last_resolve_window_key
    → IsResolvedBy o key date
        (maybe_run_chain_actions json o today_iso active_market_date now_hour m).calls
unfolding maybe_run_chain_actions
closed_window-IsResolvedBy json o today_iso active_market_date now_hour m key date exported_state
      loaded_state exported_daily loaded_daily exported loaded has unresolved target changes =
    let d = should_run_resolve_pass m today_iso now_hour exported_state exported_daily in
    ground (
      arith,
      run_decision-closes json o key date d loaded_state loaded_daily
          (should_run_ensure_pass m active_market_date) active_market_date
          (exported_state, exported_daily) m loaded has unresolved target,
    )
