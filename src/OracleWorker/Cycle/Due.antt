-- ===== src/OracleWorker/Cycle/Due.antt =====
-- Which markets a cycle resolves (src/oracle-worker.ts, lines 186 to 230 and 300 to 325).
use perfect_weather_predicti.Prelude.{
  ℕ, ◌≤◌, ◌≡◌, ◌⊎◌, inl, inr, refl, Bool, true, false, ◌&&◌, ◌||◌, none, some, List, [], ◌∷◌, ◌++◌,
  String, str_eq, eq_iff, Dict, lookup, Bool-cases, subst, arith,
}
use perfect_weather_predicti.StateStore.{OperatorState}
use perfect_weather_predicti.TxRetry.{returned}
use perfect_weather_predicti.OracleWorker.{
  DailyMarket, Memory, ResolveDecision, collect_market_dates, is_unresolved, due_dates,
  decide_window, should_run_ensure_pass, should_run_resolve_pass, is_before,
}
use perfect_weather_predicti.OracleWorker.Changes.{Printers}
use perfect_weather_predicti.OracleWorker.Cycle.{
  Outside, Call, Run, Files, import_pass, resolve_markets, resolve_with, resolve_pass, ensure_pass,
  is_in, target_dates, actions_in_lease, with_lease, run_decision, maybe_run_chain_actions,
}
use perfect_weather_predicti.OracleWorker.Cycle.Lease.{Answer-cases}

-- Whether the command that resolves the market of this key and date is among the calls.
abbrev pub resolves : (market_key market_date : String) → List Call → Bool
resolves key date [] = false
resolves key date (Call.resolve_daily_market k d ∷ calls) =
    (str_eq k key && str_eq d date) || resolves key date calls
resolves key date (Call.acquire_chain_lease ∷ calls) = resolves key date calls
resolves key date (Call.release_chain_lease ∷ calls) = resolves key date calls
resolves key date (Call.sync_state ∷ calls) = resolves key date calls
resolves key date (Call.ensure_daily_markets ∷ calls) = resolves key date calls
resolves key date (Call.import_changes i ∷ calls) = resolves key date calls

-- The date is over, or it is today and the hour is 21 or later.
abbrev pub IsDue : (today_iso : String) (now_hour : ℕ) → String → Type 0
IsDue today_iso now_hour date =
    (is_before date today_iso ≡ true) ⊎ ((date ≡ today_iso) × (21 ≤ now_hour))

is_in-append :
    (date : String) (ds es : List String) → is_in date (ds ++ es) ≡ (is_in date ds || is_in date es)
is_in-append date [] es = refl
is_in-append date (d ∷ ds) es = ground (arith, is_in-append date ds es)

module _ (today_iso : String) (now_hour : ℕ) (state : OperatorState) where
  due_dates-IsDue :
      (date : String) (dates : Dict String)
      → let due = due_dates today_iso now_hour state dates in
        (is_in date due.past_due_unresolved_dates ≡ true → is_before date today_iso ≡ true)
        × (is_in date due.eligible_today_dates ≡ true → (date ≡ today_iso) × (21 ≤ now_hour))
  unfolding due_dates
  due_dates-IsDue date [] = (λ h. ground arith, λ h. ground arith)
  due_dates-IsDue date ((k, d) ∷ dates) =
      let (past, today) = due_dates-IsDue date dates in
      (
        λ h. ground (arith, past, eq_iff date d),
        λ h. ground (arith, today, eq_iff date d, eq_iff d today_iso),
      )

  targets-IsDue :
      (date : String) (dates : Dict String)
      → is_in date (target_dates (due_dates today_iso now_hour state dates)) ≡ true
      → IsDue today_iso now_hour date
  targets-IsDue date dates h =
      let due = due_dates today_iso now_hour state dates in
      let (past, today) = due_dates-IsDue date dates in
      ground (
        arith,
        is_in-append date due.past_due_unresolved_dates due.eligible_today_dates,
        past,
        today,
      )

module _ (json : Printers) (o : Outside) (key date : String) where
  import_pass-resolves :
      (exported : Files) (m : Memory)
      → resolves key date (import_pass json o exported m).calls ≡ false
  unfolding import_pass
  import_pass-resolves exported m = ground arith

  pub import_pass-memory :
      (exported : Files) (m : Memory) → (import_pass json o exported m).memory ≡ m
  unfolding import_pass
  import_pass-memory exported m = ground arith

  module _ (targets : List String) (state : OperatorState) where
    resolve_markets-targets :
        (dates : Dict String) (m : Memory) (after : Run)
        → resolves key date after.calls ≡ false
        → resolves key date (resolve_markets json o targets state dates m after).calls ≡ true
        → (is_unresolved state key date ≡ true) × (is_in date targets ≡ true)
    unfolding resolve_markets
    resolve_markets-targets [] m after none_after h = ground arith
    resolve_markets-targets ((k, d) ∷ dates) m after none_after h =
        ground
          (arith, resolve_markets-targets dates m after none_after, eq_iff k key, eq_iff d date)

    -- The loop throws, or the market's command has been run.
    pub resolve_markets-all :
        (dates : Dict String) (m : Memory) (after : Run)
        → lookup key dates ≡ some date
        → is_unresolved state key date ≡ true
        → is_in date targets ≡ true
        → ((resolve_markets json o targets state dates m after).memory ≡ m)
          ⊎ ((resolves key date (resolve_markets json o targets state dates m after).calls ≡ true)
              × (o.market_resolved key ≡ none))
    unfolding resolve_markets lookup
    resolve_markets-all [] m after has unresolved target = ground arith
    resolve_markets-all ((k, d) ∷ dates) m after has unresolved target =
        ground (arith, resolve_markets-all dates m after, eq_iff k key, eq_iff d date)

pub resolves-append :
    (key date : String) (cs ds : List Call)
    → resolves key date (cs ++ ds) ≡ (resolves key date cs || resolves key date ds)
resolves-append key date [] ds = refl
resolves-append key date (Call.resolve_daily_market k d ∷ cs) ds =
    ground (arith, resolves-append key date cs ds)
resolves-append key date (Call.acquire_chain_lease ∷ cs) ds = resolves-append key date cs ds
resolves-append key date (Call.release_chain_lease ∷ cs) ds = resolves-append key date cs ds
resolves-append key date (Call.sync_state ∷ cs) ds = resolves-append key date cs ds
resolves-append key date (Call.ensure_daily_markets ∷ cs) ds = resolves-append key date cs ds
resolves-append key date (Call.import_changes i ∷ cs) ds = resolves-append key date cs ds

-- The market is not resolved in the state that is loaded after the markets were ensured, and its date
-- is one of those of the decision.
abbrev pub IsTarget : Outside → ResolveDecision → (market_key market_date : String) → Type 0
IsTarget o d key date =
    (loaded : Files) × (o.files_after_ensure ≡ returned loaded)
    × (is_unresolved loaded.0 key date ≡ true)
    × (is_in date (target_dates d.due) ≡ true)

module _ (json : Printers) (o : Outside) (key date : String) (d : ResolveDecision) where
  resolve_with-targets :
      (exported loaded : Files) (m : Memory)
      → resolves key date (resolve_with json o d exported loaded m).calls ≡ true
      → (is_unresolved loaded.0 key date ≡ true) × (is_in date (target_dates d.due) ≡ true)
  unfolding resolve_with
  resolve_with-targets exported (state, daily_markets) m h =
      let done = record m { last_resolve_window_key = d.window_key } in
      ground (
        arith,
        import_pass-resolves json o key date exported m,
        resolve_markets-targets json o key date (target_dates d.due) state
            (collect_market_dates state daily_markets) m (import_pass json o exported done)
            (import_pass-resolves json o key date exported done),
      )

  resolve_pass-targets :
      (exported : Files) (m : Memory)
      → resolves key date (resolve_pass json o d exported m).calls ≡ true
      → IsTarget o d key date
  unfolding resolve_pass
  resolve_pass-targets exported m h = elim (Answer-cases o.files_after_ensure) [
    | inl (e, failed) ↦ ground arith
    | inr (loaded, read) ↦
        let (unresolved, target) = resolve_with-targets exported loaded m (ground arith) in
        (loaded, read, unresolved, target)
  ]

  actions_in_lease-targets :
      (run_ensure : Bool) (active_market_date : String) (exported : Files) (m : Memory)
      → resolves key date (actions_in_lease json o run_ensure active_market_date d exported m).calls
        ≡ true
      → (n : Memory) × (resolves key date (resolve_pass json o d exported n).calls ≡ true)
  unfolding actions_in_lease ensure_pass
  actions_in_lease-targets run_ensure active_market_date exported m h =
      elim (Bool-cases run_ensure) [
        | inl ensured ↦ (record m { last_ensure_date = some active_market_date }, ground arith)
        | inr not_ensured ↦ (m, ground arith)
      ]

  run_decision-targets :
      (run_ensure : Bool) (active_market_date : String) (exported : Files) (m : Memory)
      → resolves key date (run_decision json o run_ensure active_market_date d exported m).calls
        ≡ true
      → IsTarget o d key date
  unfolding run_decision with_lease
  run_decision-targets run_ensure active_market_date exported m h =
      let body = actions_in_lease json o run_ensure active_market_date d exported m in
      let (n, resolved) =
        actions_in_lease-targets run_ensure active_market_date exported m
          (ground (arith, resolves-append key date body.calls (Call.release_chain_lease ∷ []))) in
      resolve_pass-targets exported n resolved

should_run_resolve_pass-due :
    (m : Memory) (today_iso : String) (now_hour : ℕ) (state : OperatorState)
    → (daily_markets : Dict DailyMarket)
    → (should_run_resolve_pass m today_iso now_hour state daily_markets).due
      ≡ due_dates today_iso now_hour state (collect_market_dates state daily_markets)
unfolding should_run_resolve_pass decide_window
should_run_resolve_pass-due m today_iso now_hour state daily_markets = ground arith

-- A cycle runs the command that resolves a market only for a date that is over, or for today's date at
-- the hour 21 or later, and only if the market was not resolved in the state that was loaded after the
-- markets of the day were ensured.
pub resolved_market-IsDue :
    (json : Printers) (o : Outside) (today_iso active_market_date : String) (now_hour : ℕ)
    → (m : Memory) (key date : String)
    → resolves key date
        (maybe_run_chain_actions json o today_iso active_market_date now_hour m).calls
      ≡ true
    → IsDue today_iso now_hour date
      × ((loaded : Files) × (o.files_after_ensure ≡ returned loaded)
          × (is_unresolved loaded.0 key date ≡ true))
unfolding maybe_run_chain_actions
resolved_market-IsDue json o today_iso active_market_date now_hour m key date h =
    elim (Answer-cases o.exported) [
      | inl (e, failed) ↦ ground arith
      | inr (none, nothing) ↦ ground arith
      | inr (some (state, daily_markets), read) ↦
          let d = should_run_resolve_pass m today_iso now_hour state daily_markets in
          let (loaded, loaded_eq, unresolved, target) =
            run_decision-targets json o key date d (should_run_ensure_pass m active_market_date)
              active_market_date (state, daily_markets) m (ground arith) in
          let same = should_run_resolve_pass-due m today_iso now_hour state daily_markets in
          let dates = collect_market_dates state daily_markets in
          (
            targets-IsDue today_iso now_hour state date dates
                (subst (λ due. is_in date (target_dates due) ≡ true) same target),
            (loaded, loaded_eq, unresolved),
          )
    ]
