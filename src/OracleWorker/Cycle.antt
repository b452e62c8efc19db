-- ===== src/OracleWorker/Cycle.antt =====
-- src/oracle-worker.ts, lines 234 to 357: the chain actions of a cycle. The answers of the server, the
-- outcomes of the commands that are run, and what they leave in the files are parameters. Whether
-- chain actions are enabled is tested by the caller. Messages are left out.
pub mod Lease
pub mod Due
pub mod Window
use perfect_weather_predicti.Prelude.{
  ℕ, Bool, false, not, ◌&&◌, ◌||◌, Option, none, some, List, [], ◌∷◌, ◌++◌, String, str_eq, Dict,
  if◌then◌else◌,
}
use perfect_weather_predicti.StateStore.{OperatorState}
use perfect_weather_predicti.TxRetry.{Thrown, Answer, returned, thrown, is_retryable_tx_error}
use perfect_weather_predicti.OracleWorker.{
  DailyMarket, Memory, ResolveDecision, DueDates, collect_market_dates, is_unresolved,
  should_run_ensure_pass, should_run_resolve_pass,
}
use perfect_weather_predicti.OracleWorker.Changes.{StateImport, Printers, export_changes}

abbrev pub Files : Type 0
Files = OperatorState × Dict DailyMarket

-- What a call or a command ends with: nothing, or what it throws.
abbrev pub Outcome : Type 0
Outcome = Option Thrown

pub record Outside : Type 0 where
  pub exported : Answer (Option Files)
  pub files_saved : Outcome
  pub lease_acquired : Outcome
  pub state_synced : Outcome
  pub markets_ensured : Outcome
  pub files_after_ensure : Answer Files
  pub market_resolved : (market_key : String) → Outcome
  pub files_at_end : Answer Files
  pub state_imported : Outcome

-- The calls that change the chain or the server, in their order.
pub data Call : Type 0 where
  acquire_chain_lease release_chain_lease sync_state ensure_daily_markets : Call
  resolve_daily_market : (market_key market_date : String) → Call
  import_changes : StateImport → Call

pub record Run : Type 0 where
  pub memory : Memory
  pub calls : List Call
  pub throws : Outcome

-- A call that is made, and what follows if it does not throw.
abbrev pub then_run : Call → Outcome → Memory → Run → Run
then_run c none m next = record next { calls = c ∷ next.calls }
then_run c (some e) m next = record { memory = m; calls = c ∷ []; throws = some e }

abbrev pub is_in : String → List String → Bool
is_in date [] = false
is_in date (d ∷ dates) = str_eq date d || is_in date dates

abbrev pub target_dates : DueDates → List String
target_dates due = due.past_due_unresolved_dates ++ due.eligible_today_dates

module _ (json : Printers) (o : Outside) where
  -- Lines 327 to 346: the changes are sent back.
  unfoldable pub import_pass : (exported : Files) → Memory → Run
  import_pass (state, daily_markets) m = elim o.files_at_end [
    | thrown e ↦ record { memory = m; calls = []; throws = some e }
    | returned (final_state, final_daily_markets) ↦
        elim (export_changes json state final_state daily_markets final_daily_markets) [
          | none ↦ record { memory = m; calls = []; throws = none }
          | some i ↦
              then_run (import_changes i) o.state_imported m
                (record { memory = m; calls = []; throws = none })
        ]
  ]

  -- The loop over the dates of the markets; `after` is what follows it.
  unfoldable pub resolve_markets :
      (targets : List String) → OperatorState → Dict String → (m : Memory) (after : Run) → Run
  resolve_markets targets state [] m after = after
  resolve_markets targets state ((market_key, market_date) ∷ dates) m after =
      let rest = resolve_markets targets state dates m after in
      if is_unresolved state market_key market_date && is_in market_date targets
      then then_run (resolve_daily_market market_key market_date) (o.market_resolved market_key) m
          rest
      else rest

  -- Lines 300 to 325, and what follows, with the files that line 298 read.
  unfoldable pub resolve_with : ResolveDecision → (exported loaded : Files) → Memory → Run
  unfolding resolve_markets import_pass
  resolve_with d exported (state, daily_markets) m =
      if d.should_run
      then resolve_markets (target_dates d.due) state (collect_market_dates state daily_markets) m
          (import_pass exported (record m { last_resolve_window_key = d.window_key }))
      else import_pass exported m

  unfoldable pub resolve_pass : ResolveDecision → (exported : Files) → Memory → Run
  unfolding resolve_with
  resolve_pass d exported m = elim o.files_after_ensure [
    | thrown e ↦ record { memory = m; calls = []; throws = some e }
    | returned loaded ↦ resolve_with d exported loaded m
  ]

  unfoldable pub ensure_pass :
      (run_ensure : Bool) (active_market_date : String)
      → ResolveDecision
      → (exported : Files) → Memory
      → Run
  unfolding resolve_pass
  ensure_pass run_ensure active_market_date d exported m =
      if run_ensure
      then then_run ensure_daily_markets o.markets_ensured m
          (resolve_pass d exported (record m { last_ensure_date = some active_market_date }))
      else resolve_pass d exported m

  -- The body of the `try`: a sync that fails on the network ends the cycle without an error.
  unfoldable pub actions_in_lease :
      (run_ensure : Bool) (active_market_date : String)
      → ResolveDecision
      → (exported : Files) → Memory
      → Run
  unfolding ensure_pass
  actions_in_lease run_ensure active_market_date d exported m = elim o.state_synced [
    | none ↦
        let next = ensure_pass run_ensure active_market_date d exported m in
        record next { calls = sync_state ∷ next.calls }
    | some e ↦ record {
      memory = m;
      calls = sync_state ∷ [];
      throws = if is_retryable_tx_error e then none else some e;
    }
  ]

  -- The lease is taken, and given back in the `finally`, where an error is only logged.
  unfoldable pub with_lease : Memory → Run → Run
  with_lease m body =
      then_run acquire_chain_lease o.lease_acquired m
        (record body { calls = body.calls ++ (release_chain_lease ∷ []) })

  abbrev idle : Memory → Outcome → Run
  idle m throws = record { memory = m; calls = []; throws = throws }

  unfoldable pub run_decision :
      (run_ensure : Bool) (active_market_date : String)
      → ResolveDecision
      → (exported : Files) → Memory
      → Run
  unfolding actions_in_lease with_lease
  run_decision run_ensure active_market_date d exported m =
      if not run_ensure && not d.should_run then idle m none else elim o.files_saved [
        | some e ↦ idle m (some e)
        | none ↦ with_lease m (actions_in_lease run_ensure active_market_date d exported m)
      ]

  -- `maybeRunChainActions`
  unfoldable pub maybe_run_chain_actions :
      (today_iso active_market_date : String) (now_hour : ℕ) → Memory → Run
  unfolding run_decision should_run_ensure_pass
  maybe_run_chain_actions today_iso active_market_date now_hour m = elim o.exported [
    | thrown e ↦ idle m (some e)
    | returned none ↦ idle m none
    | returned (some (state, daily_markets)) ↦
        run_decision (should_run_ensure_pass m active_market_date) active_market_date
          (should_run_resolve_pass m today_iso now_hour state daily_markets) (state, daily_markets)
          m
  ]
