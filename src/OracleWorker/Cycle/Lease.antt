-- ===== src/OracleWorker/Cycle/Lease.antt =====
-- The chain lease in a cycle of the worker (src/oracle-worker.ts, lines 259 to 356).
use perfect_weather_predicti.Prelude.{
  ℕ, ◌≡◌, ◌≢◌, ◌⊎◌, inl, inr, refl, Bool, true, false, ◌&&◌, Option, none, some, List, [], ◌∷◌,
  ◌++◌, String, Dict, if◌then◌else◌, not, Option-cases, Bool-cases, arith,
}
use perfect_weather_predicti.StateStore.{OperatorState}
use perfect_weather_predicti.TxRetry.{Thrown, Answer, thrown, returned}
use perfect_weather_predicti.OracleWorker.{
  Memory, ResolveDecision, collect_market_dates, should_run_ensure_pass, should_run_resolve_pass,
}
use perfect_weather_predicti.OracleWorker.Changes.{Printers}
use perfect_weather_predicti.OracleWorker.Cycle.{
  Outside, Call, Run, Files, import_pass, resolve_markets, resolve_with, resolve_pass, ensure_pass,
  target_dates, actions_in_lease, with_lease, run_decision, maybe_run_chain_actions,
}

abbrev pub is_lease_call : Call → Bool
is_lease_call Call.acquire_chain_lease = true
is_lease_call Call.release_chain_lease = true
is_lease_call Call.sync_state = false
is_lease_call Call.ensure_daily_markets = false
is_lease_call (Call.resolve_daily_market market_key market_date) = false
is_lease_call (Call.import_changes i) = false

pub Answer-cases :
    {T : Type 0} → (a : Answer T) → ((e : Thrown) × (a ≡ thrown e)) ⊎ ((v : T) × (a ≡ returned v))
Answer-cases (thrown e) = inl (e, refl)
Answer-cases (returned v) = inr (v, refl)

-- Whether a call takes or gives back the lease.
abbrev pub has_lease_call : List Call → Bool
has_lease_call [] = false
has_lease_call (c ∷ calls) = if is_lease_call c then true else has_lease_call calls

module _ (json : Printers) (o : Outside) where
  import_pass-lease_free :
      (exported : Files) (m : Memory) → has_lease_call (import_pass json o exported m).calls ≡ false
  unfolding import_pass
  import_pass-lease_free exported m = ground arith

  resolve_markets-lease_free :
      (targets : List String) (state : OperatorState) (dates : Dict String) (m : Memory)
      (after : Run)
      → has_lease_call after.calls ≡ false
      → has_lease_call (resolve_markets json o targets state dates m after).calls ≡ false
  unfolding resolve_markets
  resolve_markets-lease_free targets state [] m after h = h
  resolve_markets-lease_free targets state ((key, date) ∷ dates) m after h =
      ground (arith, resolve_markets-lease_free targets state dates m after h)

  resolve_with-lease_free :
      (d : ResolveDecision) (exported loaded : Files) (m : Memory)
      → has_lease_call (resolve_with json o d exported loaded m).calls ≡ false
  unfolding resolve_with
  resolve_with-lease_free d exported (state, daily_markets) m =
      let done = record m { last_resolve_window_key = d.window_key } in
      ground (
        arith,
        resolve_markets-lease_free (target_dates d.due) state
            (collect_market_dates state daily_markets) m (import_pass json o exported done)
            (import_pass-lease_free exported done),
        import_pass-lease_free exported m,
      )

  resolve_pass-lease_free :
      (d : ResolveDecision) (exported : Files) (m : Memory)
      → has_lease_call (resolve_pass json o d exported m).calls ≡ false
  unfolding resolve_pass
  resolve_pass-lease_free d exported m = elim (Answer-cases o.files_after_ensure) [
    | inl (e, failed) ↦ ground arith
    | inr (loaded, read) ↦ ground (arith, resolve_with-lease_free d exported loaded m)
  ]

  ensure_pass-lease_free :
      (run_ensure : Bool) (active_market_date : String) (d : ResolveDecision) (exported : Files)
      → (m : Memory)
      → has_lease_call (ensure_pass json o run_ensure active_market_date d exported m).calls ≡ false
  unfolding ensure_pass
  ensure_pass-lease_free run_ensure active_market_date d exported m = ground (
    arith,
    resolve_pass-lease_free d exported m,
    resolve_pass-lease_free d exported (record m { last_ensure_date = some active_market_date }),
  )

  actions_in_lease-lease_free :
      (run_ensure : Bool) (active_market_date : String) (d : ResolveDecision) (exported : Files)
      → (m : Memory)
      → has_lease_call (actions_in_lease json o run_ensure active_market_date d exported m).calls
        ≡ false
  unfolding actions_in_lease
  actions_in_lease-lease_free run_ensure active_market_date d exported m =
      ground (arith, ensure_pass-lease_free run_ensure active_market_date d exported m)

-- The calls of a run: none at all, the refused lease alone, or the lease, calls that leave it alone,
-- and its return.
abbrev pub HoldsLease : Option Thrown → Run → Type 0
HoldsLease lease_acquired run =
    (run.calls ≡ [])
    ⊎ ((lease_acquired ≢ none)
        × (run.calls ≡ Call.acquire_chain_lease ∷ [])
        × (run.throws ≡ lease_acquired))
    ⊎ ((lease_acquired ≡ none)
        × ((body : List Call) × (has_lease_call body ≡ false)
            × (run.calls ≡ Call.acquire_chain_lease ∷ (body ++ (Call.release_chain_lease ∷ [])))))

module _ (json : Printers) (o : Outside) where
  with_lease-HoldsLease :
      (m : Memory) (body : Run)
      → has_lease_call body.calls ≡ false
      → HoldsLease o.lease_acquired (with_lease json o m body)
  unfolding with_lease
  with_lease-HoldsLease m body free = elim (Option-cases o.lease_acquired) [
    | inl granted ↦ inr (inr (granted, (body.calls, free, ground arith)))
    | inr (e, refused) ↦ inr (inl (ground arith))
  ]

  run_decision-HoldsLease :
      (run_ensure : Bool) (active_market_date : String) (d : ResolveDecision) (exported : Files)
      → (m : Memory)
      → HoldsLease o.lease_acquired (run_decision json o run_ensure active_market_date d exported m)
  unfolding run_decision
  run_decision-HoldsLease run_ensure active_market_date d exported m =
      elim (Bool-cases (not run_ensure && not d.should_run)) [
        | inl nothing_due ↦ inl (ground arith)
        | inr due ↦ elim (Option-cases o.files_saved) [
          | inl saved ↦ rw due (
              rw saved (
                with_lease-HoldsLease m
                  (actions_in_lease json o run_ensure active_market_date d exported m)
                  (actions_in_lease-lease_free json o run_ensure active_market_date d exported m)))
          | inr (e, failed) ↦ inl (ground arith)
        ]
      ]

-- A cycle, whatever the server answers and whatever its commands end with, takes the lease at most
-- once and as the first of its calls. If the lease is granted, the last call gives it back, and no call
-- between them takes or gives it back; if it is refused, no other call is made, and the cycle throws.
pub cycle_gives_lease_back :
    (json : Printers) (o : Outside) (today_iso active_market_date : String) (now_hour : ℕ)
    → (m : Memory)
    → let run = maybe_run_chain_actions json o today_iso active_market_date now_hour m in
      HoldsLease o.lease_acquired run
unfolding maybe_run_chain_actions
cycle_gives_lease_back json o today_iso active_market_date now_hour m =
    elim (Answer-cases o.exported) [
      | inl (e, failed) ↦ inl (ground arith)
      | inr (none, nothing) ↦ inl (ground arith)
      | inr (some (state, daily_markets), read) ↦ rw read (
          run_decision-HoldsLease json o (should_run_ensure_pass m active_market_date)
            active_market_date (should_run_resolve_pass m today_iso now_hour state daily_markets)
            (state, daily_markets) m)
    ]
