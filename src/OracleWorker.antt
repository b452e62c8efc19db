-- ===== src/OracleWorker.antt =====
-- src/oracle-worker.ts, lines 92 to 230: the worker that keeps the daily markets, its wait for the
-- server, the dates of the markets and what is due. Reading of the environment, the HTTP requests
-- and the attestation of the weather are left out.
pub mod Changes
pub mod Cycle
mod Tests
pub mod Title
pub mod Waiting
use perfect_weather_predicti.Prelude.{
  ℕ, zero, suc, Bool, true, false, not, ◌&&◌, Option, none, some, List, [], ◌∷◌, ◌++◌, String,
  str_eq, Dict, lookup, put, if◌then◌else◌, leb,
}
use Prim.Native.String.{compare, ◌++◌ as append}
use text.Mathlib.Text.{is_lt}
use perfect_weather_predicti.StateStore.{
  StoredMarketLeaf, StoredMarketMeta, StoredPositionMeta, StoredReceiptMeta, OperatorState,
}
use perfect_weather_predicti.OracleWorker.Title.{market_date_from_title}

-- `a < b` on texts
abbrev pub is_before : String → String → Bool
is_before a b = is_lt (compare a b)

-- A market of the daily file: its key, and the rest of it as text.
pub record DailyMarket : Type 0 where
  pub market_key : Option String
  pub rest : String

-- A check of `/api/ready`: whether the answer is that the server is ready. A failed request is not.
pub record Wait : Type 0 where
  pub ready : Bool
  pub checks : ℕ
  pub sleeps : List ℕ

-- The loop of `waitForMarketReady`, with `left` checks to make, of which the next is `attempt`.
unfoldable pub wait_from : (is_ready : ℕ → Bool) (delay_ms left attempt : ℕ) → Wait
wait_from is_ready delay_ms zero attempt = record { ready = false; checks = 0; sleeps = [] }
wait_from is_ready delay_ms (suc zero) attempt = record {
  ready = is_ready attempt;
  checks = 1;
  sleeps = [];
}
wait_from is_ready delay_ms (suc (suc left)) attempt =
    let rest = wait_from is_ready delay_ms (suc left) (suc attempt) in
    if is_ready attempt
    then record { ready = true; checks = 1; sleeps = [] }
    else record { ready = rest.ready; checks = suc rest.checks; sleeps = delay_ms ∷ rest.sleeps }

-- `waitForMarketReady`, which throws if the server is not ready in the end.
unfoldable pub wait_for_market_ready : (is_ready : ℕ → Bool) (max_attempts delay_ms : ℕ) → Wait
wait_for_market_ready is_ready max_attempts delay_ms = wait_from is_ready delay_ms max_attempts 1

abbrev has : {V : Type 0} → String → Dict V → Bool
has key d = elim (lookup key d) [ none ↦ false | some v ↦ true ]

abbrev is_empty : String → Bool
is_empty text = str_eq text ""

-- `if (!byMarketKey.has(key)) byMarketKey.set(key, date)`, if there are a key and a date.
unfoldable pub add_new : (key date : Option String) → Dict String → Dict String
add_new none date by_key = by_key
add_new (some key) none by_key = by_key
add_new (some key) (some date) by_key = if has key by_key then by_key else put key date by_key

abbrev nonempty : String → Option String
nonempty text = if is_empty text then none else some text

abbrev nonempty_of : Option String → Option String
nonempty_of none = none
nonempty_of (some text) = nonempty text

-- The four loops of `collectMarketDates`.
unfoldable pub add_titles : Dict StoredMarketMeta → Dict String → Dict String
add_titles [] by_key = by_key
add_titles ((key, meta) ∷ metas) by_key =
    add_titles metas
      (elim (market_date_from_title meta.title) [ none ↦ by_key | some date ↦ put key date by_key ])

unfoldable pub add_daily_markets : Dict DailyMarket → Dict String → Dict String
unfolding add_new
add_daily_markets [] by_key = by_key
add_daily_markets ((date, market) ∷ markets) by_key =
    add_daily_markets markets (add_new (nonempty_of market.market_key) (some date) by_key)

unfoldable pub add_positions : Dict StoredPositionMeta → Dict String → Dict String
unfolding add_new
add_positions [] by_key = by_key
add_positions ((key, meta) ∷ metas) by_key =
    add_positions metas (add_new (some meta.market_key) (nonempty_of meta.market_date) by_key)

unfoldable pub add_receipts : Dict StoredReceiptMeta → Dict String → Dict String
unfolding add_new
add_receipts [] by_key = by_key
add_receipts ((key, meta) ∷ metas) by_key =
    add_receipts metas (add_new (some meta.market_key) (nonempty_of meta.market_date) by_key)

-- `collectMarketDates`
unfoldable pub collect_market_dates : OperatorState → Dict DailyMarket → Dict String
unfolding add_titles add_daily_markets add_positions add_receipts
collect_market_dates state daily_markets =
    let titled = add_titles state.market_meta [] in
    let daily = add_daily_markets daily_markets titled in
    add_receipts state.receipt_meta (add_positions state.position_meta daily)

-- The module's `lastEnsureDate` and `lastResolveWindowKey`.
pub record Memory : Type 0 where
  pub last_ensure_date : Option String
  pub last_resolve_window_key : Option String

-- `a === b`, where either may be `null`.
abbrev pub same : Option String → Option String → Bool
same none none = true
same (some a) (some b) = str_eq a b
same _ _ = false

unfoldable pub should_run_ensure_pass : Memory → String → Bool
should_run_ensure_pass m today_iso = not (same m.last_ensure_date (some today_iso))

-- `marketDate && stored && stored.resolved !== '1'`
unfoldable pub is_unresolved : OperatorState → (market_key market_date : String) → Bool
is_unresolved state market_key market_date = elim (lookup market_key state.markets) [
  | none ↦ false
  | some stored ↦ not (is_empty market_date) && not (str_eq stored.resolved "1")
]

pub record DueDates : Type 0 where
  pub past_due_unresolved_dates : List String
  pub eligible_today_dates : List String

unfoldable pub due_dates :
    (today_iso : String) (now_hour : ℕ) (state : OperatorState) → Dict String → DueDates
unfolding is_unresolved
due_dates today_iso now_hour state [] = record {
  past_due_unresolved_dates = [];
  eligible_today_dates = [];
}
due_dates today_iso now_hour state ((market_key, market_date) ∷ dates) =
    let rest = due_dates today_iso now_hour state dates in
    if not (is_unresolved state market_key market_date)
    then rest
    else if is_before market_date today_iso
    then record rest { past_due_unresolved_dates = market_date ∷ rest.past_due_unresolved_dates }
    else if str_eq market_date today_iso && leb 21 now_hour
    then record rest { eligible_today_dates = market_date ∷ rest.eligible_today_dates }
    else rest

pub record ResolveDecision : Type 0 where
  pub should_run : Bool
  pub window_key : Option String
  pub due : DueDates

abbrev window : Memory → String → DueDates → ResolveDecision
window m key due = record {
  should_run = not (same m.last_resolve_window_key (some key));
  window_key = some key;
  due = due;
}

unfoldable pub decide_window : Memory → (today_iso : String) → DueDates → ResolveDecision
decide_window m today_iso due = elim due.past_due_unresolved_dates [
  | date ∷ dates ↦ window m (append today_iso "-past-due") due
  | [] ↦ elim due.eligible_today_dates [
    | date ∷ dates ↦ window m (append today_iso "-after-21") due
    | [] ↦ record { should_run = false; window_key = none; due = due }
  ]
]

-- `shouldRunResolvePass`
unfoldable pub should_run_resolve_pass :
    Memory
    → (today_iso : String) (now_hour : ℕ) → OperatorState
    → Dict DailyMarket
    → ResolveDecision
unfolding due_dates collect_market_dates decide_window
should_run_resolve_pass m today_iso now_hour state daily_markets =
    decide_window m today_iso
      (due_dates today_iso now_hour state (collect_market_dates state daily_markets))
