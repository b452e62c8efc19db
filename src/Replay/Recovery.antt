-- ===== src/Replay/Recovery.antt =====
-- The replay of all events of the fast contract, from its start on
-- (src/recover-state-from-events.ts).
use perfect_weather_predicti.Prelude.{
  ℕ, ◌≡◌, sym, ap, ◌∙◌, subst, subst₂, Option, some, List, [], ◌++◌, map, String,
}
use perfect_weather_predicti.O1js.{O1js, IsLawful, NumberText, IsLawfulText}
use perfect_weather_predicti.StateStore.{
  OperatorState, market_value, build_markets_merkle_map, build_receipts_merkle_map,
  build_claimed_receipts_merkle_map, build_nonce_merkle_map,
}
use perfect_weather_predicti.FastContract.{FastState, FastEvent, FastOutcome, init}
use perfect_weather_predicti.FastContract.Ledger.{Ledger, empty_ledger}
use perfect_weather_predicti.FastContract.Simulation.{init-Represents}
use perfect_weather_predicti.FastContract.Calls.{Call, configured, created, bet, resolved, claimed}
use perfect_weather_predicti.Replay.{ParsedEvent, replay, empty_state}
use perfect_weather_predicti.Replay.Mirror.{Mirrors, Keeps-nothing, Keeps-root}
use perfect_weather_predicti.Replay.Events.{IsFetch, AreRanged}
use perfect_weather_predicti.Replay.Rebuild.{
  Follows, configured-Follows, created-Follows, bet-Follows, resolved-Follows, claimed-Follows,
}
use perfect_weather_predicti.Replay.Runs.{replay-append, map-append, replay-none}

module _ (o : O1js) where
  open o use {MerkleMap, get_root}

  -- The map can be built, and its root is the one given.
  abbrev pub HasRoot : Option MerkleMap → ℕ → Type 0
  HasRoot built root = (m : MerkleMap) × (built ≡ some m) × (get_root m ≡ root)

  -- Accepted calls, with the events that they emit, in order; the `UInt64` values of the events are
  -- in range.
  pub data Trace (s : FastState) : List FastEvent → FastState → Type 0 where
    start : Trace s [] s
    call :
        {es : List FastEvent} {t u : FastState} (out : FastOutcome o)
        → Trace s es t
        → Call o t out
        → AreRanged out.events
        → out.state ≡ u
        → Trace s (es ++ out.events) u

module _ (o : O1js) (l : IsLawful o) (x : NumberText) (tl : IsLawfulText x)
    (fetched : FastEvent → ParsedEvent) (fetch : IsFetch x fetched) where
  Call-Follows :
      (s : FastState) (g : Ledger o) (d : OperatorState) (out : FastOutcome o)
      → Mirrors o l x tl s g d
      → Call o s out
      → AreRanged out.events
      → Follows o l x tl fetched fetch d out
  Call-Follows s g d out h (configured signed source path accepted) ranged =
      configured-Follows o l x tl fetched fetch s g d out h signed source path accepted
  Call-Follows s g d out h (created key m w accepted) ranged =
      created-Follows o l x tl fetched fetch s g d out h key m w accepted ranged
  Call-Follows s g d out h (bet key old new w receipt commitment rw' owner accepted) ranged =
      bet-Follows o l x tl fetched fetch s g d out h key old new w receipt commitment rw' owner
        accepted ranged
  Call-Follows s g d out h (resolved key old new w oracle nw accepted) ranged =
      resolved-Follows o l x tl fetched fetch s g d out h key old new w oracle nw accepted ranged
  Call-Follows s g d out h
        (claimed key m w receipt commitment rw' cw claimant total_bet yes_bet owner salt accepted)
        ranged =
      claimed-Follows o l x tl fetched fetch s g d out h key m w receipt commitment rw' cw claimant
        total_bet yes_bet owner salt accepted

  pub Trace-Mirrors :
      {s t : FastState} {es : List FastEvent} (g : Ledger o) (d : OperatorState)
      → Trace o s es t
      → Mirrors o l x tl s g d
      → (g' : Ledger o) × Mirrors o l x tl t g' (replay x (map fetched es) d)
  Trace-Mirrors g d start h = (g, subst (Mirrors o l x tl _ g) (sym (replay-none x d)) h)
  Trace-Mirrors g d (call {es = es} out before c ranged e) h =
      let (g', h') = Trace-Mirrors g d before h in
      let (g'', h'') = Call-Follows _ g' _ out h' c ranged in
      let appended : replay x (map fetched (es ++ out.events)) d
          ≡ replay x (map fetched out.events) (replay x (map fetched es) d) =
        ap (λ q. replay x q d) (map-append fetched es out.events)
        ∙ replay-append x (map fetched es) (map fetched out.events) d in
      (g'', subst₂ (λ u q. Mirrors o l x tl u g'' q) e (sym appended) h'')

  pub init-Mirrors :
      (zkapp : Option String) (existing : OperatorState)
      → Mirrors o l x tl (init o) (empty_ledger o) (empty_state zkapp existing)
  unfolding empty_state
  init-Mirrors zkapp existing = record {
    represents = init-Represents o l;
    markets = Keeps-nothing o l x tl (market_value x o);
    receipts = Keeps-nothing o l x tl x.field_of;
    claimed = Keeps-nothing o l x tl x.field_of;
    nonces = Keeps-nothing o l x tl x.field_of;
  }

  -- For any sequence of accepted calls of the fast contract from its start on, replaying the events
  -- that they emit gives a state from which all four maps can be built, with the four roots that the
  -- contract then keeps. It rests on what o1js promises of hashing, of Merkle maps, of printed
  -- numbers and of fetched events, and on `UInt64` values that are in range.
  pub replay_rebuilds :
      (zkapp : Option String) (existing : OperatorState) (es : List FastEvent) (t : FastState)
      → Trace o (init o) es t
      → let d = replay x (map fetched es) (empty_state zkapp existing) in
        HasRoot o (build_markets_merkle_map x o d) t.markets_root
        × HasRoot o (build_receipts_merkle_map x o d) t.receipts_root
        × HasRoot o (build_claimed_receipts_merkle_map x o d) t.claimed_receipts_root
        × HasRoot o (build_nonce_merkle_map x o d) t.used_oracle_nonce_root
  unfolding build_markets_merkle_map build_receipts_merkle_map build_claimed_receipts_merkle_map
      build_nonce_merkle_map
  replay_rebuilds zkapp existing es t trace =
      let (g, h) =
        Trace-Mirrors (empty_ledger o) (empty_state zkapp existing) trace
          (init-Mirrors zkapp existing) in
      (
        (
          h.markets.built,
          h.markets.builds,
          Keeps-root o l x tl _ _ g.markets h.markets ∙ sym h.represents.markets,
        ),
        (
          h.receipts.built,
          h.receipts.builds,
          Keeps-root o l x tl _ _ g.receipts h.receipts ∙ sym h.represents.receipts,
        ),
        (
          h.claimed.built,
          h.claimed.builds,
          Keeps-root o l x tl _ _ g.claimed h.claimed ∙ sym h.represents.claimed,
        ),
        (
          h.nonces.built,
          h.nonces.builds,
          Keeps-root o l x tl _ _ g.nonces h.nonces ∙ sym h.represents.nonces,
        ),
      )
