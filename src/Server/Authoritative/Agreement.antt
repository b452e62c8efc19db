-- ===== src/Server/Authoritative/Agreement.antt =====
-- The server's state against that of src/sync-state-zeko.ts (src/marketplace-server.ts, lines 2076
-- to 2166).
use perfect_weather_predicti.Prelude.{
  ◌⊎◌, inl, inr, str_eq, ℕ, ◌≡◌, ◌≢◌, refl, ap, sym, subst, map, ◌∙◌, true, false, Option, none,
  some, List, [], ◌∷◌, String, eq_iff, arith,
}
use perfect_weather_predicti.O1js.{O1js, IsLawful, NumberText, IsLawfulText}
use perfect_weather_predicti.StateStore.{
  OperatorState, StoredPositionLeaf, build_markets_merkle_map, build_receipts_merkle_map,
  build_claimed_receipts_merkle_map,
}
use perfect_weather_predicti.FastContract.{FastState, FastEvent, init}
use perfect_weather_predicti.Replay.Events.{IsFetch}
use perfect_weather_predicti.Replay.Recovery.{Trace, HasRoot, replay_rebuilds}
use perfect_weather_predicti.Prelude.{Dict}
use perfect_weather_predicti.Replay.{
  EventValue, text, number, flag, object, missing, EventData, ParsedEvent, RawEvent,
  extract_parsed_events, is_truthy, as_string_like, as_field, as_uint64, as_bool, oracle_nonce_of,
  leaf_from_event_data, apply_market, apply_committed, apply_claimed, apply_event, replay, or_state,
  empty_state,
}
use perfect_weather_predicti.Replay.Sync.{build_state_from_events, merge_monotonic_state}
use perfect_weather_predicti.Server.Authoritative.{
  as_sync_field, as_sync_uint64, as_sync_bool, sync_leaf, sync_nonce, sync_market, sync_committed,
  sync_claimed, sync_event, sync_events, build_authoritative_state,
}

-- No flag.
abbrev pub IsNumeric : EventValue → Type 0
IsNumeric (text t) = Unit
IsNumeric (number n) = Unit
IsNumeric (flag b) = ⊥
IsNumeric (object t) = Unit
IsNumeric missing = Unit

-- The numbers of an event are not given as flags, and its nonce can be read, if it has one.
pub record IsPlain (x : NumberText) (d : EventData) : Type 0 where
  pub market_key : IsNumeric (d "marketKey")
  pub config_hash : IsNumeric (d "configHash")
  pub close_slot : IsNumeric (d "closeSlot")
  pub expiry_slot : IsNumeric (d "expirySlot")
  pub threshold : IsNumeric (d "thresholdValueTenthC")
  pub total : IsNumeric (d "totalPositionBet")
  pub yes_total : IsNumeric (d "totalYesPositionBet")
  pub statement : IsNumeric (d "oracleStatementHash")
  pub oracle_nonce : IsNumeric (d "oracleNonce")
  pub receipt_key : IsNumeric (d "receiptKey")
  pub receipt_commitment : IsNumeric (d "receiptCommitment")
  pub nonce_read : is_truthy x (d "oracleNonce") ≡ true → as_field x (d "oracleNonce") ≢ none

abbrev pub ArePlain : NumberText → List ParsedEvent → Type 0
ArePlain x [] = Unit
ArePlain x (e ∷ es) = IsPlain x e.event_data × ArePlain x es

module _ (x : NumberText) (tl : IsLawfulText x) where
  as_sync_field-eq : (v : EventValue) → IsNumeric v → as_sync_field x v ≡ as_field x v
  unfolding as_sync_field as_field as_string_like
  as_sync_field-eq (text t) h = refl
  as_sync_field-eq (number n) h = refl
  as_sync_field-eq (flag b) h = absurd h
  as_sync_field-eq (object t) h = refl
  as_sync_field-eq missing h = refl

  as_sync_uint64-eq : (v : EventValue) → IsNumeric v → as_sync_uint64 x v ≡ as_uint64 x v
  unfolding as_sync_uint64 as_uint64 as_string_like
  as_sync_uint64-eq (text t) h = refl
  as_sync_uint64-eq (number n) h = refl
  as_sync_uint64-eq (flag b) h = absurd h
  as_sync_uint64-eq (object t) h = refl
  as_sync_uint64-eq missing h = refl

  as_sync_bool-eq : (v : EventValue) → as_sync_bool x v ≡ as_bool x v
  unfolding as_sync_bool as_bool as_string_like
  as_sync_bool-eq (text t) = refl
  as_sync_bool-eq (number n) = refl
  as_sync_bool-eq (flag b) = refl
  as_sync_bool-eq (object t) = refl
  as_sync_bool-eq missing = refl

  abbrev placed : Dict StoredPositionLeaf → OperatorState → OperatorState
  placed p s = record s { positions = p }

  -- A number that is read does not print as the empty text.
  not_empty :
      (v : Option ℕ) → (v ≡ none) ⊎ ((n : ℕ) × (v ≡ some n) × (str_eq (x.to_string n) "" ≡ false))
  not_empty none = inl refl
  not_empty (some n) =
      inr (n, refl, ground (arith, eq_iff (x.to_string n) "", tl.to_string_ne_empty n))

  sync_market-eq :
      (d : EventData) (p : Dict StoredPositionLeaf) (s : OperatorState)
      → IsPlain x d
      → sync_market x d (placed p s) ≡ placed p (or_state x s (apply_market x d s))
  unfolding sync_market sync_leaf sync_nonce apply_market leaf_from_event_data oracle_nonce_of
  sync_market-eq d p s h = ground (
    arith,
    as_sync_field-eq (d "marketKey") h.market_key,
    as_sync_field-eq (d "configHash") h.config_hash,
    as_sync_uint64-eq (d "closeSlot") h.close_slot,
    as_sync_uint64-eq (d "expirySlot") h.expiry_slot,
    as_sync_uint64-eq (d "thresholdValueTenthC") h.threshold,
    as_sync_uint64-eq (d "totalPositionBet") h.total,
    as_sync_uint64-eq (d "totalYesPositionBet") h.yes_total,
    as_sync_bool-eq (d "resolved"),
    as_sync_bool-eq (d "outcome"),
    as_sync_field-eq (d "oracleStatementHash") h.statement,
    as_sync_field-eq (d "oracleNonce") h.oracle_nonce,
    h.nonce_read,
    not_empty (as_field x (d "oracleNonce")),
  )

  sync_committed-eq :
      (d : EventData) (p : Dict StoredPositionLeaf) (s : OperatorState)
      → IsPlain x d
      → sync_committed x d (placed p s) ≡ placed p (or_state x s (apply_committed x d s))
  unfolding sync_committed apply_committed
  sync_committed-eq d p s h = ground (
    arith,
    as_sync_field-eq (d "receiptKey") h.receipt_key,
    as_sync_field-eq (d "receiptCommitment") h.receipt_commitment,
  )

  sync_claimed-eq :
      (d : EventData) (p : Dict StoredPositionLeaf) (s : OperatorState)
      → IsPlain x d
      → sync_claimed x d (placed p s) ≡ placed p (or_state x s (apply_claimed x d s))
  unfolding sync_claimed apply_claimed
  sync_claimed-eq d p s h = ground (arith, as_sync_field-eq (d "receiptKey") h.receipt_key)

  sync_event-eq :
      (e : ParsedEvent) (p : Dict StoredPositionLeaf) (s : OperatorState)
      → IsPlain x e.event_data
      → sync_event x (placed p s) e ≡ placed p (or_state x s (apply_event x s e))
  unfolding sync_event apply_event
  sync_event-eq e p s h = ground (
    arith,
    sync_market-eq e.event_data p s h,
    sync_committed-eq e.event_data p s h,
    sync_claimed-eq e.event_data p s h,
  )

  sync_events-eq :
      (es : List ParsedEvent) (p : Dict StoredPositionLeaf) (s : OperatorState)
      → ArePlain x es
      → sync_events x es (placed p s) ≡ placed p (replay x es s)
  unfolding sync_events replay
  sync_events-eq [] p s h = refl
  sync_events-eq (e ∷ es) p s (h, hs) =
      ap (sync_events x es) (sync_event-eq e p s h)
      ∙ sync_events-eq es p (or_state x s (apply_event x s e)) hs

  -- For events whose numbers are not given as flags and whose nonces can be read, the state that the
  -- server builds is the one that the sync script builds from the same file and events, except
  -- that it keeps the positions of the file.
  pub build_authoritative_state-eq-sync :
      (existing : OperatorState) (raw : List RawEvent) (zkapp : String)
      → ArePlain x (extract_parsed_events raw)
      → build_authoritative_state x existing raw zkapp
        ≡ record (build_state_from_events x zkapp raw existing) { positions = existing.positions }
  unfolding build_authoritative_state build_state_from_events merge_monotonic_state empty_state
  build_authoritative_state-eq-sync existing raw zkapp h =
      let es = extract_parsed_events raw in
      let replayed = sync_events-eq es existing.positions (empty_state (some zkapp) existing) h in
      ground (arith, replayed)

abbrev HasRoots : (o : O1js) → NumberText → FastState → OperatorState → Type 0
HasRoots o x t d =
    HasRoot o (build_markets_merkle_map x o d) t.markets_root
    × HasRoot o (build_receipts_merkle_map x o d) t.receipts_root
    × HasRoot o (build_claimed_receipts_merkle_map x o d) t.claimed_receipts_root

-- For the events of any run of accepted calls of the fast contract from its start on, fetched with no
-- number given as a flag and with nonces that can be read, the maps of markets, receipts and claimed
-- receipts can be built from the server's state, and have the roots that the contract keeps.
pub authoritative_state_has_roots :
    (o : O1js) (l : IsLawful o) (x : NumberText) (tl : IsLawfulText x)
    → (fetched : FastEvent → ParsedEvent) (fetch : IsFetch x fetched)
    → (existing : OperatorState) (raw : List RawEvent) (zkapp : String)
    → (es : List FastEvent) (t : FastState) → Trace o (init o) es t
    → extract_parsed_events raw ≡ map fetched es
    → ArePlain x (extract_parsed_events raw)
    → let d = build_authoritative_state x existing raw zkapp in
      HasRoot o (build_markets_merkle_map x o d) t.markets_root
      × HasRoot o (build_receipts_merkle_map x o d) t.receipts_root
      × HasRoot o (build_claimed_receipts_merkle_map x o d) t.claimed_receipts_root
unfolding build_state_from_events merge_monotonic_state build_markets_merkle_map
    build_receipts_merkle_map build_claimed_receipts_merkle_map
authoritative_state_has_roots o l x tl fetched fetch existing raw zkapp es t trace same plain =
    let agree = build_authoritative_state-eq-sync x tl existing raw zkapp plain in
    let (markets, receipts, claimed, nonces) =
      replay_rebuilds o l x tl fetched fetch (some zkapp) existing es t trace in
    subst (HasRoots o x t) (sym agree) (
      subst
        (λ (es' : List ParsedEvent).
          HasRoots o x t
            (record (merge_monotonic_state existing
              (replay x es' (empty_state (some zkapp) existing))) {
                positions = existing.positions;
              }))
        (sym same) (markets, receipts, claimed))
