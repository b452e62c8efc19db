-- ===== src/Replay/Sync/Decision.antt =====
-- When the state file is overwritten (src/sync-state-zeko.ts, lines 198 to 236).
use perfect_weather_predicti.Prelude.{
  ℕ, Option-cases, ◌≡◌, ◌≢◌, ◌⊎◌, inl, inr, refl, ap, ◌∙◌, Bool, true, false, none, some, List, [],
  ◌∷◌, map, String, eq_iff, Dict, lookup, put, lookup-put, arith,
}
use perfect_weather_predicti.O1js.{O1js, IsLawful, NumberText, IsLawfulText}
use perfect_weather_predicti.StateStore.{
  OperatorState, build_markets_merkle_map, build_receipts_merkle_map,
}
use perfect_weather_predicti.FastContract.{FastState, FastEvent, init}
use perfect_weather_predicti.Replay.{
  ParsedEvent, RawEvent, extract_parsed_events, replay, empty_state, get_local_markets_root,
  get_local_receipts_root,
}
use perfect_weather_predicti.Replay.Events.{IsFetch}
use perfect_weather_predicti.Replay.Recovery.{Trace, replay_rebuilds, HasRoot}
use perfect_weather_predicti.Replay.Sync.{
  spread, merge_monotonic_state, read, read_roots, decide, build_state_from_events, next_state,
  sync,
}

-- If both roots were read and the mismatch is not allowed, a state that is saved has those roots, and
-- a state that has other roots is not saved and the program fails.
pub saved_has_chain_roots :
    (x : NumberText) (o : O1js) (markets receipts : String) (next : OperatorState)
    → let r = sync x o false (read markets) (read receipts) next in
      ((r.saved ≡ some next)
        × (r.fails ≡ false)
        × (get_local_markets_root x o next ≡ some markets)
        × (get_local_receipts_root x o next ≡ some receipts))
      ⊎ ((r.saved ≡ none)
          × (r.fails ≡ true)
          × ((get_local_markets_root x o next ≢ some markets)
              ⊎ (get_local_receipts_root x o next ≢ some receipts)))
unfolding sync decide read_roots
saved_has_chain_roots x o markets receipts next =
    elim (Option-cases (get_local_markets_root x o next)) [
      | inl none_built ↦ ground arith
      | inr (m, built) ↦ elim (Option-cases (get_local_receipts_root x o next)) [
        | inl none_built ↦ ground arith
        | inr (r, built') ↦ ground (arith, eq_iff m markets, eq_iff r receipts)
      ]
    ]

module _ (x : NumberText) where
  next_state-markets :
      (zkapp : String) (raw : List RawEvent) (existing latest : OperatorState)
      → let next = next_state x zkapp raw existing latest in
        let replayed = replay x (extract_parsed_events raw) (empty_state (some zkapp) latest) in
        (next.markets ≡ replayed.markets) × (next.receipts ≡ replayed.receipts)
  unfolding next_state build_state_from_events merge_monotonic_state
  next_state-markets zkapp raw existing latest = (refl, refl)

module _ (x : NumberText) (o : O1js) where
  open o use {MerkleMap, get_root}

  local_markets_root :
      (s d : OperatorState) (root : ℕ)
      → s.markets ≡ d.markets
      → HasRoot o (build_markets_merkle_map x o d) root
      → get_local_markets_root x o s ≡ some (x.to_string root)
  unfolding get_local_markets_root build_markets_merkle_map
  local_markets_root s d root same (m, built, is_root) = ground (arith, same, built, is_root)

  local_receipts_root :
      (s d : OperatorState) (root : ℕ)
      → s.receipts ≡ d.receipts
      → HasRoot o (build_receipts_merkle_map x o d) root
      → get_local_receipts_root x o s ≡ some (x.to_string root)
  unfolding get_local_receipts_root build_receipts_merkle_map
  local_receipts_root s d root same (m, built, is_root) = ground (arith, same, built, is_root)

-- If the events that were fetched are those of a run of accepted calls of the fast contract from its
-- start on, and the two roots that were read are those which the contract has at its end, then the
-- program writes the state that it built, whether or not a mismatch is allowed, and does not fail.
pub sync_accepts_contract :
    (o : O1js) (l : IsLawful o) (x : NumberText) (tl : IsLawfulText x)
    → (fetched : FastEvent → ParsedEvent) (fetch : IsFetch x fetched)
    → (allow : Bool) (zkapp : String) (existing latest : OperatorState)
    → (es : List FastEvent) (t : FastState) (raw : List RawEvent) → Trace o (init o) es t
    → extract_parsed_events raw ≡ map fetched es
    → let next = next_state x zkapp raw existing latest in
      sync x o allow (read (x.to_string t.markets_root)) (read (x.to_string t.receipts_root)) next
      ≡ record { saved = some next; fails = false }
unfolding sync decide read_roots
sync_accepts_contract o l x tl fetched fetch allow zkapp existing latest es t raw trace same =
    let next = next_state x zkapp raw existing latest in
    let d = replay x (map fetched es) (empty_state (some zkapp) latest) in
    let (markets, receipts) = next_state-markets x zkapp raw existing latest in
    let (has_markets, has_receipts, claimed, nonces) =
      replay_rebuilds o l x tl fetched fetch (some zkapp) latest es t trace in
    let to_run = λ (es' : List ParsedEvent). replay x es' (empty_state (some zkapp) latest) in
    ground (
      arith,
      local_markets_root x o next d t.markets_root (markets ∙ ap (λ q. (to_run q).markets) same)
          has_markets,
      local_receipts_root x o next d t.receipts_root (receipts ∙ ap (λ q. (to_run q).receipts) same)
          has_receipts,
      eq_iff (x.to_string t.markets_root) (x.to_string t.markets_root),
      eq_iff (x.to_string t.receipts_root) (x.to_string t.receipts_root),
    )

module _ {V : Type 0} where
  spread_keeps :
      (key : String) (a b : Dict V) → lookup key a ≢ none → lookup key (spread a b) ≢ none
  unfolding spread
  spread_keeps key a [] there = there
  spread_keeps key a ((k, v) ∷ b) there =
      spread_keeps key (put k v a) b (ground (arith, lookup-put k key v a))

-- A nonce that the file held before is held by the state that is built from any events.
pub used_nonce_stays :
    (x : NumberText) (zkapp : String) (raw : List RawEvent) (existing : OperatorState)
    → (nonce : String) → lookup nonce existing.used_nonces ≢ none
    → lookup nonce (build_state_from_events x zkapp raw existing).used_nonces ≢ none
unfolding build_state_from_events merge_monotonic_state
used_nonce_stays x zkapp raw existing nonce there = spread_keeps nonce existing.used_nonces _ there
