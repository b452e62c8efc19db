-- ===== src/Server/Receipts/Confirming.antt =====
-- Claims that a transaction has confirmed (src/marketplace-server.ts, lines 2830 to 2890).
use perfect_weather_predicti.Prelude.{
  ℕ, ◌<◌, ◌≡◌, ap, ◌∙◌, true, some, some-injective, String, eq_iff, lookup, put, lookup-put,
  if◌then◌else◌, value, arith, ◌>>=◌, >>=-eq-some,
}
use perfect_weather_predicti.O1js.{NumberText, IsLawfulText, uint64_mod}
use perfect_weather_predicti.Contract.{PositionLeaf}
use perfect_weather_predicti.StateStore.{
  StoredReceiptMeta, StoredPositionLeaf, OperatorState, ClaimStatus, deserialize_position_leaf,
  serialize_position_leaf,
}
use perfect_weather_predicti.StateStore.Roundtrip.{deserialize_position_leaf-serialize}
use perfect_weather_predicti.Server.Receipts.{
  Dirty, is_claimed, finalize_claim, finalize_entries, finalize_receipt_claim_statuses,
  mark_receipt_claim_confirmed, mark_position_claim_confirmed, as_claimed, confirm_meta_of,
}
use perfect_weather_predicti.Server.Receipts.Settling.{entry_is_final}

marked_is_claimed :
    (key : String) (at : ℕ) (s : OperatorState)
    → (mark_receipt_claim_confirmed key at s).1 ≡ true
    → is_claimed (lookup key (mark_receipt_claim_confirmed key at s).0.claimed_receipts) ≡ true
unfolding mark_receipt_claim_confirmed
marked_is_claimed key at s marked =
    ground (arith, lookup-put key key "1" s.claimed_receipts, eq_iff key key, eq_iff "1" "1")

-- A receipt whose claim was marked as confirmed stays confirmed when the statuses are finalized.
pub confirmed_receipt_stays :
    (x : NumberText) (key : String) (at : ℕ) (s : OperatorState) (r : Dirty OperatorState)
    → (m : StoredReceiptMeta) → (mark_receipt_claim_confirmed key at s).1 ≡ true
    → finalize_receipt_claim_statuses x (mark_receipt_claim_confirmed key at s).0 ≡ some r
    → lookup key r.0.receipt_meta ≡ some m
    → m.claim_status ≡ value ClaimStatus.confirmed
unfolding finalize_receipt_claim_statuses finalize_claim
confirmed_receipt_stays x key at s r m marked done found =
    let s' = (mark_receipt_claim_confirmed key at s).0 in
    let (metas, entries, last) = >>=-eq-some (finalize_entries x s' s'.receipt_meta) _ done in
    let found' =
      ap (λ (q : Dirty OperatorState). lookup key q.0.receipt_meta) (some-injective _ _ last)
      ∙ found in
    ground (
      arith,
      marked_is_claimed key at s marked,
      entry_is_final x s' s'.receipt_meta entries key m found',
    )

confirm_meta-positions :
    (x : NumberText) (key : String) (at : ℕ) (s : OperatorState)
    → (confirm_meta_of x key at s).positions ≡ s.positions
confirm_meta-positions x key at s = ground arith

-- The state with the position claimed.
abbrev claimed_at : NumberText → String → PositionLeaf → OperatorState → OperatorState
claimed_at x key leaf s = if leaf.claimed then s else record s {
  positions = put key (serialize_position_leaf x (as_claimed x leaf)) s.positions;
}

read_claimed :
    (x : NumberText) (lawful : IsLawfulText x) (key : String) (s : OperatorState)
    → (stored : StoredPositionLeaf) (leaf : PositionLeaf) → lookup key s.positions ≡ some stored
    → deserialize_position_leaf x stored ≡ some leaf
    → leaf.stake < uint64_mod
    → (lookup key (claimed_at x key leaf s).positions >>= deserialize_position_leaf x)
      ≡ some (record leaf { claimed = true })
read_claimed x lawful key s stored leaf found read ranged =
    let written = serialize_position_leaf x (as_claimed x leaf) in
    ground (
      arith,
      eq_iff key key,
      lookup-put key key written s.positions,
      deserialize_position_leaf-serialize x lawful (as_claimed x leaf) ranged,
    )

-- Marking the claim of a position that can be read succeeds, and what is then read under its key is
-- the same position, claimed.
pub marked_position_is_claimed :
    (x : NumberText) (lawful : IsLawfulText x) (key : String) (at : ℕ) (s : OperatorState)
    → (stored : StoredPositionLeaf) (leaf : PositionLeaf) → lookup key s.positions ≡ some stored
    → deserialize_position_leaf x stored ≡ some leaf
    → leaf.stake < uint64_mod
    → (s' : OperatorState) × (mark_position_claim_confirmed x key at s ≡ some (s', true))
      × ((lookup key s'.positions >>= deserialize_position_leaf x)
          ≡ some (record leaf { claimed = true }))
unfolding mark_position_claim_confirmed
marked_position_is_claimed x lawful key at s stored leaf found read ranged =
    let s' = confirm_meta_of x key at (claimed_at x key leaf s) in
    (
      s',
      ground (arith, found, read),
      ap (λ d. lookup key d >>= deserialize_position_leaf x)
            (confirm_meta-positions x key at (claimed_at x key leaf s))
          ∙ read_claimed x lawful key s stored leaf found read ranged,
    )
