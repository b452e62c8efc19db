-- ===== src/Server/Receipts.antt =====
-- src/marketplace-server.ts, lines 2598 to 2625 and 2831 to 2944: the status of receipts and
-- positions in the operator's state, as events and transactions bring it about. A loop over the
-- entries of an object changes each entry by itself. The clock is read once in a call.
mod Settling
mod Confirming
mod Tests
use perfect_weather_predicti.Prelude.{
  ℕ, Bool, true, false, not, ◌&&◌, ◌||◌, Option, none, some, List, [], ◌∷◌, String, str_eq, Dict,
  lookup, put, Nullish, undefined, null, value, is_null, if◌then◌else◌, ◌>>=◌, eq_bool,
}
use perfect_weather_predicti.O1js.{NumberText}
use perfect_weather_predicti.MarketTypes.{MarketLeaf}
use perfect_weather_predicti.Contract.{PositionLeaf}
use perfect_weather_predicti.StateStore.{
  StoredMarketLeaf, StoredReceiptMeta, StoredPositionMeta, OperatorState, ClaimStatus,
  SubmissionStatus, Side, over, under, deserialize_market_leaf, deserialize_position_leaf,
  serialize_position_leaf,
}

-- A changed value, and whether it was changed.
abbrev pub Dirty : Type 0 → Type 0
Dirty A = A × Bool

abbrev pub is_confirmed : Nullish SubmissionStatus → Bool
is_confirmed (value SubmissionStatus.confirmed) = true
is_confirmed (value SubmissionStatus.submitted) = false
is_confirmed null = false
is_confirmed undefined = false

-- `Number.isFinite(x)`
abbrev is_finite : Nullish ℕ → Bool
is_finite (value n) = true
is_finite null = false
is_finite undefined = false

-- `Boolean(receipts[key])`
abbrev pub is_present : Option String → Bool
is_present none = false
is_present (some text) = not (str_eq text "")

-- `getReceiptFundingStatus`
unfoldable pub get_receipt_funding_status : Nullish SubmissionStatus → SubmissionStatus
get_receipt_funding_status (value SubmissionStatus.submitted) = SubmissionStatus.submitted
get_receipt_funding_status (value SubmissionStatus.confirmed) = SubmissionStatus.confirmed
get_receipt_funding_status null = SubmissionStatus.confirmed
get_receipt_funding_status undefined = SubmissionStatus.confirmed

-- The body of the loop in `reconcileReceiptFundingStatuses`.
unfoldable pub reconcile_funding :
    (now : ℕ) (on_chain_receipt_exists : Bool) → StoredReceiptMeta → Dirty StoredReceiptMeta
reconcile_funding now true m = (
  record m {
    funding_status = value SubmissionStatus.confirmed;
    funding_confirmed_at_unix_ms =
        if is_finite m.funding_confirmed_at_unix_ms
        then m.funding_confirmed_at_unix_ms
        else value now;
  },
  not (is_confirmed m.funding_status) || not (is_finite m.funding_confirmed_at_unix_ms),
)
reconcile_funding now false m =
    if is_confirmed m.funding_status
    then (
      record m {
        funding_status = value SubmissionStatus.submitted;
        funding_confirmed_at_unix_ms = null;
      },
      true,
    )
    else (m, false)

-- `for (const [key, v] of Object.entries(d)) …`, where the body changes `v`.
unfoldable pub each_entry : {V : Type 0} → (String → V → Dirty V) → Dict V → Dirty (Dict V)
each_entry body [] = ([], false)
each_entry body ((key, v) ∷ d) =
    let changed = body key v in
    let rest = each_entry body d in ((key, changed.0) ∷ rest.0, changed.1 || rest.1)

unfoldable pub reconcile_receipt_funding_statuses : (now : ℕ) → OperatorState → Dirty OperatorState
unfolding reconcile_funding each_entry
reconcile_receipt_funding_statuses now s =
    let metas =
      each_entry (λ key m. reconcile_funding now (is_present (lookup key s.receipts)) m)
        s.receipt_meta in
    (record s { receipt_meta = metas.0 }, metas.1)

abbrev pub eq_claim_status : Nullish ClaimStatus → ClaimStatus → Bool
eq_claim_status (value ClaimStatus.claimable) ClaimStatus.claimable = true
eq_claim_status (value ClaimStatus.submitted) ClaimStatus.submitted = true
eq_claim_status (value ClaimStatus.confirmed) ClaimStatus.confirmed = true
eq_claim_status (value ClaimStatus.not_applicable) ClaimStatus.not_applicable = true
eq_claim_status _ _ = false

-- `if (meta.claimStatus !== status) { meta.claimStatus = status; dirty = true; }`
abbrev pub set_claim_status : ClaimStatus → StoredReceiptMeta → Dirty StoredReceiptMeta
set_claim_status status m =
    if eq_claim_status m.claim_status status
    then (m, false)
    else (record m { claim_status = value status }, true)

-- `meta.side === (outcome ? 'over' : 'under')`
abbrev pub has_won : Side → (outcome : Bool) → Bool
has_won over outcome = outcome
has_won under outcome = not outcome

abbrev pub is_claimed : Option String → Bool
is_claimed none = false
is_claimed (some text) = str_eq text "1"

-- The body of the loop in `finalizeReceiptClaimStatuses`, with the leaf of the receipt's market if
-- there is one.
unfoldable pub finalize_claim :
    (claimed : Bool) → Option MarketLeaf → StoredReceiptMeta → Dirty StoredReceiptMeta
finalize_claim true market m = set_claim_status ClaimStatus.confirmed m
finalize_claim false none m = (m, false)
finalize_claim false (some leaf) m =
    if not leaf.resolved
    then (m, false)
    else if eq_claim_status m.claim_status ClaimStatus.confirmed
        || eq_claim_status m.claim_status ClaimStatus.submitted
    then (m, false)
    else if has_won m.side leaf.outcome
    then set_claim_status ClaimStatus.claimable m
    else set_claim_status ClaimStatus.not_applicable m

module _ (x : NumberText) where
  -- The leaf of a receipt's market: none if there is no such market; a leaf that cannot be read
  -- throws.
  unfoldable pub market_of : OperatorState → String → Option (Option MarketLeaf)
  market_of s key = elim (lookup key s.markets) [
    | none ↦ some none
    | some stored ↦ do leaf ← deserialize_market_leaf x stored; some (some leaf)
  ]

  abbrev pub finalize_entry :
      OperatorState → String → StoredReceiptMeta → Option (Dirty StoredReceiptMeta)
  finalize_entry s key m =
      if is_claimed (lookup key s.claimed_receipts)
      then some (finalize_claim true none m)
      else do market ← market_of s m.market_key; some (finalize_claim false market m)

  unfoldable pub finalize_entries :
      OperatorState → Dict StoredReceiptMeta → Option (Dirty (Dict StoredReceiptMeta))
  unfolding market_of
  finalize_entries s [] = some ([], false)
  finalize_entries s ((key, m) ∷ d) =
      let rest = finalize_entries s d in
      do
        changed ← finalize_entry s key m
        others ← rest
        some ((key, changed.0) ∷ others.0, changed.1 || others.1)

  -- `finalizeReceiptClaimStatuses`
  unfoldable pub finalize_receipt_claim_statuses : OperatorState → Option (Dirty OperatorState)
  unfolding finalize_entries
  finalize_receipt_claim_statuses s = do
    metas ← finalize_entries s s.receipt_meta
    some (record s { receipt_meta = metas.0 }, metas.1)

  abbrev pub as_claimed : PositionLeaf → PositionLeaf
  as_claimed leaf = record leaf { claimed = true }

  abbrev pub confirmed_position_meta : ℕ → StoredPositionMeta → StoredPositionMeta
  confirmed_position_meta at m = record m {
    claim_status = value ClaimStatus.confirmed;
    claim_confirmed_at_unix_ms = value at;
  }

  abbrev pub confirm_meta_of : String → ℕ → OperatorState → OperatorState
  confirm_meta_of key at s = elim (lookup key s.position_meta) [
    | none ↦ s
    | some m ↦ record s { position_meta = put key (confirmed_position_meta at m) s.position_meta }
  ]

  -- `markPositionClaimConfirmed`
  unfoldable pub mark_position_claim_confirmed :
      String → ℕ → OperatorState → Option (OperatorState × Bool)
  mark_position_claim_confirmed key at s = elim (lookup key s.positions) [
    | none ↦ some (s, false)
    | some stored ↦ do
      leaf ← deserialize_position_leaf x stored
      some (
        confirm_meta_of key at (
            if leaf.claimed then s else record s {
              positions = put key (serialize_position_leaf x (as_claimed leaf)) s.positions;
            }),
        true,
      )
  ]

-- `markReceiptClaimConfirmed`
unfoldable pub mark_receipt_claim_confirmed : String → ℕ → OperatorState → OperatorState × Bool
mark_receipt_claim_confirmed key at s = elim (lookup key s.receipt_meta) [
  | none ↦ (s, false)
  | some m ↦ (
    record s {
      receipt_meta =
          put key
            (record m {
              claim_status = value ClaimStatus.confirmed;
              claim_confirmed_at_unix_ms = value at;
            })
            s.receipt_meta;
      claimed_receipts = put key "1" s.claimed_receipts;
    },
    true,
  )
]

-- `resetSubmittedClaimForRetry`, of a receipt's entry.
unfoldable pub reset_submitted_claim_for_retry : StoredReceiptMeta → Dirty StoredReceiptMeta
reset_submitted_claim_for_retry m = (
  record m {
    claim_status = value ClaimStatus.claimable;
    claim_tx_hash = null;
    claim_submitted_at_unix_ms = null;
    claim_confirmed_at_unix_ms = null;
  },
  not (eq_claim_status m.claim_status ClaimStatus.claimable)
      || not (is_null m.claim_tx_hash)
      || not (is_null m.claim_submitted_at_unix_ms)
      || not (is_null m.claim_confirmed_at_unix_ms),
)

abbrev pub side_of : Bool → Side
side_of outcome = if outcome then over else under

-- `getEffectiveResolvedMarketState`: the resolved outcome, and `resolved` is that there is one.
unfoldable pub get_effective_resolved_market_state :
    Option MarketLeaf → String → (derived_resolved_outcomes : String → Option Side) → Option Side
get_effective_resolved_market_state none key derived = derived key
get_effective_resolved_market_state (some leaf) key derived =
    if leaf.resolved then some (side_of leaf.outcome) else derived key
