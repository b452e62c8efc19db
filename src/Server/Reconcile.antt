-- ===== src/Server/Reconcile.antt =====
-- src/marketplace-server.ts, lines 332 to 339 and 2988 to 3074: the claims that are on their way are
-- compared with the network. `fetchTransactionStatus` is a parameter: its answer for an entry's key
-- and its transaction, or none where it throws. The keys of an object are distinct, so an
-- entry that the loop holds is the one under its key.
mod Entries
mod Answers
mod Visits
pub mod Outcomes
mod Tests
use perfect_weather_predicti.Prelude.{
  ℕ, ◌+◌, ◌*◌, Bool, true, false, not, ◌&&◌, ◌||◌, Option, none, some, List, [], ◌∷◌, String,
  str_eq, Dict, lookup, put, Nullish, undefined, null, value, is_null, if◌then◌else◌, ltb, leb,
  ◌>>=◌,
}
use perfect_weather_predicti.O1js.{NumberText}
use perfect_weather_predicti.StateStore.{
  StoredReceiptMeta, StoredPositionMeta, OperatorState, ClaimStatus, Side,
}
use perfect_weather_predicti.Server.Receipts.{
  Dirty, eq_claim_status, finalize_receipt_claim_statuses, reconcile_receipt_funding_statuses,
  mark_position_claim_confirmed, mark_receipt_claim_confirmed, reset_submitted_claim_for_retry,
}

-- `getHostedClaimSubmitTimeoutMs`, with what parsing CLAIM_SUBMITTED_TIMEOUT_MS gives.
unfoldable pub get_hosted_claim_submit_timeout_ms : Option ℕ → ℕ
get_hosted_claim_submit_timeout_ms none = 10 * 60 * 1000
get_hosted_claim_submit_timeout_ms (some parsed) = if ltb 0 parsed then parsed else 10 * 60 * 1000

-- `CLAIM_STATUS_CACHE_TTL_MS`
abbrev pub claim_status_cache_ttl_ms : ℕ
claim_status_cache_ttl_ms = 30_000

pub record CachedStatus : Type 0 where
  pub status : String
  pub fetched_at_unix_ms : ℕ

-- What the loops change; `derived` is `derivedResolvedOutcomes`.
pub record Pass : Type 0 where
  pub state : OperatorState
  pub cache : Dict CachedStatus
  pub derived : Dict Side
  pub dirty : Bool

-- `Boolean(meta.claimTxHash)`, with the hash.
abbrev pub hash_of : Nullish String → Option String
hash_of (value hash) = if str_eq hash "" then none else some hash
hash_of null = none
hash_of undefined = none

-- `resetSubmittedClaimForRetry`, of a position's entry.
unfoldable pub reset_submitted_position_for_retry : StoredPositionMeta → Dirty StoredPositionMeta
reset_submitted_position_for_retry m = (
  record m {
    claim_status = value ClaimStatus.claimable;
    claim_tx_hash = null;
    claim_submitted_at_unix_ms = null;
    claim_confirmed_at_unix_ms = null;
  },
  not (eq_claim_status m.claim_status ClaimStatus.claimable)
      || not (is_null m.claim_tx_hash)
      || not (is_null m.claim_submitted_at_unix_ms)
      || not (is_null m.claim_confirmed_at_unix_ms),
)

-- `Number.isFinite(submittedAt) && now - submittedAt >= submittedTimeoutMs`
abbrev pub timed_out : (now submitted_timeout_ms : ℕ) → Nullish ℕ → Bool
timed_out now timeout (value submitted_at) = leb (submitted_at + timeout) now
timed_out now timeout null = false
timed_out now timeout undefined = false

-- `now - cached.fetchedAtUnixMs < CLAIM_STATUS_CACHE_TTL_MS`
abbrev pub is_fresh : ℕ → CachedStatus → Bool
is_fresh now c = ltb now (c.fetched_at_unix_ms + claim_status_cache_ttl_ms)

abbrev pub is_included : String → Bool
is_included status = str_eq status "INCLUDED"

-- The entries that pass a test.
unfoldable pub filter_entries : {V : Type 0} → (V → Bool) → Dict V → Dict V
filter_entries test [] = []
filter_entries test ((key, v) ∷ d) =
    let rest = filter_entries test d in if test v then (key, v) ∷ rest else rest

abbrev pub has_hash : Option String → Bool
has_hash none = false
has_hash (some hash) = true

-- The filters of `pendingClaims` and `pendingReceiptClaims`.
abbrev pub is_pending_position : StoredPositionMeta → Bool
is_pending_position m =
    eq_claim_status m.claim_status ClaimStatus.submitted && has_hash (hash_of m.claim_tx_hash)

abbrev pub is_pending_receipt : StoredReceiptMeta → Bool
is_pending_receipt m = has_hash (hash_of m.claim_tx_hash)

module _ (fetch : (key hash : String) → Option String) (now : ℕ) where
  unfoldable pub fetch_status :
      (key hash : String) → Dict CachedStatus → Option (String × Dict CachedStatus)
  fetch_status key hash cache = do
    status ← fetch key hash
    some (status, put hash (record { status = status; fetched_at_unix_ms = now }) cache)

  -- The status of a transaction, from the cache where it is fresh, and the cache after that.
  unfoldable pub status_for :
      (key hash : String) → Dict CachedStatus → Option (String × Dict CachedStatus)
  unfolding fetch_status
  status_for key hash cache = elim (lookup hash cache) [
    | none ↦ fetch_status key hash cache
    | some c ↦ if is_fresh now c then some (c.status, cache) else fetch_status key hash cache
  ]

module _ (fetch : (key hash : String) → Option String) (now submitted_timeout_ms : ℕ) where
  -- A claim that is not included, or whose status cannot be had.
  unfoldable pub expire_position : String → StoredPositionMeta → Pass → Pass
  unfolding reset_submitted_position_for_retry
  expire_position key m p =
      if timed_out now submitted_timeout_ms m.claim_submitted_at_unix_ms
      then (let reset = reset_submitted_position_for_retry m in
          record p {
            state = record p.state { position_meta = put key reset.0 p.state.position_meta };
            dirty = reset.1 || p.dirty;
          })
      else p

  unfoldable pub expire_receipt : String → StoredReceiptMeta → Pass → Pass
  expire_receipt key m p =
      if eq_claim_status m.claim_status ClaimStatus.submitted
        && timed_out now submitted_timeout_ms m.claim_submitted_at_unix_ms
      then (let reset = reset_submitted_claim_for_retry m in
          record p {
            state = record p.state { receipt_meta = put key reset.0 p.state.receipt_meta };
            dirty = reset.1 || p.dirty;
          })
      else p

  -- The body of the second loop, for an entry with a hash; `at` is the clock as it confirms.
  unfoldable pub visit_receipt : (at : ℕ) (key hash : String) → StoredReceiptMeta → Pass → Pass
  unfolding status_for
  visit_receipt at key hash m p = elim (status_for fetch now key hash p.cache) [
    | none ↦ expire_receipt key m p
    | some (status, cache) ↦
        if is_included status
        then (let marked = mark_receipt_claim_confirmed key at p.state in
            record {
              state = marked.0;
              cache = cache;
              derived = put m.market_key m.side p.derived;
              dirty = marked.1 || p.dirty;
            })
        else expire_receipt key m (record p { cache = cache })
  ]

  -- `if (!meta?.claimTxHash) continue;`
  abbrev pub visit_receipt_entry : ℕ → String → StoredReceiptMeta → Pass → Pass
  visit_receipt_entry at key m p = elim (hash_of m.claim_tx_hash) [
    | none ↦ p
    | some hash ↦ visit_receipt at key hash m p
  ]

  unfoldable pub visit_receipts : (at : ℕ) → Dict StoredReceiptMeta → Pass → Pass
  visit_receipts at [] p = p
  visit_receipts at ((key, m) ∷ d) p = visit_receipts at d (visit_receipt_entry at key m p)

  module _ (x : NumberText) where
    -- The body of the first loop. A position that cannot be read throws, and is caught.
    unfoldable pub visit_position : (at : ℕ) (key hash : String) → StoredPositionMeta → Pass → Pass
    unfolding status_for
    visit_position at key hash m p = elim (status_for fetch now key hash p.cache) [
      | none ↦ expire_position key m p
      | some (status, cache) ↦
          let p' = record p { cache = cache } in
          if is_included status
          then (elim (mark_position_claim_confirmed x key at p.state) [
            | none ↦ expire_position key m p'
            | some (s, marked) ↦ record p' { state = s; dirty = marked || p.dirty }
          ])
          else expire_position key m p'
    ]

    abbrev pub visit_position_entry : ℕ → String → StoredPositionMeta → Pass → Pass
    visit_position_entry at key m p = elim (hash_of m.claim_tx_hash) [
      | none ↦ p
      | some hash ↦ visit_position at key hash m p
    ]

    unfoldable pub visit_positions : (at : ℕ) → Dict StoredPositionMeta → Pass → Pass
    visit_positions at [] p = p
    visit_positions at ((key, m) ∷ d) p = visit_positions at d (visit_position_entry at key m p)

    -- Both loops, from the collection of the claims on.
    unfoldable pub check_claims : (at : ℕ) → OperatorState → Dict CachedStatus → Bool → Pass
    check_claims at s cache dirty =
        visit_receipts at (filter_entries is_pending_receipt s.receipt_meta) (
          visit_positions at (filter_entries is_pending_position s.position_meta)
            (record { state = s; cache = cache; derived = []; dirty = dirty }))

    -- `reconcileSubmittedPayoutClaims`; a market that cannot be read throws. The state is saved if
    -- the pass is dirty.
    unfoldable pub reconcile_submitted_payout_claims :
        (at : ℕ) → OperatorState → Dict CachedStatus → Option Pass
    unfolding check_claims
    reconcile_submitted_payout_claims at s cache = do
      finalized ← finalize_receipt_claim_statuses x s
      let funded = reconcile_receipt_funding_statuses now finalized.0
      some (check_claims at funded.0 cache (funded.1 || finalized.1))
