-- ===== src/Server/Reconcile/Visits.antt =====
-- One step of the loop over the claims of receipts (src/marketplace-server.ts, lines 3037 to 3070).
use perfect_weather_predicti.Prelude.{
  ℕ, ◌≡◌, ◌⊎◌, inl, inr, refl, subst, Bool, true, false, ◌&&◌, Option, none, some, String, str_eq,
  eq_iff, lookup, lookup-put, value, Bool-cases, Option-cases, arith,
}
use perfect_weather_predicti.StateStore.{StoredReceiptMeta, OperatorState, ClaimStatus}
use perfect_weather_predicti.Server.Receipts.{
  eq_claim_status, mark_receipt_claim_confirmed, reset_submitted_claim_for_retry,
}
use perfect_weather_predicti.Server.Reconcile.{
  Pass, hash_of, timed_out, is_included, status_for, expire_receipt, visit_receipt,
  visit_receipt_entry,
}
use perfect_weather_predicti.Server.Reconcile.Answers.{
  AreTrueAnswers, IsTrueCache, status_for-none, status_for-some,
}

module _ (Says : (hash status : String) → Type 0) (fetch : (key hash : String) → Option String)
    (now submitted_timeout_ms : ℕ) where
  -- The status cannot be had, or is another than "INCLUDED".
  abbrev pub IsNotIncluded : (key hash : String) → Type 0
  IsNotIncluded key hash =
      (fetch key hash ≡ none)
      ⊎ ((status : String) × Says hash status × (is_included status ≡ false))

  abbrev pub gives_up : StoredReceiptMeta → Bool
  gives_up m =
      eq_claim_status m.claim_status ClaimStatus.submitted
      && timed_out now submitted_timeout_ms m.claim_submitted_at_unix_ms

  -- What becomes of an entry `m` with a hash: `m'`.
  pub data ReceiptOutcome (at : ℕ) (key hash : String) (m m' : StoredReceiptMeta) : Type 0 where
    confirmed :
        Says hash "INCLUDED"
        → m' ≡ record m {
          claim_status = value ClaimStatus.confirmed;
          claim_confirmed_at_unix_ms = value at;
        }
        → ReceiptOutcome at key hash m m'
    reset :
        IsNotIncluded key hash
        → gives_up m ≡ true
        → m' ≡ (reset_submitted_claim_for_retry m).0
        → ReceiptOutcome at key hash m m'
    unchanged :
        IsNotIncluded key hash → gives_up m ≡ false → m' ≡ m → ReceiptOutcome at key hash m m'

module _ (Says : (hash status : String) → Type 0) (fetch : (key hash : String) → Option String)
    (now submitted_timeout_ms : ℕ) (answers : AreTrueAnswers Says fetch) where
  expire_receipt-outcome :
      (at : ℕ) (key hash : String) (m : StoredReceiptMeta) (p : Pass)
      → IsNotIncluded Says fetch now submitted_timeout_ms key hash
      → lookup key p.state.receipt_meta ≡ some m
      → (m' : StoredReceiptMeta) × (lookup key
            (expire_receipt fetch now submitted_timeout_ms key m p).state.receipt_meta
          ≡ some m')
        × ReceiptOutcome Says fetch now submitted_timeout_ms at key hash m m'
  unfolding expire_receipt
  expire_receipt-outcome at key hash m p out found =
      elim (Bool-cases (gives_up Says fetch now submitted_timeout_ms m)) [
        | inl expired ↦ (
          (reset_submitted_claim_for_retry m).0,
          ground (
            arith,
            expired,
            lookup-put key key (reset_submitted_claim_for_retry m).0 p.state.receipt_meta,
            eq_iff key key,
          ),
          reset out expired refl,
        )
        | inr waits ↦ (m, ground (arith, waits), unchanged out waits refl)
      ]

  abbrev pub Settled : (at : ℕ) (key hash : String) → StoredReceiptMeta → Pass → Type 0
  Settled at key hash m q =
      (m' : StoredReceiptMeta) × (lookup key q.state.receipt_meta ≡ some m')
      × ReceiptOutcome Says fetch now submitted_timeout_ms at key hash m m'

  pub visit_receipt-outcome :
      (at : ℕ) (key hash : String) (m : StoredReceiptMeta) (p : Pass)
      → IsTrueCache Says now p.cache
      → lookup key p.state.receipt_meta ≡ some m
      → Settled at key hash m (visit_receipt fetch now submitted_timeout_ms at key hash m p)
  unfolding visit_receipt mark_receipt_claim_confirmed
  visit_receipt-outcome at key hash m p truthful found =
      elim (Option-cases (status_for fetch now key hash p.cache)) [
        | inl unknown ↦
            rw (unknown, visit_receipt)
              (expire_receipt-outcome at key hash m p
                (inl (status_for-none Says fetch now answers key hash p.cache unknown)) found)
        | inr ((status, cache), known) ↦
            let (said, still) =
              status_for-some Says fetch now answers key hash p.cache (status, cache) truthful
                known in
            elim (Bool-cases (is_included status)) [
              | inl included ↦ (
                record m {
                  claim_status = value ClaimStatus.confirmed;
                  claim_confirmed_at_unix_ms = value at;
                },
                ground (
                  arith,
                  known,
                  included,
                  found,
                  eq_iff key key,
                  lookup-put key key
                      (record m {
                        claim_status = value ClaimStatus.confirmed;
                        claim_confirmed_at_unix_ms = value at;
                      })
                      p.state.receipt_meta,
                ),
                confirmed (subst (Says hash) ((eq_iff status "INCLUDED").0 included) said) refl,
              )
              | inr excluded ↦
                  rw (known, excluded, visit_receipt)
                    (expire_receipt-outcome at key hash m (record p { cache = cache })
                      (inr (status, said, excluded)) found)
            ]
      ]

  expire_receipt-cache :
      (key : String) (m : StoredReceiptMeta) (p : Pass)
      → (expire_receipt fetch now submitted_timeout_ms key m p).cache ≡ p.cache
  unfolding expire_receipt
  expire_receipt-cache key m p = ground arith

  expire_receipt-other :
      (key j : String) (m : StoredReceiptMeta) (p : Pass)
      → str_eq key j ≡ false
      → lookup j (expire_receipt fetch now submitted_timeout_ms key m p).state.receipt_meta
        ≡ lookup j p.state.receipt_meta
  unfolding expire_receipt
  expire_receipt-other key j m p other =
      ground (arith, lookup-put key j (reset_submitted_claim_for_retry m).0 p.state.receipt_meta)

  marked-other :
      (at : ℕ) (key j : String) (s : OperatorState)
      → str_eq key j ≡ false
      → lookup j (mark_receipt_claim_confirmed key at s).0.receipt_meta ≡ lookup j s.receipt_meta
  unfolding mark_receipt_claim_confirmed
  marked-other at key j s other = elim (Option-cases (lookup key s.receipt_meta)) [
    | inl absent ↦ ground arith
    | inr (m, found) ↦
        let confirmed_meta : StoredReceiptMeta = record m {
          claim_status = value ClaimStatus.confirmed;
          claim_confirmed_at_unix_ms = value at;
        } in
        ground (arith, lookup-put key j confirmed_meta s.receipt_meta)
  ]

  pub visit_receipt_entry-other :
      (at : ℕ) (key j : String) (m : StoredReceiptMeta) (p : Pass)
      → str_eq key j ≡ false
      → lookup j (visit_receipt_entry fetch now submitted_timeout_ms at key m p).state.receipt_meta
        ≡ lookup j p.state.receipt_meta
  unfolding visit_receipt
  visit_receipt_entry-other at key j m p other = elim (Option-cases (hash_of m.claim_tx_hash)) [
    | inl no_hash ↦ ground arith
    | inr (hash, has) ↦ elim (Option-cases (status_for fetch now key hash p.cache)) [
      | inl unknown ↦ ground (arith, expire_receipt-other key j m p other)
      | inr ((status, cache), known) ↦ ground (
        arith,
        expire_receipt-other key j m (record p { cache = cache }) other,
        marked-other at key j p.state other,
      )
    ]
  ]

  pub visit_receipt_entry-IsTrueCache :
      (at : ℕ) (key : String) (m : StoredReceiptMeta) (p : Pass)
      → IsTrueCache Says now p.cache
      → IsTrueCache Says now (visit_receipt_entry fetch now submitted_timeout_ms at key m p).cache
  unfolding visit_receipt
  visit_receipt_entry-IsTrueCache at key m p truthful =
      elim (Option-cases (hash_of m.claim_tx_hash)) [
        | inl no_hash ↦ subst (IsTrueCache Says now) (ground arith) truthful
        | inr (hash, has) ↦ elim (Option-cases (status_for fetch now key hash p.cache)) [
          | inl unknown ↦
              subst (IsTrueCache Says now) (ground (arith, expire_receipt-cache key m p)) truthful
          | inr ((status, cache), known) ↦
              let (said, still) =
                status_for-some Says fetch now answers key hash p.cache (status, cache) truthful
                  known in
              subst (IsTrueCache Says now)
                (ground (arith, expire_receipt-cache key m (record p { cache = cache }))) still
        ]
      ]
