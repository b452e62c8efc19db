-- ===== src/Server/Reconcile/Outcomes.antt =====
-- What a pass over the claims does to the entry of a receipt (src/marketplace-server.ts, lines 2988 to
-- 3074).
use perfect_weather_predicti.Prelude.{
  ℕ, ◌≡◌, inl, inr, refl, ap, ◌∙◌, sym, subst, subst₂, Bool, Option, none, some, [], ◌∷◌, String,
  str_eq, eq_iff, Dict, IsUnique, lookup, Bool-cases, Option-cases, arith,
}
use perfect_weather_predicti.O1js.{NumberText}
use perfect_weather_predicti.StateStore.{StoredReceiptMeta, StoredPositionMeta, OperatorState}
use perfect_weather_predicti.Server.Receipts.{mark_position_claim_confirmed}
use perfect_weather_predicti.Server.Reconcile.{
  CachedStatus, Pass, hash_of, filter_entries, is_pending_position, is_pending_receipt, status_for,
  expire_position, visit_receipt_entry, visit_receipts, visit_position, visit_position_entry,
  visit_positions, check_claims,
}
use perfect_weather_predicti.Server.Reconcile.Answers.{AreTrueAnswers, IsTrueCache, status_for-some}
use perfect_weather_predicti.Server.Reconcile.Entries.{filter_entries-IsUnique, filter_entries-some}
use perfect_weather_predicti.Server.Reconcile.Visits.{
  ReceiptOutcome, Settled, visit_receipt-outcome, visit_receipt_entry-other,
  visit_receipt_entry-IsTrueCache,
}

module _ (Says : (hash status : String) → Type 0) (fetch : (key hash : String) → Option String)
    (now submitted_timeout_ms : ℕ) (answers : AreTrueAnswers Says fetch) where
  visit_receipts-other :
      (at : ℕ) (j : String) (d : Dict StoredReceiptMeta) (p : Pass)
      → lookup j d ≡ none
      → lookup j (visit_receipts fetch now submitted_timeout_ms at d p).state.receipt_meta
        ≡ lookup j p.state.receipt_meta
  unfolding visit_receipts lookup
  visit_receipts-other at j [] p absent = refl
  visit_receipts-other at j ((key, m) ∷ d) p absent =
      let q = visit_receipt_entry fetch now submitted_timeout_ms at key m p in
      ground (
        arith,
        visit_receipts-other at j d q,
        visit_receipt_entry-other Says fetch now submitted_timeout_ms answers at key j m p,
      )

  first_outcome :
      (at : ℕ) (key hash : String) (m : StoredReceiptMeta) (d : Dict StoredReceiptMeta) (p : Pass)
      → IsTrueCache Says now p.cache
      → lookup key d ≡ none
      → hash_of m.claim_tx_hash ≡ some hash
      → lookup key p.state.receipt_meta ≡ some m
      → Settled Says fetch now submitted_timeout_ms answers at key hash m (
          visit_receipts fetch now submitted_timeout_ms at d
            (visit_receipt_entry fetch now submitted_timeout_ms at key m p))
  first_outcome at key hash m d p truthful fresh has found =
      let (m', now_found, outcome) =
        visit_receipt-outcome Says fetch now submitted_timeout_ms answers at key hash m p truthful
          found in
      let q = visit_receipt_entry fetch now submitted_timeout_ms at key m p in
      (m', visit_receipts-other at key d q fresh ∙ ground (arith, now_found), outcome)

  visit_receipts-outcome :
      (at : ℕ) (key hash : String) (m : StoredReceiptMeta) (d : Dict StoredReceiptMeta) (p : Pass)
      → IsTrueCache Says now p.cache
      → IsUnique d
      → lookup key d ≡ some m
      → hash_of m.claim_tx_hash ≡ some hash
      → lookup key p.state.receipt_meta ≡ some m
      → Settled Says fetch now submitted_timeout_ms answers at key hash m
          (visit_receipts fetch now submitted_timeout_ms at d p)
  unfolding visit_receipts lookup
  visit_receipts-outcome at key hash m [] p truthful unique listed has found = cc
  visit_receipts-outcome at key hash m ((k, n) ∷ d) p truthful (fresh, unique) listed has found =
      let q = visit_receipt_entry fetch now submitted_timeout_ms at k n p in
      elim (Bool-cases (str_eq k key)) [
        | inl here ↦
            let same_key = (eq_iff k key).0 here in
            let same : n ≡ m = ground arith in
            subst₂
              (λ k' (n' : StoredReceiptMeta).
                Settled Says fetch now submitted_timeout_ms answers at key hash m (
                  visit_receipts fetch now submitted_timeout_ms at d
                    (visit_receipt_entry fetch now submitted_timeout_ms at k' n' p)))
              (sym same_key) (sym same)
              (first_outcome at key hash m d p truthful (ground arith) has found)
        | inr later ↦
            visit_receipts-outcome at key hash m d q
              (visit_receipt_entry-IsTrueCache Says fetch now submitted_timeout_ms answers at k n p
                truthful)
              unique (ground arith) has
              (visit_receipt_entry-other Says fetch now submitted_timeout_ms answers at k key n p
                  later
                ∙ found)
      ]

  -- The first loop leaves the receipts' entries and keeps the cache true.
  expire_position-keeps :
      (key : String) (m : StoredPositionMeta) (p : Pass)
      → let q = expire_position fetch now submitted_timeout_ms key m p in
        (q.state.receipt_meta ≡ p.state.receipt_meta) × (q.cache ≡ p.cache)
  unfolding expire_position
  expire_position-keeps key m p = ground arith

  marked_position-keeps :
      (x : NumberText) (at : ℕ) (key : String) (s s' : OperatorState) (marked : Bool)
      → mark_position_claim_confirmed x key at s ≡ some (s', marked)
      → s'.receipt_meta ≡ s.receipt_meta
  unfolding mark_position_claim_confirmed
  marked_position-keeps x at key s s' marked h = ground arith

  visit_position_entry-keeps :
      (x : NumberText) (at : ℕ) (key : String) (m : StoredPositionMeta) (p : Pass)
      → IsTrueCache Says now p.cache
      → let q = visit_position_entry fetch now submitted_timeout_ms x at key m p in
        (q.state.receipt_meta ≡ p.state.receipt_meta) × IsTrueCache Says now q.cache
  unfolding visit_position
  visit_position_entry-keeps x at key m p truthful = elim (Option-cases (hash_of m.claim_tx_hash)) [
    | inl no_hash ↦ (ground arith, subst (IsTrueCache Says now) (ground arith) truthful)
    | inr (hash, has) ↦ elim (Option-cases (status_for fetch now key hash p.cache)) [
      | inl unknown ↦ (
        ground (arith, expire_position-keeps key m p),
        subst (IsTrueCache Says now) (ground (arith, expire_position-keeps key m p)) truthful,
      )
      | inr ((status, cache), known) ↦
          let (said, still) =
            status_for-some Says fetch now answers key hash p.cache (status, cache) truthful
              known in
          let kept = expire_position-keeps key m (record p { cache = cache }) in
          elim (Option-cases (mark_position_claim_confirmed x key at p.state)) [
            | inl unreadable ↦
                (ground (arith, kept), subst (IsTrueCache Says now) (ground (arith, kept)) still)
            | inr ((s', marked), done) ↦ (
              ground (arith, kept, marked_position-keeps x at key p.state s' marked done),
              subst (IsTrueCache Says now) (ground (arith, kept)) still,
            )
          ]
    ]
  ]

  pub visit_positions-keeps :
      (x : NumberText) (at : ℕ) (d : Dict StoredPositionMeta) (p : Pass)
      → IsTrueCache Says now p.cache
      → let q = visit_positions fetch now submitted_timeout_ms x at d p in
        (q.state.receipt_meta ≡ p.state.receipt_meta) × IsTrueCache Says now q.cache
  unfolding visit_positions
  visit_positions-keeps x at [] p truthful = (refl, truthful)
  visit_positions-keeps x at ((key, m) ∷ d) p truthful =
      let (same, still) = visit_position_entry-keeps x at key m p truthful in
      let q = visit_position_entry fetch now submitted_timeout_ms x at key m p in
      let (same', still') = visit_positions-keeps x at d q still in (same' ∙ same, still')

  -- Every receipt whose entry has the hash of a claim is settled by a pass over the claims: it is
  -- confirmed only if the network says that the claim is included; else it is made claimable
  -- again if it was submitted and has timed out, and is left as it is if not. The network says
  -- what it answers in this pass, and what is cached from it and fresh.
  pub check_claims_outcome :
      (x : NumberText) (at : ℕ) (s : OperatorState) (cache : Dict CachedStatus) (dirty : Bool)
      → (key hash : String) (m : StoredReceiptMeta) → IsTrueCache Says now cache
      → IsUnique s.receipt_meta
      → lookup key s.receipt_meta ≡ some m
      → hash_of m.claim_tx_hash ≡ some hash
      → (m' : StoredReceiptMeta) × (lookup key
            (check_claims fetch now submitted_timeout_ms x at s cache dirty).state.receipt_meta
          ≡ some m')
        × ReceiptOutcome Says fetch now submitted_timeout_ms at key hash m m'
  unfolding check_claims
  check_claims_outcome x at s cache dirty key hash m truthful unique found has =
      let start : Pass = record { state = s; cache = cache; derived = []; dirty = dirty } in
      let positions = filter_entries is_pending_position s.position_meta in
      let (same, still) = visit_positions-keeps x at positions start truthful in
      visit_receipts-outcome at key hash m (filter_entries is_pending_receipt s.receipt_meta)
        (visit_positions fetch now submitted_timeout_ms x at positions start) still
        (filter_entries-IsUnique is_pending_receipt s.receipt_meta unique)
        (filter_entries-some is_pending_receipt key m s.receipt_meta found (ground (arith, has)))
        has (ap (λ d. lookup key d) same ∙ found)
