-- ===== src/Server/Receipts/Settling.antt =====
-- Repeated passes over the statuses of receipts (src/marketplace-server.ts, lines 2598 to 2627 and
-- 2853 to 2879).
use perfect_weather_predicti.Prelude.{
  ℕ, ◌≡◌, refl, ap, Bool, true, false, Option, none, some, [], ◌∷◌, String, Dict, lookup, value,
  ◌∙◌, arith, ◌>>=◌, ◌||◌, ◌≢◌, ◌↔◌, some-injective, subst₂, lookup-cons, >>=-eq-some, Option-cases,
  inl, inr,
}
use perfect_weather_predicti.O1js.{NumberText}
use perfect_weather_predicti.MarketTypes.{MarketLeaf}
use perfect_weather_predicti.StateStore.{StoredReceiptMeta, OperatorState, ClaimStatus}
use perfect_weather_predicti.Server.Receipts.{
  Dirty, is_present, reconcile_funding, each_entry, reconcile_receipt_funding_statuses,
  finalize_claim, is_claimed, has_won, finalize_entry, finalize_entries,
  finalize_receipt_claim_statuses, market_of,
}

reconcile_funding_twice :
    (now later : ℕ) (on_chain : Bool) (m : StoredReceiptMeta)
    → reconcile_funding later on_chain (reconcile_funding now on_chain m).0
      ≡ ((reconcile_funding now on_chain m).0, false)
unfolding reconcile_funding
reconcile_funding_twice now later true m = ground arith
reconcile_funding_twice now later false m = ground arith

finalize_claim_twice :
    (claimed : Bool) (market : Option MarketLeaf) (m : StoredReceiptMeta)
    → finalize_claim claimed market (finalize_claim claimed market m).0
      ≡ ((finalize_claim claimed market m).0, false)
unfolding finalize_claim
finalize_claim_twice true market m = ground arith
finalize_claim_twice false none m = refl
finalize_claim_twice false (some leaf) m = ground arith

each_entry_twice :
    {V : Type 0} (body body' : String → V → Dirty V)
    → ((key : String) (v : V) → body' key (body key v).0 ≡ ((body key v).0, false))
    → (d : Dict V) → each_entry body' (each_entry body d).0 ≡ ((each_entry body d).0, false)
unfolding each_entry
each_entry_twice body body' settled [] = refl
each_entry_twice body body' settled ((key, v) ∷ d) =
    ground (arith, settled key v, each_entry_twice body body' settled d)

-- Once the funding statuses are reconciled with the receipts on the chain, doing it again at any
-- time changes nothing and reports no change.
pub reconcile_receipt_funding_statuses_twice :
    (now later : ℕ) (s : OperatorState)
    → reconcile_receipt_funding_statuses later (reconcile_receipt_funding_statuses now s).0
      ≡ ((reconcile_receipt_funding_statuses now s).0, false)
unfolding reconcile_receipt_funding_statuses
reconcile_receipt_funding_statuses_twice now later s =
    ap (λ (metas : Dirty (Dict StoredReceiptMeta)). (record s { receipt_meta = metas.0 }, metas.1))
      (each_entry_twice (λ key m. reconcile_funding now (is_present (lookup key s.receipts)) m)
        (λ key m. reconcile_funding later (is_present (lookup key s.receipts)) m)
        (λ key m. reconcile_funding_twice now later (is_present (lookup key s.receipts)) m)
        s.receipt_meta)

finalize_claim_market_key :
    (claimed : Bool) (market : Option MarketLeaf) (m : StoredReceiptMeta)
    → (finalize_claim claimed market m).0.market_key ≡ m.market_key
unfolding finalize_claim
finalize_claim_market_key true market m = ground arith
finalize_claim_market_key false none m = refl
finalize_claim_market_key false (some leaf) m = ground arith

module _ (x : NumberText) where
  finalize_entry_twice :
      (s : OperatorState) (key : String) (m : StoredReceiptMeta) {r : Dirty StoredReceiptMeta}
      → finalize_entry x s key m ≡ some r
      → finalize_entry x s key r.0 ≡ some (r.0, false)
  finalize_entry_twice s key m done = elim (Option-cases (market_of x s m.market_key)) [
    | inl unreadable ↦ ground (arith, finalize_claim_twice true none m)
    | inr (market, e) ↦ ground (
      arith,
      finalize_claim_twice true none m,
      finalize_claim_twice false market m,
      finalize_claim_market_key false market m,
    )
  ]

  finalize_entries_twice :
      (s : OperatorState) (d : Dict StoredReceiptMeta) {r : Dirty (Dict StoredReceiptMeta)}
      → finalize_entries x s d ≡ some r
      → finalize_entries x s r.0 ≡ some (r.0, false)
  unfolding finalize_entries
  finalize_entries_twice s [] done = ground arith
  finalize_entries_twice s ((key, m) ∷ d) done =
      let (changed, first, tail) = >>=-eq-some (finalize_entry x s key m) _ done in
      let (others, rest, last) = >>=-eq-some (finalize_entries x s d) _ tail in
      ground (arith, last, finalize_entry_twice s key m first, finalize_entries_twice s d rest)

  -- `finalize_entries` reads the markets and the claimed receipts of the state alone.
  finalize_entries-metas :
      (s : OperatorState) (metas d : Dict StoredReceiptMeta)
      → finalize_entries x (record s { receipt_meta = metas }) d ≡ finalize_entries x s d
  unfolding finalize_entries market_of
  finalize_entries-metas s metas [] = refl
  finalize_entries-metas s metas ((key, m) ∷ d) =
      ap
        (λ rest. do
          changed ← finalize_entry x s key m
          others ← rest
          some ((key, changed.0) ∷ others.0, changed.1 || others.1))
        (finalize_entries-metas s metas d)

  -- Once the claim statuses are final, finalizing again succeeds, changes nothing and reports no
  -- change.
  pub finalize_receipt_claim_statuses_twice :
      (s : OperatorState) (r : Dirty OperatorState)
      → finalize_receipt_claim_statuses x s ≡ some r
      → finalize_receipt_claim_statuses x r.0 ≡ some (r.0, false)
  unfolding finalize_receipt_claim_statuses
  finalize_receipt_claim_statuses_twice s r done =
      let (metas, entries, last) = >>=-eq-some (finalize_entries x s s.receipt_meta) _ done in
      ground (
        arith,
        last,
        finalize_entries_twice s s.receipt_meta entries,
        finalize_entries-metas s metas.0 metas.0,
      )

  pub entry_is_final :
      (s : OperatorState) (d : Dict StoredReceiptMeta) {r : Dirty (Dict StoredReceiptMeta)}
      → finalize_entries x s d ≡ some r
      → (key : String) (m : StoredReceiptMeta) → lookup key r.0 ≡ some m
      → finalize_entry x s key m ≡ some (m, false)
  unfolding finalize_entries lookup
  entry_is_final s [] done key m found = ground arith
  entry_is_final s ((k, n) ∷ d) done key m found =
      let (changed, first, tail) = >>=-eq-some (finalize_entry x s k n) _ done in
      let (others, rest, last) = >>=-eq-some (finalize_entries x s d) _ tail in
      let found' =
        ap (λ (q : Dirty (Dict StoredReceiptMeta)). lookup key q.0) (some-injective _ _ last)
        ∙ found in
      elim (lookup-cons key k changed.0 m others.0 found') [
        | inl (same_key, same) ↦
            subst₂ (λ j (q : StoredReceiptMeta). finalize_entry x s j q ≡ some (q, false)) same_key
              same (finalize_entry_twice s k n first)
        | inr later ↦ entry_is_final s d rest key m later
      ]

  -- In the final statuses, a receipt that is not claimed and whose market is resolved is marked
  -- claimable only if its side has won, and one whose side has won is marked claimable unless a claim
  -- of it is submitted or confirmed.
  pub claimable_iff_won :
      (s : OperatorState) (r : Dirty OperatorState) (key : String) (m : StoredReceiptMeta)
      → (leaf : MarketLeaf) → finalize_receipt_claim_statuses x s ≡ some r
      → lookup key r.0.receipt_meta ≡ some m
      → is_claimed (lookup key s.claimed_receipts) ≡ false
      → market_of x s m.market_key ≡ some (some leaf)
      → leaf.resolved ≡ true
      → m.claim_status ≢ value ClaimStatus.submitted
      → m.claim_status ≢ value ClaimStatus.confirmed
      → (m.claim_status ≡ value ClaimStatus.claimable) ↔ (has_won m.side leaf.outcome ≡ true)
  unfolding finalize_receipt_claim_statuses finalize_claim
  claimable_iff_won s r key m leaf done found unclaimed market resolved idle unpaid =
      let (metas, entries, last) = >>=-eq-some (finalize_entries x s s.receipt_meta) _ done in
      let found' =
        ap (λ (q : Dirty OperatorState). lookup key q.0.receipt_meta) (some-injective _ _ last)
        ∙ found in
      let final = entry_is_final s s.receipt_meta entries key m found' in ground (arith, final)
