-- ===== src/Server/Finalize/Once.antt =====
-- Requests to finalize, one after another (src/marketplace-server.ts, lines 3887 to 3996).
use perfect_weather_predicti.Prelude.{
  ℕ, ◌+◌, ◌≡◌, ◌≢◌, ◌↔◌, ◌≤◌, ◌⊎◌, inl, inr, refl, Nullish, true, false, Option, none, some, [],
  ◌∷◌, String, eq_iff, Dict, lookup, Bool-cases, Option-cases, arith,
}
use perfect_weather_predicti.O1js.{NumberText}
use perfect_weather_predicti.StateStore.{StoredPositionMeta, StoredReceiptMeta, OperatorState}
use perfect_weather_predicti.Server.Finalize.{
  FinalizeError, intent_not_found, Result, ok, err, ClaimTx, Recorded, record_claim, check_target,
  truthy, meta_matches_current_zkapp,
}
use perfect_weather_predicti.Server.Finalize.Intents.{
  IntentType, PendingTxIntent, payout_claim, market_bet, claim_of, FinalizeBody, Finalized,
  rejected, saved, delete, intent_ttl_ms, record_intent, finalize_without_intent, finalize,
  refreshed,
}

lookup-delete : {V : Type 0} (key : String) (d : Dict V) → lookup key (delete key d) ≡ none
unfolding lookup delete
lookup-delete key [] = refl
lookup-delete key ((k, v) ∷ d) = ground (arith, lookup-delete key d)

Result-cases :
    {A : Type 0} (r : Result A) → ((a : A) × (r ≡ ok a)) ⊎ ((e : FinalizeError) × (r ≡ err e))
Result-cases (ok a) = inl (a, refl)
Result-cases (err e) = inr (e, refl)

IntentType-cases : (t : IntentType) → (t ≡ payout_claim) ⊎ (t ≡ market_bet)
IntentType-cases payout_claim = inl refl
IntentType-cases market_bet = inr refl

ok_of_not_err :
    {A : Type 0} (r : Result A) → ((e : FinalizeError) → ¬ (r ≡ err e)) → (a : A) × (r ≡ ok a)
ok_of_not_err (ok a) h = (a, refl)
ok_of_not_err (err e) h = absurd (h e refl)

-- An entry is that of the claim: its market, its wallet, and the zkApp of the state.
abbrev pub IsEntryOf :
    ClaimTx → OperatorState → (market_key wallet_public_key : String) → Nullish String → Type 0
IsEntryOf c s market_key wallet zkapp =
    (market_key ≡ c.market_key)
    × (wallet ≡ c.wallet_public_key)
    × (meta_matches_current_zkapp zkapp s.zkapp_public_key ≡ true)

-- The state has an entry for the claim; that of a position goes before that of a receipt.
abbrev pub HasEntry : ClaimTx → OperatorState → Type 0
HasEntry c s =
    ((m : StoredPositionMeta) × (lookup c.position_key s.position_meta ≡ some m)
      × IsEntryOf c s m.market_key m.wallet_public_key m.zkapp_public_key)
    ⊎ ((lookup c.position_key s.position_meta ≡ none)
        × ((m : StoredReceiptMeta) × (lookup c.position_key s.receipt_meta ≡ some m)
            × IsEntryOf c s m.market_key m.wallet_public_key m.zkapp_public_key))

module _ (x : NumberText) (tx_status : Option String) (confirmed_at : ℕ) where
  record_claim-ok :
      (c : ClaimTx) (s : OperatorState)
      → HasEntry c s
      → (r : Recorded) × (record_claim x tx_status confirmed_at c s ≡ ok r)
  unfolding record_claim check_target
  record_claim-ok c s (inl (m, found, (market, wallet, zkapp))) =
      ok_of_not_err (record_claim x tx_status confirmed_at c s) λ e failed.
        ground
          (arith, eq_iff m.market_key c.market_key, eq_iff m.wallet_public_key c.wallet_public_key)
  record_claim-ok c s (inr (absent, (m, found, (market, wallet, zkapp)))) =
      ok_of_not_err (record_claim x tx_status confirmed_at c s) λ e failed.
        ground
          (arith, eq_iff m.market_key c.market_key, eq_iff m.wallet_public_key c.wallet_public_key)

  record_claim-HasEntry :
      (c : ClaimTx) (s : OperatorState) (r : Recorded)
      → record_claim x tx_status confirmed_at c s ≡ ok r
      → HasEntry c s
  unfolding record_claim check_target
  record_claim-HasEntry c s r done = elim (Option-cases (lookup c.position_key s.position_meta)) [
    | inr (m, found) ↦ inl (
      m,
      found,
      ground
          (arith, eq_iff m.market_key c.market_key, eq_iff m.wallet_public_key c.wallet_public_key),
    )
    | inl absent ↦ elim (Option-cases (lookup c.position_key s.receipt_meta)) [
      | inl missing ↦ ground arith
      | inr (m, found) ↦ inr (
        absent,
        (
          m,
          found,
          ground (
            arith,
            eq_iff m.market_key c.market_key,
            eq_iff m.wallet_public_key c.wallet_public_key,
          ),
        ),
      )
    ]
  ]

module _ (zkapp : String) (owner_of : String → String) (x : NumberText)
    (tx_status : String → Option String) (confirmed_at now : ℕ)
    (refresh : OperatorState → Option OperatorState) where
  abbrev finalized : FinalizeBody → Dict PendingTxIntent → OperatorState → Finalized
  finalized = finalize zkapp owner_of x tx_status confirmed_at now refresh

  abbrev recording : PendingTxIntent → String → OperatorState → Result OperatorState
  recording = record_intent zkapp owner_of x tx_status confirmed_at now

  -- What the recording of an intent needs: for a claim an entry, for a bet with a new leaf the
  -- commitment of its receipt.
  abbrev pub IsRecordable : PendingTxIntent → String → OperatorState → Type 0
  IsRecordable i tx_hash s =
      ((i.intent_type ≡ payout_claim) × HasEntry (claim_of zkapp owner_of i tx_hash now) s)
      ⊎ ((i.intent_type ≡ market_bet)
          × ((i.has_new_leaf ≡ false) ⊎ (truthy i.receipt_commitment ≢ none)))

  record_intent-ok :
      (i : PendingTxIntent) (tx_hash : String) (s : OperatorState)
      → IsRecordable i tx_hash s
      → (s' : OperatorState) × (recording i tx_hash s ≡ ok s')
  unfolding record_intent
  record_intent-ok i tx_hash s (inl (claim, entry)) =
      let (r, done) =
        record_claim-ok x (tx_status tx_hash) confirmed_at (claim_of zkapp owner_of i tx_hash now) s
          entry in
      ok_of_not_err (recording i tx_hash s) λ e failed. ground arith
  record_intent-ok i tx_hash s (inr (bet, committed)) =
      ok_of_not_err (recording i tx_hash s) λ e failed. ground arith

  record_intent-IsRecordable :
      (i : PendingTxIntent) (tx_hash : String) (s s' : OperatorState)
      → recording i tx_hash s ≡ ok s'
      → IsRecordable i tx_hash s
  unfolding record_intent
  record_intent-IsRecordable i tx_hash s s' done = elim (IntentType-cases i.intent_type) [
    | inl claim ↦
        let claimed =
          record_claim x (tx_status tx_hash) confirmed_at (claim_of zkapp owner_of i tx_hash now)
            s in
        elim (Result-cases claimed) [
          | inl (r, e) ↦ inl (
            claim,
            record_claim-HasEntry x (tx_status tx_hash) confirmed_at
                (claim_of zkapp owner_of i tx_hash now) s r e,
          )
          | inr (e, failed) ↦ ground arith
        ]
    | inr bet ↦ elim (Bool-cases i.has_new_leaf) [
      | inl leaf ↦ inr (bet, inr λ missing. ground arith)
      | inr no_leaf ↦ inr (bet, inl no_leaf)
    ]
  ]

  record_intent-IsRecordable_of_works :
      (i : PendingTxIntent) (tx_hash : String) (s : OperatorState)
      → ((e : FinalizeError) → ¬ (recording i tx_hash s ≡ err e))
      → IsRecordable i tx_hash s
  record_intent-IsRecordable_of_works i tx_hash s works =
      let (s', done) = ok_of_not_err (recording i tx_hash s) works in
      record_intent-IsRecordable i tx_hash s s' done

  abbrev pub Saves : Finalized → Type 0
  Saves r = (intents : Dict PendingTxIntent) × (s' : OperatorState) × (r ≡ saved intents s')

  -- A request with the id of a pending intent saves a state exactly if the intent is at most fifteen
  -- minutes old and can be recorded: a claim needs an entry of its position or else its receipt, with
  -- its market, its wallet and the zkApp of the state, and a bet with a new leaf needs the commitment
  -- of its receipt.
  pub finalize-Saves_iff :
      (b : FinalizeBody) (intents : Dict PendingTxIntent) (s : OperatorState) (i : PendingTxIntent)
      → b.intent_id ≢ ""
      → b.tx_hash ≢ ""
      → lookup b.intent_id intents ≡ some i
      → Saves (finalized b intents s)
        ↔ ((now ≤ i.created_at_unix_ms + intent_ttl_ms) × IsRecordable i b.tx_hash s)
  unfolding finalize
  finalize-Saves_iff b intents s i has_id has_hash found = (
    λ (intents', s', e). (
      ground (arith, eq_iff b.intent_id "", eq_iff b.tx_hash ""),
      record_intent-IsRecordable_of_works i b.tx_hash s
          (λ failure failed. ground (arith, eq_iff b.intent_id "", eq_iff b.tx_hash "")),
    ),
    λ (young, recordable).
        let (s', done) = record_intent-ok i b.tx_hash s recordable in
        (
          delete b.intent_id intents,
          refreshed zkapp owner_of x tx_status confirmed_at now refresh i s',
          ground (arith, eq_iff b.intent_id "", eq_iff b.tx_hash ""),
        ),
  )

  -- Once a request with the id of a pending intent has saved a state, the same request is rejected,
  -- unless it is marked as a claim without an intent.
  pub finalized_once :
      (b : FinalizeBody) (intents intents' : Dict PendingTxIntent) (s s' later : OperatorState)
      → lookup b.intent_id intents ≢ none
      → finalized b intents s ≡ saved intents' s'
      → b.fallback_type ≢ "payout-claim"
      → finalized b intents' later ≡ rejected intents' intent_not_found
  unfolding finalize finalize_without_intent
  finalized_once b intents intents' s s' later pending done other =
      elim (Option-cases (lookup b.intent_id intents)) [
        | inl missing ↦ absurd (pending missing)
        | inr (i, found) ↦ ground (
          arith,
          found,
          eq_iff b.fallback_type "payout-claim",
          eq_iff b.intent_id "",
          eq_iff b.tx_hash "",
          lookup-delete b.intent_id intents,
        )
      ]
