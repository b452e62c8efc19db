-- ===== src/Server/Finalize/Intents.antt =====
-- src/marketplace-server.ts, lines 117 to 133, 2283 to 2300 and 3887 to 3996: a transaction that the wallet has sent is
-- recorded under the intent for which it was built. What the network answers is a parameter, and so
-- is a refresh of the saved state, which may fail. A thrown error ends the request.
use perfect_weather_predicti.Prelude.{
  ℕ, zero, suc, ◌+◌, ◌*◌, Bool, true, not, ◌||◌, Option, none, some, [], ◌∷◌, String, str_eq, Dict,
  lookup, put, Nullish, undefined, null, value, if◌then◌else◌, ltb, ◌==◌,
}
use perfect_weather_predicti.O1js.{NumberText}
use perfect_weather_predicti.StateStore.{
  StoredReceiptMeta, OperatorState, SubmissionStatus, Side, over, under,
}
use perfect_weather_predicti.Server.Receipts.{is_present}
use perfect_weather_predicti.Server.BetContext.{BetParams}
use perfect_weather_predicti.Server.Finalize.{
  FinalizeError, empty_parameter, intent_not_found, intent_expired, receipt_commitment_missing,
  Result, ok, err, truthy, ClaimTx, record_claim,
}

pub data IntentType : Type 0 where
  market_bet payout_claim : IntentType

-- `PendingTxIntent`, less the user, who is the wallet, and the leaves, of which it matters whether
-- there is a new one.
pub record PendingTxIntent : Type 0 where
  pub intent_type : IntentType
  pub market_key : String
  pub market_date : Option String
  pub wallet_public_key : String
  pub position_key : String
  pub add_total_bet : ℕ
  pub add_yes_bet : ℕ
  pub has_new_leaf : Bool
  pub receipt_commitment : Option String
  pub receipt_salt : Option String
  pub created_at_unix_ms : ℕ

-- The body of the request; the parts from `fallback_type` on are read where there is no intent.
pub record FinalizeBody : Type 0 where
  pub intent_id : String
  pub tx_hash : String
  pub fallback_type : String
  pub market_key : String
  pub position_key : String
  pub wallet_public_key : String

-- The intent of a bet for which a context was built (lines 2283 to 2300): the salt is the one whose hash
-- the commitment has.
unfoldable pub bet_intent :
    (market_date : Option String) (receipt_salt : String) (now : ℕ)
    → BetParams
    → (position_key receipt_commitment : String) → PendingTxIntent
bet_intent market_date receipt_salt now p position_key receipt_commitment = record {
  intent_type = market_bet;
  market_key = p.market_key;
  market_date = market_date;
  wallet_public_key = p.wallet_public_key;
  position_key = position_key;
  add_total_bet = p.add_total_bet;
  add_yes_bet = p.add_yes_bet;
  has_new_leaf = true;
  receipt_commitment = some receipt_commitment;
  receipt_salt = some receipt_salt;
  created_at_unix_ms = now;
}

-- `delete d[key]`
unfoldable pub delete : {V : Type 0} → String → Dict V → Dict V
delete key [] = []
delete key ((k, v) ∷ d) = let rest = delete key d in if str_eq k key then rest else (k, v) ∷ rest

-- The pending intents after a request, and the state that it saved or the error that it threw.
pub data Finalized : Type 0 where
  rejected : Dict PendingTxIntent → FinalizeError → Finalized
  saved : Dict PendingTxIntent → OperatorState → Finalized

abbrev pub intent_ttl_ms : ℕ
intent_ttl_ms = 15 * 60 * 1000

-- `intent.receiptSalt || ''`
abbrev pub or_empty_text : Option String → String
or_empty_text none = ""
or_empty_text (some t) = t

abbrev pub side_of_bet : (add_yes_bet add_total_bet : ℕ) → Side
side_of_bet yes_bet total_bet = if yes_bet == total_bet then over else under

module _ (zkapp_public_key : String) (owner_of : String → String) where
  -- `state.zkappPublicKey || getZkappPublicKey().toBase58()`
  abbrev current_zkapp : OperatorState → String
  current_zkapp s = elim (truthy s.zkapp_public_key) [ none ↦ zkapp_public_key | some key ↦ key ]

  -- The entry of a bet that was sent.
  unfoldable pub bet_receipt_meta :
      OperatorState → PendingTxIntent → (commitment tx_hash : String) (now : ℕ) → StoredReceiptMeta
  bet_receipt_meta s i commitment tx_hash now = record {
    zkapp_public_key = value (current_zkapp s);
    market_key = i.market_key;
    market_date = i.market_date;
    wallet_public_key = i.wallet_public_key;
    owner_commitment = owner_of i.wallet_public_key;
    created_at_unix_ms = i.created_at_unix_ms;
    funding_tx_hash = some tx_hash;
    funding_status = value SubmissionStatus.submitted;
    funding_submitted_at_unix_ms = value now;
    funding_confirmed_at_unix_ms = null;
    receipt_commitment = commitment;
    receipt_salt = or_empty_text i.receipt_salt;
    side = side_of_bet i.add_yes_bet i.add_total_bet;
    stake_tmina = i.add_total_bet;
    claim_status = undefined;
    claim_tx_hash = undefined;
    claim_submitted_at_unix_ms = undefined;
    claim_confirmed_at_unix_ms = undefined;
  }

  abbrev pub claim_of : PendingTxIntent → (tx_hash : String) (now : ℕ) → ClaimTx
  claim_of i tx_hash now = record {
    position_key = i.position_key;
    market_key = i.market_key;
    wallet_public_key = i.wallet_public_key;
    tx_hash = tx_hash;
    recorded_at_unix_ms = now;
  }

  abbrev claim_of_body : FinalizeBody → (now : ℕ) → ClaimTx
  claim_of_body b now = record {
    position_key = b.position_key;
    market_key = b.market_key;
    wallet_public_key = b.wallet_public_key;
    tx_hash = b.tx_hash;
    recorded_at_unix_ms = now;
  }

  module _ (x : NumberText) (tx_status : String → Option String) (confirmed_at now : ℕ) where
    abbrev pub recorded_claim : ClaimTx → OperatorState → Result OperatorState
    recorded_claim c s = elim (record_claim x (tx_status c.tx_hash) confirmed_at c s) [
      | err e ↦ err e
      | ok recorded ↦ ok recorded.0
    ]

    -- What is recorded for an intent.
    unfoldable pub record_intent :
        PendingTxIntent → (tx_hash : String) → OperatorState → Result OperatorState
    unfolding bet_receipt_meta
    record_intent i tx_hash s = elim i.intent_type [
      | payout_claim ↦ recorded_claim (claim_of i tx_hash now) s
      | market_bet ↦
          if i.has_new_leaf
          then (elim (truthy i.receipt_commitment) [
            | none ↦ err receipt_commitment_missing
            | some commitment ↦
                let m = bet_receipt_meta s i commitment tx_hash now in
                ok (record s { receipt_meta = put i.position_key m s.receipt_meta })
          ])
          else ok s
    ]

    -- `refreshedMeta.fundingConfirmedAtUnixMs || Date.now()`
    abbrev or_now : Nullish ℕ → Nullish ℕ
    or_now (value zero) = value now
    or_now (value (suc n)) = value (suc n)
    or_now null = value now
    or_now undefined = value now

    -- The refreshed state, in which a bet whose receipt is on the chain is confirmed.
    unfoldable pub confirm_funding : PendingTxIntent → OperatorState → OperatorState
    confirm_funding i s = elim i.intent_type [
      | payout_claim ↦ s
      | market_bet ↦ elim (lookup i.position_key s.receipt_meta) [
        | none ↦ s
        | some m ↦
            if is_present (lookup i.position_key s.receipts)
            then (record s {
              receipt_meta =
                  put i.position_key
                    (record m {
                      funding_status = value SubmissionStatus.confirmed;
                      funding_confirmed_at_unix_ms = or_now m.funding_confirmed_at_unix_ms;
                    })
                    s.receipt_meta;
            })
            else s
      ]
    ]

    module _ (refresh : OperatorState → Option OperatorState) where
      -- The state that the file holds at the end: the refreshed one, if there is one.
      abbrev pub refreshed : PendingTxIntent → OperatorState → OperatorState
      refreshed i s = elim (refresh s) [ none ↦ s | some s' ↦ confirm_funding i s' ]

      -- A claim that has no intent.
      unfoldable pub finalize_without_intent :
          FinalizeBody → Dict PendingTxIntent → OperatorState → Finalized
      finalize_without_intent b intents s =
          if not (str_eq b.fallback_type "payout-claim")
          then rejected intents intent_not_found
          else if str_eq b.market_key ""
              || str_eq b.position_key ""
              || str_eq b.wallet_public_key ""
          then rejected intents empty_parameter
          else (elim (recorded_claim (claim_of_body b now) s) [
            | err e ↦ rejected intents e
            | ok s' ↦ saved intents s'
          ])

      -- The handler of `/api/tx/finalize`, after the guards of the request.
      unfoldable pub finalize : FinalizeBody → Dict PendingTxIntent → OperatorState → Finalized
      unfolding finalize_without_intent record_intent confirm_funding delete
      finalize b intents s =
          if str_eq b.intent_id "" || str_eq b.tx_hash ""
          then rejected intents empty_parameter
          else (elim (lookup b.intent_id intents) [
            | none ↦ finalize_without_intent b intents s
            | some i ↦
                if ltb (i.created_at_unix_ms + intent_ttl_ms) now
                then rejected (delete b.intent_id intents) intent_expired
                else (elim (record_intent i b.tx_hash s) [
                  | err e ↦ rejected intents e
                  | ok s' ↦ saved (delete b.intent_id intents) (refreshed i s')
                ])
          ])
