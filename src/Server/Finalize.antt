-- ===== src/Server/Finalize.antt =====
-- src/marketplace-server.ts, lines 2574 to 2581 and 2941 to 2986: a claim that the wallet has sent is
-- recorded in the entry of its position or receipt. What the network answers is a parameter.
pub mod Intents
pub mod Once
pub mod Recorded
mod Tests
use perfect_weather_predicti.Prelude.{
  ℕ, ◌+◌, ◌*◌, Bool, true, false, not, ◌&&◌, ◌||◌, Option, none, some, List, [], ◌∷◌, String,
  str_eq, Dict, lookup, put, Nullish, undefined, null, value, if◌then◌else◌, ltb, ◌==◌, ◌>>=◌,
}
use perfect_weather_predicti.O1js.{NumberText}
use perfect_weather_predicti.StateStore.{
  StoredReceiptMeta, StoredPositionMeta, OperatorState, ClaimStatus, SubmissionStatus, Side, over,
  under,
}
use perfect_weather_predicti.Server.Receipts.{
  mark_position_claim_confirmed, mark_receipt_claim_confirmed, is_present,
}
use perfect_weather_predicti.Server.Reconcile.{is_included}

pub data FinalizeError : Type 0 where
  empty_parameter intent_not_found intent_expired receipt_commitment_missing : FinalizeError
  claim_metadata_missing claim_market_mismatch claim_wallet_mismatch : FinalizeError
  claim_of_other_zkapp : FinalizeError

pub data Result {ℓ} (A : Type ℓ) : Type ℓ where
  ok : A → Result A
  err : FinalizeError → Result A

abbrev pub guard : {A : Type 0} → Bool → FinalizeError → Result A → Result A
guard true e rest = rest
guard false e rest = err e

-- `Boolean(text)`, with the text.
abbrev pub truthy : Option String → Option String
truthy none = none
truthy (some t) = if str_eq t "" then none else some t

abbrev pub same_text : Nullish String → String → Bool
same_text (value a) b = str_eq a b
same_text null b = false
same_text undefined b = false

-- `metaMatchesCurrentZkapp`, of an entry's `zkappPublicKey`.
unfoldable pub meta_matches_current_zkapp : Nullish String → Option String → Bool
meta_matches_current_zkapp key current = elim (truthy current) [
  | none ↦ true
  | some c ↦ same_text key c
]

-- The claim to record, and the clock.
pub record ClaimTx : Type 0 where
  pub position_key : String
  pub market_key : String
  pub wallet_public_key : String
  pub tx_hash : String
  pub recorded_at_unix_ms : ℕ

-- The checks of the entry's market, wallet and zkApp.
unfoldable pub check_target :
    {A : Type 0}
    → ClaimTx
    → OperatorState
    → (market_key wallet_public_key : String) → Nullish String
    → Result A
    → Result A
unfolding meta_matches_current_zkapp
check_target c s market_key wallet zkapp rest =
    guard (str_eq market_key c.market_key) claim_market_mismatch (
      guard (str_eq wallet c.wallet_public_key) claim_wallet_mismatch
        (guard (meta_matches_current_zkapp zkapp s.zkapp_public_key) claim_of_other_zkapp rest))

abbrev pub submitted_position : ClaimTx → StoredPositionMeta → StoredPositionMeta
submitted_position c m = record m {
  claim_status = value ClaimStatus.submitted;
  claim_tx_hash = value c.tx_hash;
  claim_submitted_at_unix_ms = value c.recorded_at_unix_ms;
  claim_confirmed_at_unix_ms = null;
}

abbrev pub submitted_receipt : ClaimTx → StoredReceiptMeta → StoredReceiptMeta
submitted_receipt c m = record m {
  claim_status = value ClaimStatus.submitted;
  claim_tx_hash = value c.tx_hash;
  claim_submitted_at_unix_ms = value c.recorded_at_unix_ms;
  claim_confirmed_at_unix_ms = null;
}

-- `claimTxStatus === 'INCLUDED'`, where the network answers.
abbrev pub is_answered_included : Option String → Bool
is_answered_included none = false
is_answered_included (some status) = is_included status

abbrev pub Recorded : Type 0
Recorded = OperatorState × SubmissionStatus

-- `recoverAndRecordReceiptClaimFinalize`. A position that cannot be read throws where the error
-- is caught.
module _ (x : NumberText) (tx_status : Option String) (confirmed_at : ℕ) where
  abbrev confirm_position : String → OperatorState → Recorded
  confirm_position key s =
      if is_answered_included tx_status
      then (elim (mark_position_claim_confirmed x key confirmed_at s) [
        | none ↦ (s, SubmissionStatus.submitted)
        | some (s', marked) ↦ (s', SubmissionStatus.confirmed)
      ])
      else (s, SubmissionStatus.submitted)

  abbrev confirm_receipt : String → OperatorState → Recorded
  confirm_receipt key s =
      if is_answered_included tx_status
      then ((mark_receipt_claim_confirmed key confirmed_at s).0, SubmissionStatus.confirmed)
      else (s, SubmissionStatus.submitted)

  abbrev record_receipt : ClaimTx → OperatorState → StoredReceiptMeta → Result Recorded
  record_receipt c s m = check_target c s m.market_key m.wallet_public_key m.zkapp_public_key (
      ok (
        confirm_receipt c.position_key
          (record s { receipt_meta = put c.position_key (submitted_receipt c m) s.receipt_meta })))

  abbrev record_position : ClaimTx → OperatorState → StoredPositionMeta → Result Recorded
  record_position c s m = check_target c s m.market_key m.wallet_public_key m.zkapp_public_key (
      ok (
        confirm_position c.position_key (record s {
          position_meta = put c.position_key (submitted_position c m) s.position_meta;
        })))

  unfoldable pub record_claim : ClaimTx → OperatorState → Result Recorded
  unfolding check_target
  record_claim c s = elim (lookup c.position_key s.position_meta) [
    | some m ↦ record_position c s m
    | none ↦ elim (lookup c.position_key s.receipt_meta) [
      | none ↦ err claim_metadata_missing
      | some m ↦ record_receipt c s m
    ]
  ]
