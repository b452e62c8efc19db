-- ===== src/Server/Reconcile/Tests.antt =====
-- A pass over the claim of one receipt, which the network has included.
use perfect_weather_predicti.Prelude.{
  ◌≡◌, refl, sym, none, some, some-injective, Option, [], ◌∷◌, String, Dict, lookup, undefined,
  null, value, true, false, arith,
}
use perfect_weather_predicti.O1js.Unary.{unary}
use perfect_weather_predicti.StateStore.{
  StoredReceiptMeta, OperatorState, ClaimStatus, over, load_operator_state,
}
use perfect_weather_predicti.Server.Reconcile.{CachedStatus, hash_of, is_fresh, check_claims}
use perfect_weather_predicti.Server.Reconcile.Visits.{ReceiptOutcome}
use perfect_weather_predicti.Server.Reconcile.Outcomes.{check_claims_outcome}

abbrev receipt : StoredReceiptMeta
receipt = record {
  zkapp_public_key = undefined;
  market_key = "1";
  market_date = none;
  wallet_public_key = "B62a";
  owner_commitment = "1";
  created_at_unix_ms = 0;
  funding_tx_hash = none;
  funding_status = null;
  funding_submitted_at_unix_ms = null;
  funding_confirmed_at_unix_ms = null;
  receipt_commitment = "1";
  receipt_salt = "1";
  side = over;
  stake_tmina = 1;
  claim_status = value ClaimStatus.submitted;
  claim_tx_hash = value "5J";
  claim_submitted_at_unix_ms = value 1;
  claim_confirmed_at_unix_ms = null;
}

abbrev state : OperatorState
state = record (load_operator_state none) { receipt_meta = ("2", receipt) ∷ [] }

abbrev included : String → String → Option String
included key hash = some "INCLUDED"

abbrev Says : String → String → Type 0
Says hash status = status ≡ "INCLUDED"

abbrev no_cache : Dict CachedStatus
no_cache = []

answers : (key hash status : String) → included key hash ≡ some status → Says hash status
answers key hash status e = sym (some-injective _ _ e)

empty_cache :
    (hash : String) (c : CachedStatus)
    → lookup hash no_cache ≡ some c
    → is_fresh 7 c ≡ true
    → Says hash c.status
unfolding lookup
empty_cache hash c found fresh = ground arith

finds_receipt : lookup "2" state.receipt_meta ≡ some receipt
unfolding lookup
finds_receipt = refl

has_hash : hash_of receipt.claim_tx_hash ≡ some "5J"
has_hash = refl

no_other : lookup "2" (let none_left : Dict StoredReceiptMeta = [] in none_left) ≡ none
unfolding lookup
no_other = refl

check_claims_outcome_example :
    (m : StoredReceiptMeta) × (lookup "2"
        (check_claims included 7 1000 unary 8 state no_cache false).state.receipt_meta
      ≡ some m)
    × ReceiptOutcome Says included 7 1000 8 "2" "5J" receipt m
check_claims_outcome_example =
    check_claims_outcome Says included 7 1000 answers unary 8 state no_cache false "2" "5J" receipt
      empty_cache (no_other, tt) finds_receipt has_hash
