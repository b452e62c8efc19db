-- ===== src/Server/Receipts/Tests.antt =====
-- A resolved market with a receipt on the winning side, and a position.
use perfect_weather_predicti.Prelude.{
  ◌≡◌, ◌↔◌, refl, true, false, none, some, [], ◌∷◌, lookup, put, undefined, null, value, arith,
}
use perfect_weather_predicti.O1js.Unary.{unary}
use perfect_weather_predicti.MarketTypes.{MarketLeaf}
use perfect_weather_predicti.Contract.{PositionLeaf}
use perfect_weather_predicti.StateStore.{
  StoredMarketLeaf, StoredReceiptMeta, StoredPositionLeaf, OperatorState, ClaimStatus, over,
  deserialize_market_leaf, deserialize_position_leaf, parse_bool_field,
}
use perfect_weather_predicti.Server.Receipts.{
  Dirty, is_claimed, finalize_claim, finalize_entries, finalize_receipt_claim_statuses, market_of,
  has_won, mark_receipt_claim_confirmed,
}
use perfect_weather_predicti.Server.Receipts.Settling.{claimable_iff_won}

abbrev market : StoredMarketLeaf
market = record {
  config_hash = "1";
  close_slot = "1";
  expiry_slot = "11";
  threshold_value_tenth_c = "1";
  total_position_bet = "11";
  total_yes_position_bet = "1";
  resolved = "1";
  outcome = "1";
  oracle_statement_hash = "1";
}

abbrev leaf : MarketLeaf
leaf = record {
  config_hash = 1;
  close_slot = 1;
  expiry_slot = 2;
  threshold_value_tenth_c = 1;
  total_position_bet = 2;
  total_yes_position_bet = 1;
  resolved = true;
  outcome = true;
  oracle_statement_hash = 1;
}

abbrev receipt : StoredReceiptMeta
receipt = record {
  zkapp_public_key = undefined;
  market_key = "1";
  market_date = none;
  wallet_public_key = "B62a";
  owner_commitment = "1";
  created_at_unix_ms = 0;
  funding_tx_hash = none;
  funding_status = null;
  funding_submitted_at_unix_ms = null;
  funding_confirmed_at_unix_ms = null;
  receipt_commitment = "1";
  receipt_salt = "1";
  side = over;
  stake_tmina = 1;
  claim_status = null;
  claim_tx_hash = null;
  claim_submitted_at_unix_ms = null;
  claim_confirmed_at_unix_ms = null;
}

abbrev stored_position : StoredPositionLeaf
stored_position = record {
  market_key = "1";
  side_over = "1";
  stake = "1";
  owner_commitment = "1";
  claimed = "0";
}

abbrev position : PositionLeaf
position = record {
  market_key = 1;
  side_over = true;
  stake = 1;
  owner_commitment = 1;
  claimed = false;
}

abbrev state : OperatorState
state = record {
  zkapp_public_key = none;
  markets = ("1", market) ∷ [];
  positions = ("1", stored_position) ∷ [];
  receipts = ("1", "11") ∷ [];
  claimed_receipts = [];
  used_nonces = [];
  market_meta = [];
  position_meta = [];
  receipt_meta = ("1", receipt) ∷ [];
}

abbrev final_receipt : StoredReceiptMeta
final_receipt = record receipt { claim_status = value ClaimStatus.claimable }

abbrev final : Dirty OperatorState
final = (record state { receipt_meta = ("1", final_receipt) ∷ [] }, true)

reads_market : market_of unary state "1" ≡ some (some leaf)
unfolding market_of deserialize_market_leaf parse_bool_field unary lookup
reads_market = refl

finalizes : finalize_receipt_claim_statuses unary state ≡ some final
unfolding finalize_receipt_claim_statuses finalize_entries finalize_claim market_of
    deserialize_market_leaf parse_bool_field unary lookup
finalizes = refl

abbrev confirmed_receipt : StoredReceiptMeta
confirmed_receipt = record receipt {
  claim_status = value ClaimStatus.confirmed;
  claim_confirmed_at_unix_ms = value 5;
}

abbrev confirmed : Dirty OperatorState
confirmed = (
  record state { claimed_receipts = ("1", "1") ∷ []; receipt_meta = ("1", confirmed_receipt) ∷ [] },
  false,
)

marks : (mark_receipt_claim_confirmed "1" 5 state).1 ≡ true
unfolding mark_receipt_claim_confirmed lookup
marks = refl

finalizes_marked :
    finalize_receipt_claim_statuses unary (mark_receipt_claim_confirmed "1" 5 state).0
    ≡ some confirmed
unfolding finalize_receipt_claim_statuses finalize_entries finalize_claim market_of lookup put
    mark_receipt_claim_confirmed
finalizes_marked = refl

finds_confirmed : lookup "1" confirmed.0.receipt_meta ≡ some confirmed_receipt
unfolding lookup
finds_confirmed = refl

finds_final : lookup "1" final.0.receipt_meta ≡ some final_receipt
unfolding lookup
finds_final = refl

unclaimed : is_claimed (lookup "1" state.claimed_receipts) ≡ false
unfolding lookup
unclaimed = refl

claimable_iff_won_example :
    (final_receipt.claim_status ≡ value ClaimStatus.claimable) ↔ (has_won over true ≡ true)
claimable_iff_won_example =
    claimable_iff_won unary state final "1" final_receipt leaf finalizes finds_final unclaimed
      reads_market refl (λ e. ground arith) (λ e. ground arith)

reads_position : deserialize_position_leaf unary stored_position ≡ some position
unfolding deserialize_position_leaf parse_bool_field unary
reads_position = refl

finds_position : lookup "1" state.positions ≡ some stored_position
unfolding lookup
finds_position = refl
