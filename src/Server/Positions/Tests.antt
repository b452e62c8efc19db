-- ===== src/Server/Positions/Tests.antt =====
-- A receipt and a position on the side "over" of a market that the file does not have as resolved yet.
use perfect_weather_predicti.Prelude.{
  Bool, true, false, none, some, Option, [], ◌∷◌, String, undefined, null,
}
use perfect_weather_predicti.MarketTypes.{MarketLeaf}
use perfect_weather_predicti.StateStore.{
  StoredMarketLeaf, StoredPositionLeaf, StoredReceiptMeta, OperatorState, ClaimStatus, Side, over,
  load_operator_state,
}
use perfect_weather_predicti.Server.Positions.{ResolvedWalletPosition}

abbrev market : StoredMarketLeaf
market = record {
  config_hash = "1";
  close_slot = "1";
  expiry_slot = "11";
  threshold_value_tenth_c = "1";
  total_position_bet = "11111";
  total_yes_position_bet = "1";
  resolved = "0";
  outcome = "0";
  oracle_statement_hash = "0";
}

abbrev leaf : MarketLeaf
leaf = record {
  config_hash = 1;
  close_slot = 1;
  expiry_slot = 2;
  threshold_value_tenth_c = 1;
  total_position_bet = 5;
  total_yes_position_bet = 1;
  resolved = false;
  outcome = false;
  oracle_statement_hash = 0;
}

abbrev receipt : StoredReceiptMeta
receipt = record {
  zkapp_public_key = undefined;
  market_key = "1";
  market_date = none;
  wallet_public_key = "B62a";
  owner_commitment = "1";
  created_at_unix_ms = 0;
  funding_tx_hash = none;
  funding_status = null;
  funding_submitted_at_unix_ms = null;
  funding_confirmed_at_unix_ms = null;
  receipt_commitment = "1";
  receipt_salt = "1";
  side = over;
  stake_tmina = 1;
  claim_status = null;
  claim_tx_hash = null;
  claim_submitted_at_unix_ms = null;
  claim_confirmed_at_unix_ms = null;
}

-- A position of 2 tMINA, of the same owner.
abbrev position : StoredPositionLeaf
position = record {
  market_key = "1";
  side_over = "1";
  stake = "11";
  owner_commitment = "1";
  claimed = "0";
}

abbrev state : OperatorState
state = record (load_operator_state none) {
  markets = ("1", market) ∷ [];
  positions = ("3", position) ∷ [];
  receipt_meta = ("2", receipt) ∷ [];
}

abbrev says_over : String → Option Side
says_over key = some over

-- Four fifths are on the other side, so the true payout is 5.
abbrev row : ResolvedWalletPosition
row = record {
  position_key = "2";
  market_key = "1";
  market_date = none;
  side = over;
  stake_tmina = 1;
  total_pot_tmina = 5;
  payout_tmina = 1;
  resolved_outcome = over;
  won = true;
  claimed = false;
  claim_status = ClaimStatus.claimable;
  claim_tx_hash = none;
  claim_submitted_at_unix_ms = none;
  claim_confirmed_at_unix_ms = none;
}

abbrev position_row : ResolvedWalletPosition
position_row = record row { position_key = "3"; stake_tmina = 2; payout_tmina = 2 }

abbrev less : String → String → Bool
less a b = false
