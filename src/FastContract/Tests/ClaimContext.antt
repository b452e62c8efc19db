-- ===== src/FastContract/Tests/ClaimContext.antt =====
-- A claim that the server builds after the run of the parent module.
use perfect_weather_predicti.Prelude.{
  ℕ, ◌≡◌, ◌≢◌, refl, none, some, Option, String, [], ◌∷◌, lookup, put, str_eq, eq_iff, undefined,
  null, false, arith, ◌*◌,
}
use perfect_weather_predicti.O1js.Concrete.{concrete, concrete-IsLawful}
use perfect_weather_predicti.O1js.Unary.{unary, unary-IsLawfulText}
use perfect_weather_predicti.Payout.{
  nanomina_per_tmina, payout_nanomina_for_stake, winning_pool_nanomina,
}
use perfect_weather_predicti.StateStore.{
  StoredReceiptMeta, StoredMarketLeaf, OperatorState, over, serialize_market_leaf, market_value,
}
use perfect_weather_predicti.StateStore.Roundtrip.{IsRanged, deserialize_market_leaf-serialize}
use perfect_weather_predicti.FastContract.{FastOutcome}
use perfect_weather_predicti.FastContract.Ledger.{Ledger, Represents}
use perfect_weather_predicti.Samples.{settled, alice_key, alice, markets_with, no_map}
use perfect_weather_predicti.Replay.Mirror.{
  Mirrors, Keeps-nothing, Keeps-put, market_value-serialize,
}
use perfect_weather_predicti.Server.ClaimContext.{
  ClaimParams, ClaimContext, build_claim_context, build_claim_receipt_tx,
}
use perfect_weather_predicti.Server.ClaimContext.Terms.{IsClaimable, FitsPayout}
use perfect_weather_predicti.Server.ClaimContext.Accepted.{IsWritten, built_claim_accepts}
use perfect_weather_predicti.FastContract.Tests.{ran, commitment, receipts_2, out4}
open concrete use {PublicKey, set}
open unary use {to_string}

abbrev receipt : StoredReceiptMeta
receipt = record {
  zkapp_public_key = undefined;
  market_key = to_string 1;
  market_date = none;
  wallet_public_key = "B62a";
  owner_commitment = to_string alice;
  created_at_unix_ms = 0;
  funding_tx_hash = none;
  funding_status = null;
  funding_submitted_at_unix_ms = null;
  funding_confirmed_at_unix_ms = null;
  receipt_commitment = to_string commitment;
  receipt_salt = "salt";
  side = over;
  stake_tmina = 30;
  claim_status = null;
  claim_tx_hash = null;
  claim_submitted_at_unix_ms = null;
  claim_confirmed_at_unix_ms = null;
}

abbrev stored : StoredMarketLeaf
stored = serialize_market_leaf unary settled

abbrev state : OperatorState
state = record {
  zkapp_public_key = none;
  markets = put (to_string 1) stored [];
  positions = [];
  receipts = put (to_string 3) (to_string 77) (put (to_string 2) (to_string commitment) []);
  claimed_receipts = [];
  used_nonces = put (to_string 1) (to_string 1) [];
  market_meta = [];
  position_meta = [];
  receipt_meta = put (to_string 2) receipt [];
}

abbrev ledger : Ledger concrete
ledger = record {
  markets = markets_with settled;
  receipts = receipts_2;
  claimed = no_map;
  nonces = set no_map 1 1;
}

represents : Represents concrete out4.state ledger
unfolding ran
represents = record { markets = refl; receipts = refl; claimed = refl; nonces = refl }

settled-IsRanged : IsRanged settled
unfolding IsRanged
settled-IsRanged = (omega arith, omega arith, omega arith, omega arith, omega arith)

mirrors : Mirrors concrete concrete-IsLawful unary unary-IsLawfulText out4.state ledger state
mirrors =
    let l = concrete-IsLawful in
    let tl = unary-IsLawfulText in
    let printed = tl.field_of-to_string in
    let field_of = unary.field_of in
    let nothing = Keeps-nothing concrete l unary tl field_of in
    let writes = Keeps-put concrete l unary tl field_of in
    record {
      represents = represents;
      markets =
          Keeps-put concrete l unary tl (market_value unary concrete) 1 _ stored [] no_map
            (market_value-serialize concrete l unary tl settled settled-IsRanged)
            (Keeps-nothing concrete l unary tl (market_value unary concrete));
      receipts =
          writes 3 77 (to_string 77) _ _ (printed 77)
            (writes 2 commitment (to_string commitment) [] no_map (printed commitment) nothing);
      claimed = nothing;
      nonces = writes 1 1 (to_string 1) [] no_map (printed 1) nothing;
    }

abbrev params : ClaimParams
params = record {
  market_key = to_string 1;
  position_key = to_string 2;
  fee_payer_public_key = "B62a";
}

abbrev wallets : String → Option PublicKey
wallets text = some alice_key

abbrev salts : String → ℕ
salts text = 9

written :
    IsWritten concrete concrete-IsLawful unary unary-IsLawfulText wallets salts params 1 2 alice_key
      receipt
written = record { market_key = refl; position_key = refl; owner = refl; committed = refl }

finds_receipt : lookup params.position_key state.receipt_meta ≡ some receipt
unfolding lookup put unary
finds_receipt = refl

finds_market : lookup params.market_key state.markets ≡ some stored
unfolding lookup put unary
finds_market = refl

finds_commitment : lookup params.position_key state.receipts ≡ some receipt.receipt_commitment
unfolding lookup put unary
finds_commitment = refl

not_claimed : lookup params.position_key state.claimed_receipts ≡ none
unfolding lookup
not_claimed = refl

abbrev salt : String
salt = "salt"

abbrev empty : String
empty = ""

differ : str_eq "salt" "" ≡ false
differ = refl

salted : salt ≢ empty
salted e = ground (arith, eq_iff "salt" "", differ, e)

claimable : IsClaimable params receipt settled
claimable = record {
  of_wallet = refl;
  of_market = refl;
  resolved = refl;
  won = refl;
  not_submitted = λ e. ground arith;
  not_confirmed = λ e. ground arith;
  salted = salted;
}

shows_forty : payout_nanomina_for_stake 40 30 settled.outcome 30 ≡ 40
unfolding payout_nanomina_for_stake winning_pool_nanomina
shows_forty = refl

fits : FitsPayout settled 30 (payout_nanomina_for_stake 40 30 settled.outcome 30)
fits = record {
  yes_within = omega arith;
  stake_pos = omega arith;
  stake_fits = omega arith;
  product_fits = omega arith;
  payout_pos = omega (arith, shows_forty);
  amount_fits = omega (arith, shows_forty);
}

built_claim_accepts_example :
    (c : ClaimContext concrete unary wallets salts) × (out : FastOutcome concrete)
    × (build_claim_context concrete unary wallets salts (λ key. none) params state ≡ some c)
    × (build_claim_receipt_tx concrete unary wallets salts c out4.state ≡ some out)
    × (out.sends ≡ (alice_key, c.payout_tmina * nanomina_per_tmina) ∷ [])
built_claim_accepts_example =
    built_claim_accepts concrete concrete-IsLawful unary unary-IsLawfulText wallets salts out4.state
      ledger state mirrors (λ key. none) params 1 2 alice_key stored settled receipt written
      finds_receipt finds_market
      (deserialize_market_leaf-serialize unary unary-IsLawfulText settled settled-IsRanged)
      settled-IsRanged claimable fits finds_commitment not_claimed refl
