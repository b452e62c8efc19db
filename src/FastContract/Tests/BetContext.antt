-- ===== src/FastContract/Tests/BetContext.antt =====
-- A bet that the server builds on the market of the parent module, from the state that it replays.
use perfect_weather_predicti.Prelude.{
  ℕ, ◌≡◌, ◌≢◌, refl, false, str_eq, eq_iff, inr, none, some, Option, String, [], map, ◌++◌, ◌*◌,
  lookup, put, is_true_text, arith,
}
use perfect_weather_predicti.O1js.Concrete.{concrete, concrete-IsLawful}
use perfect_weather_predicti.O1js.Unary.{unary, unary-IsLawfulText}
use perfect_weather_predicti.MarketTypes.Facts.{IsWellFormed}
use perfect_weather_predicti.StateStore.{StoredReceiptMeta, OperatorState, serialize_market_leaf}
use perfect_weather_predicti.StateStore.Roundtrip.{IsRanged, deserialize_market_leaf-serialize}
use perfect_weather_predicti.Payout.{nanomina_per_tmina}
use perfect_weather_predicti.FastContract.{FastOutcome}
use perfect_weather_predicti.FastContract.Ledger.{Ledger, empty_ledger}
use perfect_weather_predicti.FastContract.Calls.{created}
use perfect_weather_predicti.Samples.{fresh, alice_key, no_map}
use perfect_weather_predicti.Replay.{
  replay, apply_event, apply_market, leaf_from_event_data, oracle_nonce_of, as_field, as_uint64,
  as_bool, as_string_like, empty_state,
}
use perfect_weather_predicti.Replay.Events.{AreRanged}
use perfect_weather_predicti.Replay.Mirror.{Mirrors}
use perfect_weather_predicti.Replay.Recovery.{Trace, start, call, Trace-Mirrors, init-Mirrors}
use perfect_weather_predicti.Replay.Tests.{fetch_event, fetch_event-IsFetch}
use perfect_weather_predicti.Server.BetContext.{
  BetParams, BetContext, build_bet_context, build_receipt_bet_tx,
}
use perfect_weather_predicti.Server.BetContext.Accepted.{built_bet_accepts}
use perfect_weather_predicti.Server.ClaimContext.{receipt_commitment_from_bet}
use perfect_weather_predicti.Server.Finalize.{ok}
use perfect_weather_predicti.Server.Finalize.Intents.{PendingTxIntent, bet_intent, record_intent}
use perfect_weather_predicti.Server.Finalize.Recorded.{recorded_bet_is_claimable}
use perfect_weather_predicti.FastContract.Tests.{ran, s0, out1, step1}
open concrete use {PublicKey, get_witness}

abbrev no_state : OperatorState
no_state = record {
  zkapp_public_key = none;
  markets = [];
  positions = [];
  receipts = [];
  claimed_receipts = [];
  used_nonces = [];
  market_meta = [];
  position_meta = [];
  receipt_meta = [];
}

fresh-IsRanged : IsRanged fresh
unfolding IsRanged
fresh-IsRanged = (omega arith, omega arith, omega arith, omega arith, omega arith)

created_in_range : AreRanged out1.events
unfolding ran
created_in_range = (fresh-IsRanged, tt)

first_call : Trace concrete s0 ([] ++ out1.events) out1.state
first_call = call out1 start (created 1 fresh (get_witness no_map 1) step1) created_in_range refl

abbrev replayed : OperatorState
replayed = replay unary (map fetch_event ([] ++ out1.events)) (empty_state none no_state)

mirrored :
    (g : Ledger concrete) × Mirrors concrete concrete-IsLawful unary unary-IsLawfulText out1.state g
      replayed
mirrored =
    Trace-Mirrors concrete concrete-IsLawful unary unary-IsLawfulText fetch_event
      fetch_event-IsFetch (empty_ledger concrete) (empty_state none no_state) first_call
      (init-Mirrors concrete concrete-IsLawful unary unary-IsLawfulText fetch_event
        fetch_event-IsFetch none no_state)

abbrev anybody : String → Option PublicKey
anybody text = some alice_key

abbrev params : BetParams
params = record {
  market_key = "1";
  add_total_bet = 30;
  add_yes_bet = 30;
  wallet_public_key = "B62a";
  position_key = 2;
  salt_hash = 9;
}

market_is_one : params.market_key ≡ unary.to_string 1
unfolding unary
market_is_one = refl

finds_market : lookup params.market_key replayed.markets ≡ some (serialize_market_leaf unary fresh)
unfolding ran unary lookup replay apply_event apply_market leaf_from_event_data oracle_nonce_of
    as_field as_uint64 as_bool as_string_like empty_state put is_true_text
finds_market = refl

no_receipt : lookup (unary.to_string 2) replayed.receipts ≡ none
unfolding ran unary lookup replay apply_event apply_market leaf_from_event_data oracle_nonce_of
    as_field as_uint64 as_bool as_string_like empty_state put is_true_text
no_receipt = refl

fresh-IsWellFormed : IsWellFormed fresh
fresh-IsWellFormed = ground arith

built_bet_accepts_example :
    (c : BetContext concrete unary anybody) × (out : FastOutcome concrete) × (build_bet_context
        concrete unary anybody params replayed
      ≡ some c)
    × (build_receipt_bet_tx concrete unary anybody c out1.state
        ≡ some (out, 30 * nanomina_per_tmina))
built_bet_accepts_example =
    built_bet_accepts concrete concrete-IsLawful unary unary-IsLawfulText anybody out1.state
      mirrored.0 replayed mirrored.1 params 1 (serialize_market_leaf unary fresh) fresh alice_key
      market_is_one finds_market
      (deserialize_market_leaf-serialize unary unary-IsLawfulText fresh fresh-IsRanged)
      fresh-IsWellFormed fresh-IsRanged refl (inr refl) (omega arith) (omega arith) no_receipt refl

context_built :
    (c : BetContext concrete unary anybody) × (build_bet_context concrete unary anybody params
        replayed
      ≡ some c)
context_built =
    let (c, out, built, sent) =
      built_bet_accepts concrete concrete-IsLawful unary unary-IsLawfulText anybody out1.state
        mirrored.0 replayed mirrored.1 params 1 (serialize_market_leaf unary fresh) fresh alice_key
        market_is_one finds_market
        (deserialize_market_leaf-serialize unary unary-IsLawfulText fresh fresh-IsRanged)
        fresh-IsWellFormed fresh-IsRanged refl (inr refl) (omega arith) (omega arith) no_receipt
        refl in
    (c, built)

abbrev context : BetContext concrete unary anybody
context = context_built.0

abbrev nine : String → ℕ
nine salt = 9

abbrev owners : String → String
owners wallet = context.owner_commitment

abbrev unknown : String → Option String
unknown hash = none

abbrev intent : PendingTxIntent
intent = bet_intent none "salt" 5 params context.receipt_key context.receipt_commitment

salt_differs : str_eq "salt" "" ≡ false
salt_differs = refl

recorded_bet_is_claimable_example :
    (t : OperatorState) × (m : StoredReceiptMeta) × (key owner : ℕ) × (record_intent "B62z" owners
        unary unknown 6 5 intent "5J" replayed
      ≡ ok t)
    × (lookup context.receipt_key t.receipt_meta ≡ some m)
    × (m.market_key ≡ params.market_key)
    × (m.wallet_public_key ≡ params.wallet_public_key)
    × (m.receipt_salt ≢ "")
    × (unary.field_of m.market_key ≡ some key)
    × (unary.field_of m.owner_commitment ≡ some owner)
    × (unary.to_string (receipt_commitment_from_bet concrete unary anybody nine key owner m)
        ≡ m.receipt_commitment)
recorded_bet_is_claimable_example =
    recorded_bet_is_claimable concrete concrete-IsLawful unary unary-IsLawfulText anybody nine
      "B62z" owners unknown 6 5 params replayed replayed context none "salt" "5J" context_built.1
      refl refl (ground (arith, eq_iff "salt" "", salt_differs))
