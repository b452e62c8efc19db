-- ===== src/FastContract/Tests.antt =====
-- A run of the contract of src/fast-contract.ts on the concrete o1js: a market is created, two
-- receipts are bet on its two sides, the oracle resolves it, and the winner claims.
mod Guarantees
mod Acceptance
mod Recovery
mod Sync
mod BetContext
mod ClaimContext
use perfect_weather_predicti.Prelude.{ℕ, ◌≡◌, refl, true, false, Option, none, some, [], ◌∷◌}
use perfect_weather_predicti.O1js.Concrete.{concrete, concrete-IsLawful}
use perfect_weather_predicti.O1js.Witnesses.{check_witness}
use perfect_weather_predicti.MarketTypes.{
  MarketLeaf, WeatherOracleStatement, hash_market, digest_of, assert_new_market, assert_open,
  assert_same_config, assert_totals_grow, assert_resolution, assert_statement,
}
use perfect_weather_predicti.MarketTypes.Facts.{IsWellFormed}
use perfect_weather_predicti.Payout.{payout_nanomina, payout_tmina, winning_pool}
use perfect_weather_predicti.Samples.{
  fresh, one_bet, two_bets, statement, settled, alice_key, alice, markets_with, no_map,
}
use perfect_weather_predicti.FastContract.{
  FastState, FastOutcome, init, create_market, place_receipt_bet, resolve_weather_market,
  claim_receipt_payout, receipt_commitment_of, assert_winning_receipt,
}
use perfect_weather_predicti.FastContract.Ledger.{Ledger, empty_ledger, Acts, Represents}
use perfect_weather_predicti.FastContract.Calls.{
  Call, created, bet, resolved, Calls, start, call, reachable-Acts,
}
use perfect_weather_predicti.FastContract.Lifecycle.{Follows}
use perfect_weather_predicti.FastContract.Guarantees.{
  reachable_market-IsWellFormed, reachable_market-Follows, claim_rejected_after_claim,
  resolution_rejected_after_nonce,
}
open concrete use {
  MerkleMap, MerkleMapWitness, PublicKey, get, set, empty_map, get_witness, hash, to_fields,
}

abbrev outcome_or : Option (FastOutcome concrete) → FastState → FastOutcome concrete
outcome_or none s = record { state = s; events = []; sends = [] }
outcome_or (some out) s = out

abbrev commitment : ℕ
commitment = receipt_commitment_of concrete 1 30 30 alice 9

abbrev calls_create : FastState → Option (FastOutcome concrete)
calls_create = create_market concrete 1 fresh (get_witness no_map 1)

-- 30 tMINA over, under receipt key 2.
abbrev calls_bet : FastState → Option (FastOutcome concrete)
calls_bet =
    place_receipt_bet concrete 1 fresh one_bet (get_witness (markets_with fresh) 1) 2 commitment
      (get_witness no_map 2) alice

abbrev receipts_1 : MerkleMap
receipts_1 = set no_map 2 commitment

-- 10 tMINA under, under receipt key 3, with a commitment that nobody opens.
abbrev calls_bet_under : FastState → Option (FastOutcome concrete)
calls_bet_under =
    place_receipt_bet concrete 1 one_bet two_bets (get_witness (markets_with one_bet) 1) 3 77
      (get_witness receipts_1 3) 8

abbrev receipts_2 : MerkleMap
receipts_2 = set receipts_1 3 77

abbrev calls_resolve : FastState → Option (FastOutcome concrete)
calls_resolve =
    resolve_weather_market concrete 1 two_bets settled (get_witness (markets_with two_bets) 1)
      statement (get_witness no_map 1)

abbrev calls_claim : FastState → Option (FastOutcome concrete)
calls_claim =
    claim_receipt_payout concrete 1 settled (get_witness (markets_with settled) 1) 2 commitment
      (get_witness receipts_2 2) (get_witness no_map 2) alice_key 30 30 alice 9

abbrev s0 : FastState
s0 = init concrete

abbrev out1 : FastOutcome concrete
out1 = outcome_or (calls_create s0) s0

abbrev out2 : FastOutcome concrete
out2 = outcome_or (calls_bet out1.state) s0

abbrev out3 : FastOutcome concrete
out3 = outcome_or (calls_bet_under out2.state) s0

abbrev out4 : FastOutcome concrete
out4 = outcome_or (calls_resolve out3.state) s0

abbrev out5 : FastOutcome concrete
out5 = outcome_or (calls_claim out4.state) s0

-- Everything that a run computes with.
ran : Unit {0}
unfolding create_market place_receipt_bet resolve_weather_market claim_receipt_payout init concrete
    check_witness hash_market digest_of assert_new_market assert_open assert_same_config
    assert_totals_grow assert_resolution assert_statement assert_winning_receipt payout_nanomina
    payout_tmina winning_pool receipt_commitment_of
ran = tt

step1 : calls_create s0 ≡ some out1
unfolding ran
step1 = refl

step2 : calls_bet out1.state ≡ some out2
unfolding ran
step2 = refl

step3 : calls_bet_under out2.state ≡ some out3
unfolding ran
step3 = refl

step4 : calls_resolve out3.state ≡ some out4
unfolding ran
step4 = refl

step5 : calls_claim out4.state ≡ some out5
unfolding ran
step5 = refl

-- The winner is paid the whole pot of 40 tMINA.
claim_pays_pot : out5.sends ≡ (alice_key, 40_000_000_000) ∷ []
unfolding ran
claim_pays_pot = refl

-- The same claim a second time.
claim_again : calls_claim out5.state ≡ none
unfolding ran
claim_again = refl

run1 : Calls concrete s0 out1.state
run1 = call out1 start (created 1 fresh (get_witness no_map 1) step1) refl

run2 : Calls concrete s0 out2.state
run2 =
    call out2 run1
      (bet 1 fresh one_bet (get_witness (markets_with fresh) 1) 2 commitment (get_witness no_map 2)
        alice step2)
      refl

run3 : Calls concrete s0 out3.state
run3 =
    call out3 run2
      (bet 1 one_bet two_bets (get_witness (markets_with one_bet) 1) 3 77 (get_witness receipts_1 3)
        8 step3)
      refl

resolves3 : Call concrete out3.state out4
resolves3 =
    resolved 1 two_bets settled (get_witness (markets_with two_bets) 1) statement
      (get_witness no_map 1) step4

run4 : Calls concrete s0 out4.state
run4 = call out4 run3 resolves3 refl

opens_two_bets :
    check_witness concrete
      (get_witness (markets_with two_bets) 1)
      (hash_market concrete two_bets)
      out3.state.markets_root
      1
    ≡ some tt
unfolding ran
opens_two_bets = refl

opens_settled :
    check_witness concrete
      (get_witness (markets_with settled) 1)
      (hash_market concrete settled)
      out4.state.markets_root
      1
    ≡ some tt
unfolding ran
opens_settled = refl
