-- ===== src/Contract/Tests.antt =====
-- A run of the platform contract on the concrete o1js, and its theorems there: a market is created,
-- two positions are bet on its two sides, the oracle resolves it, and the winner claims.
use perfect_weather_predicti.Prelude.{
  ◌≤◌, ◌≡◌, refl, true, false, Option, none, some, [], ◌∷◌, arith,
}
use perfect_weather_predicti.O1js.Concrete.{concrete, concrete-IsLawful}
use perfect_weather_predicti.O1js.Witnesses.{check_witness}
use perfect_weather_predicti.MarketTypes.{
  hash_market, digest_of, assert_new_market, assert_open, assert_same_config, assert_resolution,
  assert_statement,
}
use perfect_weather_predicti.Payout.{payout_nanomina, payout_tmina, winning_pool}
use perfect_weather_predicti.Payout.Solvency.{total_paid}
use perfect_weather_predicti.Samples.{
  fresh, one_bet, two_bets, statement, settled, alice_key, alice, markets_with, no_map,
}
use perfect_weather_predicti.Contract.{
  PositionLeaf, PlatformState, PlatformOutcome, hash_position, init, create_market,
  place_private_bet, place_claimable_bet, resolve_weather_market, claim_payout,
  emergency_reset_positions, assert_new_position, assert_stake_added, assert_winning_position,
}
use perfect_weather_predicti.Contract.Book.{Book, Represents, as_claimed}
use perfect_weather_predicti.Contract.BackedCalls.{
  BackedCalls, start, call, created, bet, resolved, reset, IsBacked, HasTotals, standing_of,
}
use perfect_weather_predicti.Contract.Backing.{BackedCalls-IsBacked, backed_market_solvent}
use perfect_weather_predicti.Contract.Claims.{position_claimed_once, private_bet_replaces_positions}
open concrete use {MerkleMap, get, set, get_witness}

abbrev outcome_or : Option (PlatformOutcome concrete) → PlatformState → PlatformOutcome concrete
outcome_or none s = record { state = s; events = []; sends = [] }
outcome_or (some out) s = out

abbrev over : PositionLeaf
over = record {
  market_key = 1;
  side_over = true;
  stake = 30;
  owner_commitment = alice;
  claimed = false;
}

abbrev under : PositionLeaf
under = record {
  market_key = 1;
  side_over = false;
  stake = 10;
  owner_commitment = 8;
  claimed = false;
}

abbrev positions_1 : MerkleMap
positions_1 = set no_map 2 (hash_position concrete over)

abbrev positions_2 : MerkleMap
positions_2 = set positions_1 3 (hash_position concrete under)

abbrev calls_create : PlatformState → Option (PlatformOutcome concrete)
calls_create = create_market concrete 1 fresh (get_witness no_map 1)

abbrev calls_bet : PlatformState → Option (PlatformOutcome concrete)
calls_bet =
    place_claimable_bet concrete 1 fresh one_bet (get_witness (markets_with fresh) 1) 2 over
      (get_witness no_map 2)

abbrev calls_bet_under : PlatformState → Option (PlatformOutcome concrete)
calls_bet_under =
    place_claimable_bet concrete 1 one_bet two_bets (get_witness (markets_with one_bet) 1) 3 under
      (get_witness positions_1 3)

abbrev calls_resolve : PlatformState → Option (PlatformOutcome concrete)
calls_resolve =
    resolve_weather_market concrete 1 two_bets settled (get_witness (markets_with two_bets) 1)
      statement (get_witness no_map 1)

abbrev calls_claim : PlatformState → Option (PlatformOutcome concrete)
calls_claim =
    claim_payout concrete 1 settled (get_witness (markets_with settled) 1) 2 over
      (get_witness positions_2 2) alice_key

abbrev s0 : PlatformState
s0 = init concrete

abbrev out1 : PlatformOutcome concrete
out1 = outcome_or (calls_create s0) s0

abbrev out2 : PlatformOutcome concrete
out2 = outcome_or (calls_bet out1.state) s0

abbrev out3 : PlatformOutcome concrete
out3 = outcome_or (calls_bet_under out2.state) s0

abbrev out4 : PlatformOutcome concrete
out4 = outcome_or (calls_resolve out3.state) s0

abbrev out5 : PlatformOutcome concrete
out5 = outcome_or (calls_claim out4.state) s0

abbrev out6 : PlatformOutcome concrete
out6 = outcome_or (emergency_reset_positions concrete true out4.state) s0

-- Everything that a run computes with.
ran : Unit {0}
unfolding create_market place_claimable_bet resolve_weather_market claim_payout
    emergency_reset_positions init concrete check_witness hash_market hash_position digest_of
    assert_new_market assert_open assert_same_config assert_resolution assert_statement
    assert_new_position assert_stake_added assert_winning_position payout_nanomina payout_tmina
    winning_pool
ran = tt

step1 : calls_create s0 ≡ some out1
unfolding ran
step1 = refl

step2 : calls_bet out1.state ≡ some out2
unfolding ran
step2 = refl

step3 : calls_bet_under out2.state ≡ some out3
unfolding ran
step3 = refl

step4 : calls_resolve out3.state ≡ some out4
unfolding ran
step4 = refl

step5 : calls_claim out4.state ≡ some out5
unfolding ran
step5 = refl

step6 : emergency_reset_positions concrete true out4.state ≡ some out6
unfolding ran
step6 = refl

-- The loser's claim is rejected, and so is a position that is marked already.
claims_rejected :
    (claim_payout concrete 1 settled
        (get_witness (markets_with settled) 1)
        3
        under
        (get_witness positions_2 3)
        alice_key
        out4.state
      ≡ none)
    × (claim_payout concrete 1 settled
          (get_witness (markets_with settled) 1)
          2
          (as_claimed over)
          (get_witness positions_2 2)
          alice_key
          out5.state
        ≡ none)
unfolding ran
claims_rejected = (refl, refl)

run4 : BackedCalls concrete s0 out4.state
run4 =
    call out4
      (call out3
        (call out2 (call out1 start (created 1 fresh (get_witness no_map 1) step1) refl)
          (bet 1 fresh one_bet (get_witness (markets_with fresh) 1) 2 over (get_witness no_map 2)
            step2)
          refl)
        (bet 1 one_bet two_bets (get_witness (markets_with one_bet) 1) 3 under
          (get_witness positions_1 3) step3)
        refl)
      (resolved 1 two_bets settled (get_witness (markets_with two_bets) 1) statement
        (get_witness no_map 1) step4)
      refl

-- After the reset no position stands.
none_stands : standing_of concrete (call out6 run4 (reset true step6) refl) ≡ []
none_stands = refl

opens_settled :
    check_witness concrete
      (get_witness (markets_with settled) 1)
      (hash_market concrete settled)
      out4.state.markets_root
      1
    ≡ some tt
unfolding ran
opens_settled = refl

BackedCalls-IsBacked_example :
    (b : Book concrete) × Represents concrete out4.state b
    × IsBacked concrete b ((3, under) ∷ (2, over) ∷ [])
    × (b.bets ≡ (3, under) ∷ (2, over) ∷ [])
unfolding run4
BackedCalls-IsBacked_example = BackedCalls-IsBacked concrete concrete-IsLawful out4.state run4

backed_market_solvent_example :
    HasTotals ((3, under) ∷ (2, over) ∷ []) 1 settled
    × (total_paid concrete true settled (30 ∷ []) ≤ 40)
unfolding run4
backed_market_solvent_example =
    backed_market_solvent concrete concrete-IsLawful out4.state
      (get_witness (markets_with settled) 1) 1 settled true run4 opens_settled

position_claimed_once_example : calls_claim out5.state ≡ none
position_claimed_once_example =
    position_claimed_once concrete concrete-IsLawful out4.state out5.state out5 1 settled
      (get_witness (markets_with settled) 1) 2 over (get_witness positions_2 2) alice_key 1 settled
      (get_witness (markets_with settled) 1) over (get_witness positions_2 2) alice_key run4 step5
      start refl

out1-Represents :
    Represents concrete out1.state
      (record { markets = markets_with fresh; positions = no_map; bets = [] })
unfolding ran
out1-Represents = record { markets = refl; positions = refl }

listed_fresh : get (markets_with fresh) 1 ≡ hash_market concrete fresh
unfolding ran
listed_fresh = refl

private_bet_replaces_positions_example :
    (out : PlatformOutcome concrete) × (place_private_bet concrete 1 fresh fresh
        (get_witness (markets_with fresh) 1)
        666
        0
        out1.state
      ≡ some out)
    × (out.state.positions_root ≡ 666)
private_bet_replaces_positions_example =
    private_bet_replaces_positions concrete concrete-IsLawful out1.state
      (record { markets = markets_with fresh; positions = no_map; bets = [] }) 1 fresh 666 0
      out1-Represents listed_fresh (ground arith) refl
