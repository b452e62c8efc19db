-- ===== src/FastContract/Tests/Recovery.antt =====
-- The maps after the run of the parent module, recovered from its events.
use perfect_weather_predicti.Prelude.{refl, none, List, [], map, ◌++◌, arith}
use perfect_weather_predicti.O1js.Concrete.{concrete, concrete-IsLawful}
use perfect_weather_predicti.O1js.Unary.{unary, unary-IsLawfulText}
use perfect_weather_predicti.StateStore.{
  OperatorState, load_operator_state, build_markets_merkle_map, build_receipts_merkle_map,
  build_claimed_receipts_merkle_map, build_nonce_merkle_map,
}
use perfect_weather_predicti.StateStore.Roundtrip.{IsRanged}
use perfect_weather_predicti.FastContract.{FastEvent}
use perfect_weather_predicti.FastContract.Calls.{created, bet, claimed}
use perfect_weather_predicti.Samples.{
  fresh, one_bet, two_bets, settled, alice_key, alice, markets_with, no_map,
}
use perfect_weather_predicti.Replay.{replay, empty_state}
use perfect_weather_predicti.Replay.Events.{AreRanged}
use perfect_weather_predicti.Replay.Recovery.{Trace, start, call, HasRoot, replay_rebuilds}
use perfect_weather_predicti.Replay.Tests.{fetch_event, fetch_event-IsFetch}
use perfect_weather_predicti.FastContract.Tests.{
  ran, commitment, receipts_1, receipts_2, s0, out1, out2, out3, out4, out5, step1, step2, step3,
  step5, resolves3,
}
open concrete use {get_witness}

ranged1 : AreRanged out1.events
unfolding ran IsRanged
ranged1 = ((omega arith, omega arith, omega arith, omega arith, omega arith), tt)

ranged2 : AreRanged out2.events
unfolding ran IsRanged
ranged2 = ((omega arith, omega arith, omega arith, omega arith, omega arith), (tt, tt))

ranged3 : AreRanged out3.events
unfolding ran IsRanged
ranged3 = ((omega arith, omega arith, omega arith, omega arith, omega arith), (tt, tt))

ranged4 : AreRanged out4.events
unfolding ran IsRanged
ranged4 = ((omega arith, omega arith, omega arith, omega arith, omega arith), tt)

ranged5 : AreRanged out5.events
unfolding ran
ranged5 = (tt, tt)

abbrev pub all_events : List FastEvent
all_events = ((((([] ++ out1.events) ++ out2.events) ++ out3.events) ++ out4.events) ++ out5.events)

trace2 : Trace concrete s0 (([] ++ out1.events) ++ out2.events) out2.state
trace2 =
    call out2 (call out1 start (created 1 fresh (get_witness no_map 1) step1) ranged1 refl)
      (bet 1 fresh one_bet (get_witness (markets_with fresh) 1) 2 commitment (get_witness no_map 2)
        alice step2)
      ranged2 refl

trace4 :
    Trace concrete s0
      (((([] ++ out1.events) ++ out2.events) ++ out3.events) ++ out4.events)
      out4.state
trace4 =
    call out4
      (call out3 trace2
        (bet 1 one_bet two_bets (get_witness (markets_with one_bet) 1) 3 77
          (get_witness receipts_1 3) 8 step3)
        ranged3 refl)
      resolves3 ranged4 refl

pub trace5 : Trace concrete s0 all_events out5.state
trace5 =
    call out5 trace4
      (claimed 1 settled (get_witness (markets_with settled) 1) 2 commitment
        (get_witness receipts_2 2) (get_witness no_map 2) alice_key 30 30 alice 9 step5)
      ranged5 refl

no_file : OperatorState
no_file = load_operator_state none

abbrev recovered : OperatorState
recovered = replay unary (map fetch_event all_events) (empty_state none no_file)

replay_rebuilds_example :
    HasRoot concrete (build_markets_merkle_map unary concrete recovered) out5.state.markets_root
    × HasRoot concrete (build_receipts_merkle_map unary concrete recovered) out5.state.receipts_root
    × HasRoot concrete
        (build_claimed_receipts_merkle_map unary concrete recovered)
        out5.state.claimed_receipts_root
    × HasRoot concrete
        (build_nonce_merkle_map unary concrete recovered)
        out5.state.used_oracle_nonce_root
replay_rebuilds_example =
    replay_rebuilds concrete concrete-IsLawful unary unary-IsLawfulText fetch_event
      fetch_event-IsFetch none no_file all_events out5.state trace5
