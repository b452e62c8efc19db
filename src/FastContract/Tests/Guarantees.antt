-- ===== src/FastContract/Tests/Guarantees.antt =====
-- The guarantees at the run of the parent module.
use perfect_weather_predicti.Prelude.{◌≡◌, refl, none}
use perfect_weather_predicti.O1js.Concrete.{concrete, concrete-IsLawful}
use perfect_weather_predicti.MarketTypes.Facts.{IsWellFormed}
use perfect_weather_predicti.FastContract.{claim_receipt_payout}
use perfect_weather_predicti.FastContract.Ledger.{Ledger, empty_ledger, Acts, Represents}
use perfect_weather_predicti.FastContract.Calls.{start, call, reachable-Acts}
use perfect_weather_predicti.FastContract.Lifecycle.{Follows}
use perfect_weather_predicti.FastContract.Guarantees.{
  reachable_market-IsWellFormed, reachable_market-Follows, claim_rejected_after_claim,
  resolution_rejected_after_nonce,
}
use perfect_weather_predicti.Samples.{
  two_bets, statement, settled, alice_key, alice, markets_with, no_map,
}
use perfect_weather_predicti.FastContract.Tests.{
  commitment, receipts_2, calls_resolve, out3, out4, out5, step4, step5, run3, resolves3, run4,
  opens_two_bets, opens_settled,
}
open concrete use {get_witness}

reachable-Acts_example :
    (g : Ledger concrete) × Acts concrete (empty_ledger concrete) g
    × Represents concrete out4.state g
reachable-Acts_example = reachable-Acts concrete concrete-IsLawful out4.state run4

reachable_market-IsWellFormed_example : IsWellFormed settled
reachable_market-IsWellFormed_example =
    reachable_market-IsWellFormed concrete concrete-IsLawful out4.state
      (get_witness (markets_with settled) 1) 1 settled run4 opens_settled

reachable_market-Follows_example : Follows two_bets settled
reachable_market-Follows_example =
    reachable_market-Follows concrete concrete-IsLawful out3.state out4.state
      (get_witness (markets_with two_bets) 1) (get_witness (markets_with settled) 1) 1 two_bets
      settled run3 opens_two_bets (call out4 start resolves3 refl) opens_settled

claim_rejected_after_claim_example :
    claim_receipt_payout concrete 1 settled
      (get_witness (markets_with settled) 1)
      2
      77
      (get_witness receipts_2 2)
      (get_witness no_map 2)
      alice_key
      10
      0
      8
      1
      out5.state
    ≡ none
claim_rejected_after_claim_example =
    claim_rejected_after_claim concrete concrete-IsLawful out4.state out5.state out5 1 settled
      (get_witness (markets_with settled) 1) 2 commitment (get_witness receipts_2 2)
      (get_witness no_map 2) alice_key 30 30 alice 9 1 settled
      (get_witness (markets_with settled) 1) 77 (get_witness receipts_2 2) (get_witness no_map 2)
      alice_key 10 0 8 1 run4 step5 start

resolution_rejected_after_nonce_example : calls_resolve out4.state ≡ none
resolution_rejected_after_nonce_example =
    resolution_rejected_after_nonce concrete concrete-IsLawful out3.state out4.state out4 1 two_bets
      settled (get_witness (markets_with two_bets) 1) statement (get_witness no_map 1) 1 two_bets
      settled (get_witness (markets_with two_bets) 1) statement (get_witness no_map 1) run3 step4
      start refl
