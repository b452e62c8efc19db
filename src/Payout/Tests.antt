-- ===== src/Payout/Tests.antt =====
-- The payout theorems at a market of 100 tMINA, 40 of them over, that ended over.
use perfect_weather_predicti.Prelude.{
  ◌≤◌, ◌≡◌, refl, true, false, none, some, [], ◌∷◌, arith, ◌==◌, if◌then◌else◌,
}
use perfect_weather_predicti.O1js.Concrete.{concrete, concrete-IsLawful}
use perfect_weather_predicti.MarketTypes.{MarketLeaf}
use perfect_weather_predicti.Payout.{payout_tmina, winning_pool, payout_nanomina_for_stake}
use perfect_weather_predicti.Payout.Bounds.{payout_tmina-eq-server}
use perfect_weather_predicti.Payout.Solvency.{total_paid, total_paid-le}

abbrev market : MarketLeaf
market = record {
  config_hash = 7;
  close_slot = 10;
  expiry_slot = 20;
  threshold_value_tenth_c = 250;
  total_position_bet = 100;
  total_yes_position_bet = 40;
  resolved = true;
  outcome = true;
  oracle_statement_hash = 1;
}

-- 7 of 40 in a pot of 100: 17.5, rounded down.
payout_of_7 : payout_tmina concrete true market 7 ≡ some 17
unfolding payout_tmina winning_pool concrete
payout_of_7 = refl

-- A stake that rounds to nothing is not paid, nor is a division by an empty pool made.
no_payout :
    (payout_tmina concrete true market 0 ≡ none)
    × (payout_tmina concrete true (record market { total_yes_position_bet = 0 }) 5 ≡ none)
unfolding payout_tmina winning_pool concrete
no_payout = (refl, refl)

-- On the server an inverted market, whose part exceeds the whole, pays nothing.
inverted : payout_nanomina_for_stake 3 5 false 1 ≡ 0
unfolding payout_nanomina_for_stake
inverted = refl

payout_tmina-eq-server_example :
    let payout = payout_nanomina_for_stake 100 40 true 7 in
    payout_tmina concrete true market 7 ≡ (if payout == 0 then none else some payout)
payout_tmina-eq-server_example =
    payout_tmina-eq-server concrete concrete-IsLawful true market 7 (omega arith) (omega arith)

total_paid-le_example : total_paid concrete true market (7 ∷ 13 ∷ 20 ∷ []) ≤ 100
total_paid-le_example =
    total_paid-le concrete concrete-IsLawful true market (7 ∷ 13 ∷ 20 ∷ []) (omega arith)
