-- ===== src/Payout/Solvency.antt =====
-- The claims of all the winners of one market, against its pot.
use perfect_weather_predicti.Prelude.{
  ℕ, ◌+◌, ◌*◌, ◌≤◌, ◌<◌, ◌≡◌, refl, Bool, Option, some, none, List, [], ◌∷◌, sum, length, arith,
  inl, inr, Option-cases, dec_lt,
}
use perfect_weather_predicti.O1js.{O1js, IsLawful, uint64_mod}
use perfect_weather_predicti.MarketTypes.{MarketLeaf}
use perfect_weather_predicti.Payout.{payout_tmina, payout_nanomina_for_stake}
use perfect_weather_predicti.Payout.Bounds.{pool_of, payout_tmina_facts, payout_tmina-eq-server}
use perfect_weather_predicti.Payout.Division.{div-mul-le, lt-div-mul, le_of_mul}

-- What a claim pays: nothing if it is rejected.
abbrev pub paid : Option ℕ → ℕ
paid none = 0
paid (some payout) = payout

module _ (o : O1js) where
  -- What the claims of these stakes pay together, in tMINA.
  pub total_paid : Bool → MarketLeaf → List ℕ → ℕ
  total_paid side m [] = 0
  total_paid side m (stake ∷ stakes) = paid (payout_tmina o side m stake) + total_paid side m stakes

  module _ (l : IsLawful o) (side : Bool) (m : MarketLeaf) where
    paid-mul-le :
        (stake : ℕ)
        → paid (payout_tmina o side m stake) * pool_of side m ≤ m.total_position_bet * stake
    paid-mul-le stake = elim (Option-cases (payout_tmina o side m stake)) [
      | inl rejected ↦ rw rejected (omega arith)
      | inr (payout, e) ↦
          rw (e, (payout_tmina_facts o l side m stake payout e).payout_eq)
            (div-mul-le (m.total_position_bet * stake) (pool_of side m))
    ]

    lt-paid-mul :
        (stake : ℕ)
        → 0 < pool_of side m
        → m.total_yes_position_bet ≤ m.total_position_bet
        → m.total_position_bet * stake < uint64_mod
        → m.total_position_bet * stake
          < paid (payout_tmina o side m stake) * pool_of side m + pool_of side m
    unfolding payout_nanomina_for_stake
    lt-paid-mul stake p within fits = ground (
      arith,
      payout_tmina-eq-server o l side m stake within fits,
      lt-div-mul (m.total_position_bet * stake) (pool_of side m) p,
    )

    total_paid-mul-le :
        (stakes : List ℕ)
        → total_paid side m stakes * pool_of side m ≤ m.total_position_bet * sum stakes
    unfolding total_paid
    total_paid-mul-le [] = grind arith
    total_paid-mul-le (stake ∷ stakes) = grind (arith, paid-mul-le stake, total_paid-mul-le stakes)

    le-total_paid-mul :
        (stakes : List ℕ)
        → 0 < pool_of side m
        → m.total_yes_position_bet ≤ m.total_position_bet
        → m.total_position_bet * sum stakes < uint64_mod
        → m.total_position_bet * sum stakes
          ≤ (total_paid side m stakes + length stakes) * pool_of side m
    unfolding total_paid
    le-total_paid-mul [] p within fits = grind arith
    le-total_paid-mul (stake ∷ stakes) p within fits = grind (
      arith,
      lt-paid-mul stake p within (grind arith),
      le-total_paid-mul stakes p within (grind arith),
    )

    -- A market with an empty winning pool pays nothing.
    total_paid_empty_pool : (stakes : List ℕ) → pool_of side m ≡ 0 → total_paid side m stakes ≡ 0
    unfolding total_paid
    total_paid_empty_pool [] e = refl
    total_paid_empty_pool (stake ∷ stakes) e = elim (Option-cases (payout_tmina o side m stake)) [
      | inl rejected ↦ rw rejected (omega (arith, total_paid_empty_pool stakes e))
      | inr (payout, q) ↦
          absurd (omega (arith, (payout_tmina_facts o l side m stake payout q).pool_pos))
    ]

    -- Whatever the order and number of the claims, stakes that fit into the winning pool are paid at
    -- most the pot together.
    pub total_paid-le :
        (stakes : List ℕ)
        → sum stakes ≤ pool_of side m
        → total_paid side m stakes ≤ m.total_position_bet
    total_paid-le stakes h = elim (dec_lt 0 (pool_of side m)) [
      | yes p ↦
          le_of_mul (total_paid side m stakes) m.total_position_bet (pool_of side m) p
            (grind (arith, total_paid-mul-le stakes))
      | no p ↦ omega (arith, total_paid_empty_pool stakes (omega arith))
    ]

    -- If the winners are the whole winning pool, at most one tMINA for each of them stays behind,
    -- lost to rounding.
    pub le-total_paid :
        (stakes : List ℕ)
        → 0 < pool_of side m
        → m.total_yes_position_bet ≤ m.total_position_bet
        → m.total_position_bet * sum stakes < uint64_mod
        → sum stakes ≡ pool_of side m
        → m.total_position_bet ≤ total_paid side m stakes + length stakes
    le-total_paid stakes p within fits whole =
        le_of_mul m.total_position_bet (total_paid side m stakes + length stakes) (pool_of side m) p
          (grind (arith, le-total_paid-mul stakes p within fits))
