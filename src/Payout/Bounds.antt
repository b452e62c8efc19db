-- ===== src/Payout/Bounds.antt =====
-- When a payout is computed, and between which bounds it lies.
use perfect_weather_predicti.Prelude.{
  ℕ, ◌-◌, ◌*◌, ◌/◌, ◌≤◌, ◌<◌, ◌≡◌, ◌↔◌, Bool, some, none, arith, ◌==◌, if◌then◌else◌, >>=-eq-some,
  dec_le,
}
use perfect_weather_predicti.O1js.{O1js, IsLawful, uint64_mod}
use perfect_weather_predicti.MarketTypes.{MarketLeaf}
use perfect_weather_predicti.Payout.Division.{share-le, le-share, lt-share}
use perfect_weather_predicti.Payout.{
  nanomina_per_tmina, winning_pool, payout_tmina, payout_nanomina, payout_nanomina_for_stake,
}

-- What the winners share.
abbrev pub pool_of : Bool → MarketLeaf → ℕ
pool_of side m =
    if side then m.total_yes_position_bet else m.total_position_bet - m.total_yes_position_bet

-- When and with what value a payout in tMINA is computed.
pub record PaysTmina (side : Bool) (m : MarketLeaf) (stake payout : ℕ) : Type 0 where
  pub yes_within : m.total_yes_position_bet ≤ m.total_position_bet
  pub pool_pos : 0 < pool_of side m
  pub fits : m.total_position_bet * stake < uint64_mod
  pub payout_eq : payout ≡ (m.total_position_bet * stake) / pool_of side m
  pub payout_pos : 0 < payout

module _ (o : O1js) (l : IsLawful o) where
  pub payout_tmina_facts :
      (side : Bool) (m : MarketLeaf) (stake payout : ℕ)
      → payout_tmina o side m stake ≡ some payout
      → PaysTmina side m stake payout
  unfolding payout_tmina winning_pool
  payout_tmina_facts side m stake payout h = ground (
    arith,
    l.sub_lem m.total_position_bet m.total_yes_position_bet,
    l.mul_lem m.total_position_bet stake,
    l.div_lem (m.total_position_bet * stake) (pool_of side m),
  )

  pub payout_tmina_computes :
      (side : Bool) (m : MarketLeaf) (stake payout : ℕ)
      → PaysTmina side m stake payout
      → payout_tmina o side m stake ≡ some payout
  unfolding payout_tmina winning_pool
  payout_tmina_computes side m stake payout h = ground (
    arith,
    l.sub_lem m.total_position_bet m.total_yes_position_bet,
    l.mul_lem m.total_position_bet stake,
    l.div_lem (m.total_position_bet * stake) (pool_of side m),
  )

  -- The server's formula and the circuit agree: within 64 bits and with a leaf whose part is within
  -- the whole, the circuit computes exactly the server's payout, and rejects exactly a payout of 0.
  pub payout_tmina-eq-server :
      (side : Bool) (m : MarketLeaf) (stake : ℕ)
      → m.total_yes_position_bet ≤ m.total_position_bet
      → m.total_position_bet * stake < uint64_mod
      → let payout =
          payout_nanomina_for_stake m.total_position_bet m.total_yes_position_bet side stake in
        payout_tmina o side m stake ≡ (if payout == 0 then none else some payout)
  unfolding payout_tmina winning_pool payout_nanomina_for_stake
  payout_tmina-eq-server side m stake within fits = ground (
    arith,
    l.sub_lem m.total_position_bet m.total_yes_position_bet,
    l.mul_lem m.total_position_bet stake,
    l.div_lem (m.total_position_bet * stake) (pool_of side m),
  )

  -- A winner whose stake lies in the winning pool gets the stake back at least, and the pot at most.
  pub payout_tmina_bounds :
      (side : Bool) (m : MarketLeaf) (stake payout : ℕ)
      → stake ≤ pool_of side m
      → payout_tmina o side m stake ≡ some payout
      → (stake ≤ payout) × (payout ≤ m.total_position_bet)
  payout_tmina_bounds side m stake payout within h =
      let f = payout_tmina_facts side m stake payout h in
      ground (
        arith,
        f,
        le-share m.total_position_bet stake (pool_of side m) f.pool_pos,
        share-le m.total_position_bet stake (pool_of side m) f.pool_pos within,
      )

  -- A payout lies within the pot exactly when its stake lies within the winning pool: the circuit
  -- itself does not compare the two.
  pub payout_within_pot_iff :
      (side : Bool) (m : MarketLeaf) (stake payout : ℕ)
      → payout_tmina o side m stake ≡ some payout
      → (payout ≤ m.total_position_bet) ↔ (stake ≤ pool_of side m)
  payout_within_pot_iff side m stake payout h =
      let f = payout_tmina_facts side m stake payout h in
      let pool_le : pool_of side m ≤ m.total_position_bet = ground (arith, f) in
      (
        λ within. elim (dec_le stake (pool_of side m)) [
          | yes fits ↦ fits
          | no over ↦ absurd (
              omega (
                arith,
                f.payout_eq,
                within,
                lt-share m.total_position_bet stake (pool_of side m) f.pool_pos pool_le
                    (omega arith),
              ))
        ],
        λ fits. (payout_tmina_bounds side m stake payout fits h).1,
      )

  -- What is sent is the payout in nanomina, and fits 64 bits.
  pub payout_nanomina_facts :
      (side : Bool) (m : MarketLeaf) (stake amount : ℕ)
      → payout_nanomina o side m stake ≡ some amount
      → (payout : ℕ) × PaysTmina side m stake payout
        × (amount ≡ payout * nanomina_per_tmina)
        × (amount < uint64_mod)
  unfolding payout_nanomina
  payout_nanomina_facts side m stake amount h =
      let (payout, p, q) = >>=-eq-some (payout_tmina o side m stake) _ h in
      (
        payout,
        payout_tmina_facts side m stake payout p,
        ground (arith, l.mul_lem payout nanomina_per_tmina),
        ground (arith, l.mul_lem payout nanomina_per_tmina),
      )

  pub payout_nanomina_computes :
      (side : Bool) (m : MarketLeaf) (stake payout : ℕ)
      → PaysTmina side m stake payout
      → payout * nanomina_per_tmina < uint64_mod
      → payout_nanomina o side m stake ≡ some (payout * nanomina_per_tmina)
  unfolding payout_nanomina
  payout_nanomina_computes side m stake payout p fits =
      ground
        (arith, payout_tmina_computes side m stake payout p, l.mul_lem payout nanomina_per_tmina)
