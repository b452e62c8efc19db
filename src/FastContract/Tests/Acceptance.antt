-- ===== src/FastContract/Tests/Acceptance.antt =====
-- Accepted calls and claims at the run of the parent module.
use perfect_weather_predicti.Prelude.{
  ℕ, ◌*◌, ◌/◌, ◌+◌, ◌<◌, ◌≡◌, refl, true, some, [], ◌∷◌, arith, inl,
}
use perfect_weather_predicti.O1js.Concrete.{concrete, concrete-IsLawful}
use perfect_weather_predicti.O1js.{uint64_mod}
use perfect_weather_predicti.MarketTypes.{hash_market}
use perfect_weather_predicti.Payout.{nanomina_per_tmina}
use perfect_weather_predicti.FastContract.{
  FastOutcome, place_receipt_bet, resolve_weather_market, claim_receipt_payout,
  receipt_commitment_of, init,
}
use perfect_weather_predicti.FastContract.Ledger.{Ledger, Represents}
use perfect_weather_predicti.FastContract.Acceptance.{
  with_result, chosen_statement, resolve_weather_market_accepts, claim_receipt_payout_accepts,
}
use perfect_weather_predicti.FastContract.Claims.{
  claim_receipt_payout_effect, receipt_commitment_binds, receipt_without_stake,
}
use perfect_weather_predicti.Samples.{fresh, settled, alice_key, alice, markets_with, no_map}
use perfect_weather_predicti.FastContract.Tests.{
  ran, commitment, receipts_2, s0, out1, out4, out5, step5,
}
open concrete use {get, get_witness, MerkleMap}

abbrev ledger : MerkleMap → MerkleMap → Ledger concrete
ledger markets receipts = record {
  markets = markets;
  receipts = receipts;
  claimed = no_map;
  nonces = no_map;
}

out1-Represents : Represents concrete out1.state (ledger (markets_with fresh) no_map)
unfolding ran
out1-Represents = record { markets = refl; receipts = refl; claimed = refl; nonces = refl }

out4-Represents :
    Represents concrete out4.state
      (record (ledger (markets_with settled) receipts_2) { nonces = concrete.set no_map 1 1 })
unfolding ran
out4-Represents = record { markets = refl; receipts = refl; claimed = refl; nonces = refl }

listed_fresh : get (markets_with fresh) 1 ≡ hash_market concrete fresh
unfolding ran
listed_fresh = refl

absent : (k : ℕ) → get no_map k ≡ 0
absent k = concrete-IsLawful.get-empty_map k

room : s0.market_count + 1 < uint64_mod
unfolding init
room = omega arith

resolve_weather_market_accepts_example :
    let oracle = chosen_statement concrete 1 0 0 fresh true 12 1 in
    let leaf = with_result fresh oracle in
    (out : FastOutcome concrete) × (resolve_weather_market concrete 1 fresh leaf
        (get_witness (markets_with fresh) 1)
        oracle
        (get_witness no_map 1)
        out1.state
      ≡ some out)
    × (oracle.observed_value_tenth_c < uint64_mod)
    × Represents concrete out.state (record (ledger (markets_with fresh) no_map) {
      markets = concrete.set (markets_with fresh) 1 (hash_market concrete leaf);
      nonces = concrete.set no_map 1 1;
    })
unfolding ran
resolve_weather_market_accepts_example =
    resolve_weather_market_accepts concrete concrete-IsLawful out1.state
      (ledger (markets_with fresh) no_map) out1-Represents 1 fresh true 12 1 listed_fresh refl refl
      (omega arith) (omega arith) (omega arith) (absent 1)

listed_settled : get (markets_with settled) 1 ≡ hash_market concrete settled
unfolding ran
listed_settled = refl

committed_2 : get receipts_2 2 ≡ commitment
unfolding ran
committed_2 = refl

claim_receipt_payout_accepts_example :
    (out : FastOutcome concrete) × (claim_receipt_payout concrete 1 settled
        (get_witness (markets_with settled) 1)
        2
        commitment
        (get_witness receipts_2 2)
        (get_witness no_map 2)
        alice_key
        30
        30
        alice
        9
        out4.state
      ≡ some out)
    × (out.sends ≡ (alice_key, 40 * nanomina_per_tmina) ∷ [])
claim_receipt_payout_accepts_example =
    claim_receipt_payout_accepts concrete concrete-IsLawful out4.state
      (record (ledger (markets_with settled) receipts_2) { nonces = concrete.set no_map 1 1 })
      out4-Represents 1 settled 2 alice_key 30 30 9 40 listed_settled refl committed_2 (absent 2)
      (inl refl) refl (omega arith) (omega arith)

claim_receipt_payout_effect_example :
    (settled.resolved ≡ true)
    × (out5.sends ≡ (alice_key, ((40 * 30) / 30) * nanomina_per_tmina) ∷ [])
    × (record out5.state { claimed_receipts_root = out4.state.claimed_receipts_root } ≡ out4.state)
claim_receipt_payout_effect_example =
    claim_receipt_payout_effect concrete concrete-IsLawful 1 settled
      (get_witness (markets_with settled) 1) 2 commitment (get_witness receipts_2 2)
      (get_witness no_map 2) alice_key 30 30 alice 9 out4.state out5 step5

receipt_commitment_binds_example :
    (◌≡◌ {A = ℕ} 1 1)
    × (alice_key ≡ alice_key)
    × (◌≡◌ {A = ℕ} 30 30)
    × (◌≡◌ {A = ℕ} 30 30)
    × (◌≡◌ {A = ℕ} 9 9)
receipt_commitment_binds_example =
    receipt_commitment_binds concrete concrete-IsLawful 1 settled
      (get_witness (markets_with settled) 1) 2 commitment (get_witness receipts_2 2)
      (get_witness no_map 2) alice_key 30 30 alice 9 out4.state out5 1 settled
      (get_witness (markets_with settled) 1) 2 (get_witness receipts_2 2) (get_witness no_map 2)
      alice_key 30 30 alice 9 out4.state out5 step5 step5

-- A receipt for 1000 tMINA on a market that holds none.
receipt_without_stake_example :
    (out : FastOutcome concrete) × (place_receipt_bet concrete 1 fresh fresh
        (get_witness (markets_with fresh) 1)
        2
        (receipt_commitment_of concrete 1 1000 1000 alice 9)
        (get_witness no_map 2)
        alice
        out1.state
      ≡ some out)
receipt_without_stake_example =
    receipt_without_stake concrete concrete-IsLawful out1.state (ledger (markets_with fresh) no_map)
      1 fresh 2 alice 1000 1000 9 out1-Represents listed_fresh (ground arith) refl (absent 2)
