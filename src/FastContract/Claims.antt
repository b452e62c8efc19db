-- ===== src/FastContract/Claims.antt =====
-- What a claim pays, whom, and how far the receipt backs it (src/fast-contract.ts).
use perfect_weather_predicti.Prelude.{
  ℕ, ◌*◌, ◌/◌, ◌≡◌, refl, sym, ◌∙◌, ap, Bool, true, false, some, [], ◌∷◌, arith, ◌==◌, inl, inr,
  Option-cases,
}
use perfect_weather_predicti.O1js.{O1js, IsLawful}
use perfect_weather_predicti.MarketTypes.{MarketLeaf, hash_market}
use perfect_weather_predicti.MarketTypes.Facts.{IsWellFormed}
use perfect_weather_predicti.Payout.{nanomina_per_tmina, payout_nanomina}
use perfect_weather_predicti.Payout.Bounds.{pool_of, payout_nanomina_facts}
use perfect_weather_predicti.FastContract.{
  FastState, FastOutcome, place_receipt_bet, claim_receipt_payout, receipt_commitment_of,
}
use perfect_weather_predicti.FastContract.Ledger.{Ledger, Represents}
use perfect_weather_predicti.FastContract.Simulation.{WinningReceipt, assert_winning_receipt_facts}
use perfect_weather_predicti.FastContract.Acceptance.{place_receipt_bet_accepts, with_bet}

module _ (o : O1js) (l : IsLawful o) where
  open o use {PublicKey, MerkleMapWitness, to_fields, hash, get, get_witness}

  -- An accepted claim is of a resolved market, makes one payment, to the claimant, of the stake's
  -- share of the pot in nanomina, and leaves markets, receipts, nonces, policy and counter as they
  -- were.
  pub claim_receipt_payout_effect :
      (key : ℕ) (m : MarketLeaf) (w : MerkleMapWitness) (receipt commitment : ℕ)
      → (rw' cw : MerkleMapWitness) (claimant : PublicKey)
      → (total_bet yes_bet owner salt : ℕ) (s : FastState) (out : FastOutcome o)
      → claim_receipt_payout o key m w receipt commitment rw' cw claimant total_bet yes_bet owner
          salt s
        ≡ some out
      → (m.resolved ≡ true)
        × (out.sends
            ≡ (
              claimant,
              ((m.total_position_bet * total_bet) / pool_of m.outcome m) * nanomina_per_tmina,
            )
              ∷ [])
        × (record out.state { claimed_receipts_root = s.claimed_receipts_root } ≡ s)
  unfolding claim_receipt_payout
  claim_receipt_payout_effect key m w receipt commitment rw' cw claimant total_bet yes_bet owner
        salt s out h =
      elim (Option-cases (payout_nanomina o (yes_bet == total_bet) m total_bet)) [
        | inl no_payout ↦ absurd (ground arith)
        | inr (amount, e) ↦
            let (payout, pays, amount_eq, _) =
              payout_nanomina_facts o l (yes_bet == total_bet) m total_bet amount e in
            let winning =
              assert_winning_receipt_facts o key m commitment claimant total_bet yes_bet owner
                salt in
            let won : (yes_bet == total_bet) ≡ m.outcome = ground (arith, winning) in
            let share =
              pays.payout_eq
              ∙ ap (λ (b : Bool). (m.total_position_bet * total_bet) / pool_of b m) won in
            let sent : out.sends ≡ (claimant, amount) ∷ [] = ground arith in
            (
              ground arith,
              sent ∙ ap (λ (a : ℕ). (claimant, a) ∷ []) (rw (amount_eq, share)),
              ground arith,
            )
      ]

  claim_receipt_payout_winning :
      (key : ℕ) (m : MarketLeaf) (w : MerkleMapWitness) (receipt commitment : ℕ)
      → (rw' cw : MerkleMapWitness) (claimant : PublicKey)
      → (total_bet yes_bet owner salt : ℕ) (s : FastState) (out : FastOutcome o)
      → claim_receipt_payout o key m w receipt commitment rw' cw claimant total_bet yes_bet owner
          salt s
        ≡ some out
      → WinningReceipt o key m commitment claimant total_bet yes_bet owner salt
  unfolding claim_receipt_payout
  claim_receipt_payout_winning key m w receipt commitment rw' cw claimant total_bet yes_bet owner
        salt s out h =
      ground (
        arith,
        assert_winning_receipt_facts o key m commitment claimant total_bet yes_bet owner salt,
      )

  receipt_commitment_injective :
      (a b c d e a' b' c' d' e' : ℕ)
      → receipt_commitment_of o a b c d e ≡ receipt_commitment_of o a' b' c' d' e'
      → (a ≡ a') × (b ≡ b') × (c ≡ c') × (d ≡ d') × (e ≡ e')
  unfolding receipt_commitment_of
  receipt_commitment_injective a b c d e a' b' c' d' e' h =
      ground (arith, l.hash_injective (a ∷ b ∷ c ∷ d ∷ e ∷ []) (a' ∷ b' ∷ c' ∷ d' ∷ e' ∷ []) refl h)

  -- A commitment stands for one claim: two accepted claims of receipts with the same commitment, in
  -- any states and under any receipt keys, name the same market, claimant, stake, side and salt.
  pub receipt_commitment_binds :
      (key : ℕ) (m : MarketLeaf) (w : MerkleMapWitness) (receipt commitment : ℕ)
      → (rw' cw : MerkleMapWitness) (claimant : PublicKey)
      → (total_bet yes_bet owner salt : ℕ) (s : FastState) (out : FastOutcome o)
      → (key' : ℕ) (m' : MarketLeaf) (w' : MerkleMapWitness) (receipt' : ℕ)
      → (rw'' cw' : MerkleMapWitness) (claimant' : PublicKey)
      → (total_bet' yes_bet' owner' salt' : ℕ) (s' : FastState) (out' : FastOutcome o)
      → claim_receipt_payout o key m w receipt commitment rw' cw claimant total_bet yes_bet owner
          salt s
        ≡ some out
      → claim_receipt_payout o key' m' w' receipt' commitment rw'' cw' claimant' total_bet' yes_bet'
          owner' salt' s'
        ≡ some out'
      → (key ≡ key')
        × (claimant ≡ claimant')
        × (total_bet ≡ total_bet')
        × (yes_bet ≡ yes_bet')
        × (salt ≡ salt')
  unfolding claim_receipt_payout
  receipt_commitment_binds key m w receipt commitment rw' cw claimant total_bet yes_bet owner salt s
        out key' m' w' receipt' rw'' cw' claimant' total_bet' yes_bet' owner' salt' s' out' h h' =
      let p =
        claim_receipt_payout_winning key m w receipt commitment rw' cw claimant total_bet yes_bet
          owner salt s out h in
      let q =
        claim_receipt_payout_winning key' m' w' receipt' commitment rw'' cw' claimant' total_bet'
          yes_bet' owner' salt' s' out' h' in
      let same =
        receipt_commitment_injective key total_bet yes_bet owner salt key' total_bet' yes_bet'
          owner' salt' (p.committed ∙ sym q.committed) in
      let claimants = l.to_fields_injective claimant claimant' (
        l.hash_injective (to_fields claimant) (to_fields claimant')
          (l.length-to_fields claimant claimant') (sym p.owned ∙ same.3 ∙ q.owned)) in
      (same.0, claimants, same.1, same.2, same.4)

  -- A receipt needs no stake: under a free receipt key a bet that leaves an open market exactly as
  -- it is, totals included, is accepted with a commitment to any stake at all.
  pub receipt_without_stake :
      (s : FastState) (g : Ledger o) (key : ℕ) (m : MarketLeaf)
      → (receipt owner total_bet yes_bet salt : ℕ) → Represents o s g
      → get g.markets key ≡ hash_market o m
      → IsWellFormed m
      → m.resolved ≡ false
      → get g.receipts receipt ≡ 0
      → (out : FastOutcome o) × (place_receipt_bet o key m m
            (get_witness g.markets key)
            receipt
            (receipt_commitment_of o key total_bet yes_bet owner salt)
            (get_witness g.receipts receipt)
            owner
            s
          ≡ some out)
  receipt_without_stake s g key m receipt owner total_bet yes_bet salt r listed w u free =
      let c = receipt_commitment_of o key total_bet yes_bet owner salt in
      let same : with_bet m 0 0 ≡ m = ground arith in
      rw same at (
        place_receipt_bet_accepts o l s g r key m 0 0 receipt c owner listed w u (omega arith) free)
