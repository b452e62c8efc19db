-- ===== src/FastContract/Guarantees.antt =====
-- States that accepted calls of the contract of src/fast-contract.ts reach.
use perfect_weather_predicti.Prelude.{ℕ, ◌≡◌, sym, ◌∙◌, none, some, arith, inl, inr, Option-cases}
use perfect_weather_predicti.O1js.{O1js, IsLawful}
use perfect_weather_predicti.O1js.Witnesses.{check_witness, checked_tells}
use perfect_weather_predicti.MarketTypes.{MarketLeaf, WeatherOracleStatement, hash_market}
use perfect_weather_predicti.MarketTypes.Facts.{IsWellFormed}
use perfect_weather_predicti.MarketTypes.Hashing.{hash_market_injective}
use perfect_weather_predicti.FastContract.{
  FastState, FastOutcome, init, resolve_weather_market, claim_receipt_payout,
}
use perfect_weather_predicti.FastContract.Ledger.{Ledger, Represents}
use perfect_weather_predicti.FastContract.Simulation.{
  resolve_weather_market_lem, claim_receipt_payout_lem,
}
use perfect_weather_predicti.FastContract.Calls.{Calls, Calls-Acts, reachable-Acts}
use perfect_weather_predicti.FastContract.Lifecycle.{
  Follows, Acts-claimed, Acts-nonces, Acts-markets,
}
use perfect_weather_predicti.FastContract.Invariant.{Acts-AllWellFormed, listed-IsWellFormed}

module _ (o : O1js) (l : IsLawful o) where
  open o use {PublicKey, MerkleMapWitness, get, set, get_root}

  opens :
      (s : FastState) (g : Ledger o) (w : MerkleMapWitness) (v key : ℕ)
      → Represents o s g
      → check_witness o w v s.markets_root key ≡ some tt
      → get g.markets key ≡ v
  opens s g w v key r h = checked_tells o l w g.markets v key (rw (← r.markets) h)

  -- In every reachable state, a market leaf that a witness opens against the root is well-formed:
  -- its YES total is within its total, its window is not empty, and it has no outcome and no oracle
  -- statement before it is resolved.
  pub reachable_market-IsWellFormed :
      (s : FastState) (w : MerkleMapWitness) (key : ℕ) (m : MarketLeaf)
      → Calls o (init o) s
      → check_witness o w (hash_market o m) s.markets_root key ≡ some tt
      → IsWellFormed m
  reachable_market-IsWellFormed s w key m cs h =
      let (g, acts, r) = reachable-Acts o l s cs in
      listed-IsWellFormed o l g key m (Acts-AllWellFormed o l acts)
        (opens s g w (hash_market o m) key r h)

  -- Let a witness open the market `m` under a key in a reachable state, and another one `m'` under
  -- the same key after any further accepted calls. Then the parameters of the two are the same, the
  -- totals have not fallen, and if `m` was resolved `m'` is `m`.
  pub reachable_market-Follows :
      (s t : FastState) (w w' : MerkleMapWitness) (key : ℕ) (m m' : MarketLeaf)
      → Calls o (init o) s
      → check_witness o w (hash_market o m) s.markets_root key ≡ some tt
      → Calls o s t
      → check_witness o w' (hash_market o m') t.markets_root key ≡ some tt
      → Follows m m'
  reachable_market-Follows s t w w' key m m' before h after h' =
      let (g, _, r) = reachable-Acts o l s before in
      let (g', acts, r') = Calls-Acts o l g after r in
      let (n, e, f) = Acts-markets o l key m acts (opens s g w (hash_market o m) key r h) in
      rw (hash_market_injective o l m' n (sym (opens t g' w' (hash_market o m') key r' h') ∙ e)) f

  -- A claim that a reachable state accepts cannot be made again: after any further accepted calls
  -- every claim of the same receipt key is rejected, whatever its other arguments.
  pub claim_rejected_after_claim :
      (s t : FastState) (out : FastOutcome o)
      → (key : ℕ) (m : MarketLeaf) (w : MerkleMapWitness) (receipt commitment : ℕ)
      → (rw' cw : MerkleMapWitness) (claimant : PublicKey) (total_bet yes_bet owner salt : ℕ)
      → (key' : ℕ) (m' : MarketLeaf) (w' : MerkleMapWitness) (commitment' : ℕ)
      → (rw'' cw' : MerkleMapWitness) (claimant' : PublicKey)
      → (total_bet' yes_bet' owner' salt' : ℕ) → Calls o (init o) s
      → claim_receipt_payout o key m w receipt commitment rw' cw claimant total_bet yes_bet owner
          salt s
        ≡ some out
      → Calls o out.state t
      → claim_receipt_payout o key' m' w' receipt commitment' rw'' cw' claimant' total_bet' yes_bet'
          owner' salt' t
        ≡ none
  claim_rejected_after_claim s t out key m w receipt commitment rw' cw claimant total_bet yes_bet
        owner salt key' m' w' commitment' rw'' cw' claimant' total_bet' yes_bet' owner' salt' before
        h after =
      let (g, _, r) = reachable-Acts o l s before in
      let first =
        claim_receipt_payout_lem o l s g r key m w receipt commitment rw' cw claimant total_bet
          yes_bet owner salt out h in
      let (g', acts, r') = Calls-Acts o l _ after first.2 in
      let marked =
        Acts-claimed o l receipt acts (ground (arith, l.get-set g.claimed receipt 1 receipt)) in
      elim (Option-cases (
        claim_receipt_payout o key' m' w' receipt commitment' rw'' cw' claimant' total_bet' yes_bet'
          owner' salt' t)) [
            | inl rejected ↦ rejected
            | inr (out', h') ↦
                let second =
                  claim_receipt_payout_lem o l t g' r' key' m' w' receipt commitment' rw'' cw'
                    claimant' total_bet' yes_bet' owner' salt' out' h' in
                absurd (omega (arith, marked, second.1.unclaimed))
          ]

  -- A nonce resolves one market: after a resolution that a reachable state accepts, and any further
  -- accepted calls, every resolution by a statement with the same nonce is rejected.
  pub resolution_rejected_after_nonce :
      (s t : FastState) (out : FastOutcome o)
      → (key : ℕ) (old new : MarketLeaf) (w : MerkleMapWitness) (oracle : WeatherOracleStatement)
      → (nw : MerkleMapWitness) → (key' : ℕ) (old' new' : MarketLeaf) (w' : MerkleMapWitness)
      → (oracle' : WeatherOracleStatement) (nw' : MerkleMapWitness) → Calls o (init o) s
      → resolve_weather_market o key old new w oracle nw s ≡ some out
      → Calls o out.state t
      → oracle'.nonce ≡ oracle.nonce
      → resolve_weather_market o key' old' new' w' oracle' nw' t ≡ none
  resolution_rejected_after_nonce s t out key old new w oracle nw key' old' new' w' oracle' nw'
        before h after same =
      let (g, _, r) = reachable-Acts o l s before in
      let first = resolve_weather_market_lem o l s g r key old new w oracle nw out h in
      let (g', acts, r') = Calls-Acts o l _ after first.1 in
      let marked =
        Acts-nonces o l oracle.nonce acts
          (ground (arith, l.get-set g.nonces oracle.nonce 1 oracle.nonce)) in
      elim (Option-cases (resolve_weather_market o key' old' new' w' oracle' nw' t)) [
        | inl rejected ↦ rejected
        | inr (out', h') ↦
            let second =
              resolve_weather_market_lem o l t g' r' key' old' new' w' oracle' nw' out' h' in
            absurd (ground (arith, marked, second.0.fresh, same))
      ]
