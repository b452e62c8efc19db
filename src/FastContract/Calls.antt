-- ===== src/FastContract/Calls.antt =====
-- Sequences of accepted calls of the contract of src/fast-contract.ts, and the ledger along them.
use perfect_weather_predicti.Prelude.{ℕ, ◌≡◌, Bool, some, arith}
use perfect_weather_predicti.O1js.{O1js, IsLawful}
use perfect_weather_predicti.MarketTypes.{MarketLeaf, WeatherOracleStatement}
use perfect_weather_predicti.FastContract.{
  FastState, FastOutcome, init, configure_oracle_policy, create_market, place_receipt_bet,
  resolve_weather_market, claim_receipt_payout,
}
use perfect_weather_predicti.FastContract.Ledger.{
  Ledger, empty_ledger, Represents, Act, configures, creates, bets, resolves, claims, Acts, here,
  next,
}
use perfect_weather_predicti.FastContract.Simulation.{
  init-Represents, create_market_lem, place_receipt_bet_lem, resolve_weather_market_lem,
  claim_receipt_payout_lem,
}

module _ (o : O1js) where
  open o use {PublicKey, MerkleMapWitness}

  -- An accepted call of any method, with the arguments that it was given.
  pub data Call (s : FastState) (out : FastOutcome o) : Type 0 where
    configured :
        (signed : Bool) (source path : ℕ)
        → configure_oracle_policy o signed source path s ≡ some out
        → Call s out
    created :
        (key : ℕ) (m : MarketLeaf) (w : MerkleMapWitness)
        → create_market o key m w s ≡ some out
        → Call s out
    bet :
        (key : ℕ) (old new : MarketLeaf) (w : MerkleMapWitness) (receipt commitment : ℕ)
        → (receipt_witness : MerkleMapWitness) (owner : ℕ)
        → place_receipt_bet o key old new w receipt commitment receipt_witness owner s ≡ some out
        → Call s out
    resolved :
        (key : ℕ) (old new : MarketLeaf) (w : MerkleMapWitness) (oracle : WeatherOracleStatement)
        → (nonce_witness : MerkleMapWitness)
        → resolve_weather_market o key old new w oracle nonce_witness s ≡ some out
        → Call s out
    claimed :
        (key : ℕ) (m : MarketLeaf) (w : MerkleMapWitness) (receipt commitment : ℕ)
        → (receipt_witness claimed_witness : MerkleMapWitness) (claimant : PublicKey)
        → (total_bet yes_bet owner salt : ℕ)
        → claim_receipt_payout o key m w receipt commitment receipt_witness claimed_witness claimant
            total_bet yes_bet owner salt s
          ≡ some out
        → Call s out

  -- The states after any number of accepted calls.
  pub data Calls (s : FastState) : FastState → Type 0 where
    start : Calls s s
    call :
        {t u : FastState} (out : FastOutcome o) → Calls s t → Call t out → out.state ≡ u → Calls s u

  module _ (l : IsLawful o) where
    pub configure-Represents :
        (signed : Bool) (source path : ℕ) (s : FastState) (g : Ledger o) (out : FastOutcome o)
        → Represents o s g
        → configure_oracle_policy o signed source path s ≡ some out
        → Represents o out.state g
    unfolding configure_oracle_policy
    configure-Represents signed source path s g out r h = ground arith

    -- Each accepted call is one act on the ledger behind the roots.
    pub Call-Act :
        (s : FastState) (g : Ledger o) (out : FastOutcome o)
        → Represents o s g
        → Call s out
        → (g' : Ledger o) × Act o g g' × Represents o out.state g'
    Call-Act s g out r (configured signed source path h) =
        (g, configures, configure-Represents signed source path s g out r h)
    Call-Act s g out r (created key m w h) =
        let f = create_market_lem o l s g r key m w out h in (_, creates key m f.0, f.1)
    Call-Act s g out r (bet key old new w receipt commitment rw' owner h) =
        let f = place_receipt_bet_lem o l s g r key old new w receipt commitment rw' owner out h in
        (_, bets key old new receipt commitment f.0, f.1)
    Call-Act s g out r (resolved key old new w oracle nw h) =
        let f = resolve_weather_market_lem o l s g r key old new w oracle nw out h in
        (_, resolves key old new oracle s.oracle_source_hash s.oracle_request_path_hash f.0, f.1)
    Call-Act s g out r
          (claimed key m w receipt commitment rw' cw claimant total_bet yes_bet owner salt h) =
        let f =
          claim_receipt_payout_lem o l s g r key m w receipt commitment rw' cw claimant total_bet
            yes_bet owner salt out h in
        (_, claims _ f.1, f.2)

    -- The contract refines the ledger: along any sequence of accepted calls there is a sequence of
    -- acts that the roots follow.
    pub Calls-Acts :
        {s t : FastState} (g : Ledger o)
        → Calls s t
        → Represents o s g
        → (g' : Ledger o) × Acts o g g' × Represents o t g'
    Calls-Acts g start r = (g, here, r)
    Calls-Acts g (call out cs c e) r =
        let (g', acts, r') = Calls-Acts g cs r in
        let (g'', act, r'') = Call-Act _ g' out r' c in (g'', next acts act, rw (← e) r'')

    -- From `init` on, the roots are those of a ledger that the acts of the specification build.
    pub reachable-Acts :
        (t : FastState)
        → Calls (init o) t
        → (g : Ledger o) × Acts o (empty_ledger o) g × Represents o t g
    reachable-Acts t cs = Calls-Acts (empty_ledger o) cs (init-Represents o l)
