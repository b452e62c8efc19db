-- ===== src/FastContract/Simulation.antt =====
-- Accepted calls of the contract of src/fast-contract.ts, and the ledger behind the roots.
use perfect_weather_predicti.Prelude.{
  ℕ, ◌≡◌, refl, some, [], ◌∷◌, arith, ◌==◌, ◌⊎◌, inl, inr, Option-cases,
}
use perfect_weather_predicti.O1js.{O1js, IsLawful}
use perfect_weather_predicti.O1js.Witnesses.{checked_tells, checked_writes}
use perfect_weather_predicti.MarketTypes.{MarketLeaf, WeatherOracleStatement, hash_market}
use perfect_weather_predicti.MarketTypes.Facts.{
  assert_new_market-IsWellFormed, assert_open_facts, assert_same_config_facts,
  assert_totals_grow_facts, assert_resolution_facts, assert_statement_facts,
}
use perfect_weather_predicti.Payout.{payout_nanomina}
use perfect_weather_predicti.Payout.Bounds.{payout_nanomina_facts}
use perfect_weather_predicti.FastContract.{
  FastState, FastOutcome, init, create_market, place_receipt_bet, resolve_weather_market,
  claim_receipt_payout, assert_winning_receipt, receipt_commitment_of,
}
use perfect_weather_predicti.FastContract.Ledger.{
  Ledger, empty_ledger, Represents, IsNewMarket, IsBet, IsResolution, IsClaim,
}

module _ (o : O1js) where
  open o use {PublicKey, to_fields, hash}

  pub record WinningReceipt (key : ℕ) (m : MarketLeaf) (commitment : ℕ) (claimant : PublicKey)
      (total_bet yes_bet owner salt : ℕ) : Type 0 where
    pub owned : owner ≡ hash (to_fields claimant)
    pub one_sided : (yes_bet ≡ total_bet) ⊎ (yes_bet ≡ 0)
    pub committed : receipt_commitment_of o key total_bet yes_bet owner salt ≡ commitment
    pub won : (yes_bet == total_bet) ≡ m.outcome

  pub assert_winning_receipt_facts :
      (key : ℕ) (m : MarketLeaf) (commitment : ℕ) (claimant : PublicKey)
      (total_bet yes_bet owner salt : ℕ)
      → assert_winning_receipt o key m commitment claimant total_bet yes_bet owner salt ≡ some tt
      → WinningReceipt key m commitment claimant total_bet yes_bet owner salt
  unfolding assert_winning_receipt
  assert_winning_receipt_facts key m commitment claimant total_bet yes_bet owner salt h =
      ground arith

module _ (o : O1js) (l : IsLawful o) where
  open o use {PublicKey, MerkleMapWitness, to_fields, hash, get, set, get_root, add}

  pub init-Represents : Represents o (init o) (empty_ledger o)
  unfolding init
  init-Represents = record { markets = refl; receipts = refl; claimed = refl; nonces = refl }

  module _ (s : FastState) (g : Ledger o) (r : Represents o s g) where
    pub create_market_lem :
        (key : ℕ) (m : MarketLeaf) (w : MerkleMapWitness) (out : FastOutcome o)
        → create_market o key m w s ≡ some out
        → IsNewMarket o g key m
          × Represents o out.state (record g { markets = set g.markets key (hash_market o m) })
          × (out.sends ≡ [])
          × (add s.market_count 1 ≡ some out.state.market_count)
    unfolding create_market
    create_market_lem key m w out h = ground (
      arith,
      checked_tells o l w g.markets 0 key,
      checked_writes o l w g.markets 0 key (hash_market o m),
      assert_new_market-IsWellFormed m,
    )

    pub place_receipt_bet_lem :
        (key : ℕ) (old new : MarketLeaf) (w : MerkleMapWitness) (receipt commitment : ℕ)
        → (rw' : MerkleMapWitness) (owner : ℕ) (out : FastOutcome o)
        → place_receipt_bet o key old new w receipt commitment rw' owner s ≡ some out
        → IsBet o g key old new receipt
          × Represents o out.state (record g {
            markets = set g.markets key (hash_market o new);
            receipts = set g.receipts receipt commitment;
          })
          × (out.sends ≡ [])
    unfolding place_receipt_bet
    place_receipt_bet_lem key old new w receipt commitment rw' owner out h = ground (
      arith,
      checked_tells o l w g.markets (hash_market o old) key,
      checked_writes o l w g.markets (hash_market o old) key (hash_market o new),
      checked_tells o l rw' g.receipts 0 receipt,
      checked_writes o l rw' g.receipts 0 receipt commitment,
      assert_open_facts old new,
      assert_same_config_facts old new,
      assert_totals_grow_facts old new,
    )

    pub resolve_weather_market_lem :
        (key : ℕ) (old new : MarketLeaf) (w : MerkleMapWitness) (oracle : WeatherOracleStatement)
        → (nw : MerkleMapWitness) (out : FastOutcome o)
        → resolve_weather_market o key old new w oracle nw s ≡ some out
        → IsResolution o g key old new oracle s.oracle_source_hash s.oracle_request_path_hash
          × Represents o out.state (record g {
            markets = set g.markets key (hash_market o new);
            nonces = set g.nonces oracle.nonce 1;
          })
          × (out.sends ≡ [])
    unfolding resolve_weather_market
    resolve_weather_market_lem key old new w oracle nw out h = ground (
      arith,
      checked_tells o l w g.markets (hash_market o old) key,
      checked_writes o l w g.markets (hash_market o old) key (hash_market o new),
      checked_tells o l nw g.nonces 0 oracle.nonce,
      checked_writes o l nw g.nonces 0 oracle.nonce 1,
      assert_statement_facts o key old oracle s.oracle_source_hash s.oracle_request_path_hash,
      assert_resolution_facts old new oracle,
    )

    pub claim_receipt_payout_lem :
        (key : ℕ) (m : MarketLeaf) (w : MerkleMapWitness) (receipt commitment : ℕ)
        → (rw' cw : MerkleMapWitness) (claimant : PublicKey)
        → (total_bet yes_bet owner salt : ℕ) (out : FastOutcome o)
        → claim_receipt_payout o key m w receipt commitment rw' cw claimant total_bet yes_bet owner
            salt s
          ≡ some out
        → (amount : ℕ) × IsClaim o g (record {
          market_key = key;
          market = m;
          receipt_key = receipt;
          claimant = claimant;
          add_total_bet = total_bet;
          add_yes_bet = yes_bet;
          salt_hash = salt;
          amount = amount;
        })
          × Represents o out.state (record g { claimed = set g.claimed receipt 1 })
          × (out.sends ≡ (claimant, amount) ∷ [])
    unfolding claim_receipt_payout
    claim_receipt_payout_lem key m w receipt commitment rw' cw claimant total_bet yes_bet owner salt
          out h =
        elim (Option-cases (payout_nanomina o (yes_bet == total_bet) m total_bet)) [
          | inl no_payout ↦ absurd (ground arith)
          | inr (amount, e) ↦
              let (payout, pays, amount_eq, _) =
                payout_nanomina_facts o l (yes_bet == total_bet) m total_bet amount e in
              let listed = checked_tells o l w g.markets (hash_market o m) key in
              let committed = checked_tells o l rw' g.receipts commitment receipt in
              let unclaimed = checked_tells o l cw g.claimed 0 receipt in
              let writes = checked_writes o l cw g.claimed 0 receipt 1 in
              let winning =
                assert_winning_receipt_facts o key m commitment claimant total_bet yes_bet owner
                  salt in
              (
                amount,
                record {
                  listed = ground (arith, listed);
                  resolved = ground arith;
                  committed = ground (arith, committed, winning);
                  unclaimed = ground (arith, unclaimed);
                  one_sided = ground (arith, winning);
                  won = ground (arith, winning);
                  payout = payout;
                  pays = pays;
                  amount_eq = amount_eq;
                },
                ground (arith, writes),
                ground arith,
              )
        ]
