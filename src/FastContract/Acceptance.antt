-- ===== src/FastContract/Acceptance.antt =====
-- Calls that the contract of src/fast-contract.ts accepts, with the witnesses of the maps behind the
-- roots.
use perfect_weather_predicti.Prelude.{
  ℕ, ◌+◌, ◌*◌, ◌≤◌, ◌<◌, ◌≡◌, ◌⊎◌, Bool, true, false, some, arith, ◌==◌, if◌then◌else◌,
  some_of_ne_none, [], ◌∷◌,
}
use perfect_weather_predicti.O1js.{O1js, IsLawful, uint64_mod}
use perfect_weather_predicti.O1js.Witnesses.{check_witness_at}
use perfect_weather_predicti.MarketTypes.{
  MarketLeaf, WeatherOracleStatement, hash_market, digest_of, assert_new_market, assert_open,
  assert_same_config, assert_totals_grow, assert_resolution, assert_statement,
}
use perfect_weather_predicti.MarketTypes.Facts.{IsWellFormed}
use perfect_weather_predicti.Payout.{nanomina_per_tmina}
use perfect_weather_predicti.Payout.Bounds.{PaysTmina, payout_nanomina_computes}
use perfect_weather_predicti.FastContract.{
  FastState, FastOutcome, create_market, place_receipt_bet, resolve_weather_market,
  claim_receipt_payout, assert_winning_receipt, receipt_commitment_of,
}
use perfect_weather_predicti.FastContract.Ledger.{Ledger, Represents}
use perfect_weather_predicti.FastContract.Simulation.{resolve_weather_market_lem}

-- `newLeaf` of a bet: the totals with the amounts added.
abbrev pub with_bet : MarketLeaf → ℕ → ℕ → MarketLeaf
with_bet m add_total add_yes = record m {
  total_position_bet = m.total_position_bet + add_total;
  total_yes_position_bet = m.total_yes_position_bet + add_yes;
}

-- The leaf that a statement turns an open market into.
abbrev pub with_result : MarketLeaf → WeatherOracleStatement → MarketLeaf
with_result m oracle = record m {
  resolved = true;
  outcome = oracle.outcome;
  oracle_statement_hash = oracle.statement_digest;
}

-- A statement that gives a market the outcome `b`, by an observation on that side of its threshold.
abbrev pub unsigned_statement :
    (source path : ℕ) → MarketLeaf → Bool → (slot nonce : ℕ) → WeatherOracleStatement
unsigned_statement source path m b slot nonce = record {
  source_hash = source;
  request_path_hash = path;
  observed_at_slot = slot;
  observed_value_tenth_c = if b then m.threshold_value_tenth_c + 1 else 0;
  threshold_value_tenth_c = m.threshold_value_tenth_c;
  outcome = b;
  nonce = nonce;
  statement_digest = 0;
}

module _ (o : O1js) (key source path : ℕ) (m : MarketLeaf) (b : Bool) (slot nonce : ℕ) where
  abbrev pub chosen_statement : WeatherOracleStatement
  chosen_statement = record (unsigned_statement source path m b slot nonce) {
    statement_digest = digest_of o key (unsigned_statement source path m b slot nonce);
  }

  chosen_statement_passes :
      m.close_slot ≤ slot
      → slot ≤ m.expiry_slot
      → assert_statement o key m chosen_statement source path ≡ some tt
  unfolding assert_statement digest_of
  chosen_statement_passes from to = ground arith

  chosen_statement_resolves :
      assert_resolution m (with_result m chosen_statement) chosen_statement ≡ some tt
  unfolding assert_resolution
  chosen_statement_resolves = ground arith

module _ (o : O1js) where
  open o use {PublicKey, to_fields, hash}

  winning_receipt :
      (key : ℕ) (m : MarketLeaf) (claimant : PublicKey) (total_bet yes_bet salt : ℕ)
      → (yes_bet ≡ total_bet) ⊎ (yes_bet ≡ 0)
      → (yes_bet == total_bet) ≡ m.outcome
      → assert_winning_receipt o key m
          (receipt_commitment_of o key total_bet yes_bet (hash (to_fields claimant)) salt)
          claimant
          total_bet
          yes_bet
          (hash (to_fields claimant))
          salt
        ≡ some tt
  unfolding assert_winning_receipt
  winning_receipt key m claimant total_bet yes_bet salt side won = ground arith

module _ (o : O1js) (l : IsLawful o) (s : FastState) (g : Ledger o) (r : Represents o s g) where
  open o use {PublicKey, get, set, get_witness, to_fields, hash, add}

  -- A market with no bets and no result, whose window is not empty, is created under a free key, and
  -- counted, if the counter has room.
  pub create_market_accepts :
      (key : ℕ) (m : MarketLeaf)
      → get g.markets key ≡ 0
      → m.total_position_bet ≡ 0
      → m.total_yes_position_bet ≡ 0
      → m.resolved ≡ false
      → m.outcome ≡ false
      → m.oracle_statement_hash ≡ 0
      → m.close_slot ≤ m.expiry_slot
      → s.market_count + 1 < uint64_mod
      → (out : FastOutcome o) × (create_market o key m (get_witness g.markets key) s ≡ some out)
        × (out.state.market_count ≡ s.market_count + 1)
  unfolding create_market assert_new_market
  create_market_accepts key m free t y u n q window room =
      let (out, e) =
        some_of_ne_none (create_market o key m (get_witness g.markets key) s) λ rejected. ground (
          arith,
          check_witness_at o l g.markets key 0 s.markets_root r.markets free,
          l.add_lem s.market_count 1,
        ) in
      (out, e, ground (arith, l.add_lem s.market_count 1))

  -- A bet on an open market with any amounts of which the YES part is within the whole is accepted
  -- under a free receipt key, whatever the commitment.
  pub place_receipt_bet_accepts :
      (key : ℕ) (m : MarketLeaf) (add_total add_yes receipt commitment owner : ℕ)
      → get g.markets key ≡ hash_market o m
      → IsWellFormed m
      → m.resolved ≡ false
      → add_yes ≤ add_total
      → get g.receipts receipt ≡ 0
      → (out : FastOutcome o) × (place_receipt_bet o key m
            (with_bet m add_total add_yes)
            (get_witness g.markets key)
            receipt
            commitment
            (get_witness g.receipts receipt)
            owner
            s
          ≡ some out)
  unfolding place_receipt_bet assert_open assert_same_config assert_totals_grow
  place_receipt_bet_accepts key m add_total add_yes receipt commitment owner listed w u within
        free =
      some_of_ne_none
        (place_receipt_bet o key m (with_bet m add_total add_yes) (get_witness g.markets key)
          receipt commitment (get_witness g.receipts receipt) owner s)
        λ rejected. ground (
          arith,
          w.yes_within,
          w.no_early_outcome u,
          w.no_early_statement u,
          check_witness_at o l g.markets key (hash_market o m) s.markets_root r.markets listed,
          check_witness_at o l g.receipts receipt 0 s.receipts_root r.receipts free,
        )

  -- Anybody can resolve a listed market that is not resolved and has no statement yet either way,
  -- without a signature or an attestation: for each outcome, slot of the window, and nonce that was not
  -- used, if the threshold is not the greatest 64-bit number, there is a statement, with an observed
  -- value of 64 bits, that the contract accepts. The roots are then those of the maps in which the
  -- market's leaf is resolved with that outcome, its totals and terms as before, and the nonce is used.
  pub resolve_weather_market_accepts :
      (key : ℕ) (m : MarketLeaf) (b : Bool) (slot nonce : ℕ)
      → get g.markets key ≡ hash_market o m
      → m.resolved ≡ false
      → m.oracle_statement_hash ≡ 0
      → m.threshold_value_tenth_c + 1 < uint64_mod
      → m.close_slot ≤ slot
      → slot ≤ m.expiry_slot
      → get g.nonces nonce ≡ 0
      → let oracle =
          chosen_statement o key s.oracle_source_hash s.oracle_request_path_hash m b slot nonce in
        let leaf = record m {
          resolved = true;
          outcome = b;
          oracle_statement_hash = oracle.statement_digest;
        } in
        (out : FastOutcome o) × (resolve_weather_market o key m leaf
            (get_witness g.markets key)
            oracle
            (get_witness g.nonces nonce)
            s
          ≡ some out)
        × (oracle.observed_value_tenth_c < uint64_mod)
        × Represents o out.state (record g {
          markets = set g.markets key (hash_market o leaf);
          nonces = set g.nonces nonce 1;
        })
  unfolding resolve_weather_market
  resolve_weather_market_accepts key m b slot nonce listed u q room from to fresh =
      let oracle =
        chosen_statement o key s.oracle_source_hash s.oracle_request_path_hash m b slot nonce in
      let (out, accepted) =
        some_of_ne_none
          (resolve_weather_market o key m (with_result m oracle) (get_witness g.markets key) oracle
            (get_witness g.nonces nonce) s)
          λ rejected. ground (
            arith,
            check_witness_at o l g.markets key (hash_market o m) s.markets_root r.markets listed,
            check_witness_at o l g.nonces nonce 0 s.used_oracle_nonce_root r.nonces fresh,
            chosen_statement_passes o key s.oracle_source_hash s.oracle_request_path_hash m b slot
                nonce from to,
            chosen_statement_resolves o key s.oracle_source_hash s.oracle_request_path_hash m b slot
                nonce,
          ) in
      let facts =
        resolve_weather_market_lem o l s g r key m (with_result m oracle)
          (get_witness g.markets key) oracle (get_witness g.nonces nonce) out accepted in
      (out, accepted, ground arith, facts.1)

  -- The holder of a receipt on the winning side is paid: if the market is resolved and listed, its YES
  -- total is within its total and the winning pool is not empty, the receipt is committed under the
  -- key and not claimed, its stake lies on the winning side alone, the product of the total and the
  -- stake fits 64 bits, and the payout, that product divided by the winning pool, is positive and fits
  -- 64 bits in nanomina, then the claim is accepted and sends the claimant that payout.
  pub claim_receipt_payout_accepts :
      (key : ℕ) (m : MarketLeaf) (receipt : ℕ) (claimant : PublicKey)
      → (total_bet yes_bet salt payout : ℕ) → get g.markets key ≡ hash_market o m
      → m.resolved ≡ true
      → get g.receipts receipt
        ≡ receipt_commitment_of o key total_bet yes_bet (hash (to_fields claimant)) salt
      → get g.claimed receipt ≡ 0
      → (yes_bet ≡ total_bet) ⊎ (yes_bet ≡ 0)
      → (yes_bet == total_bet) ≡ m.outcome
      → PaysTmina (yes_bet == total_bet) m total_bet payout
      → payout * nanomina_per_tmina < uint64_mod
      → (out : FastOutcome o) × (claim_receipt_payout o key m
            (get_witness g.markets key)
            receipt
            (receipt_commitment_of o key total_bet yes_bet (hash (to_fields claimant)) salt)
            (get_witness g.receipts receipt)
            (get_witness g.claimed receipt)
            claimant
            total_bet
            yes_bet
            (hash (to_fields claimant))
            salt
            s
          ≡ some out)
        × (out.sends ≡ (claimant, payout * nanomina_per_tmina) ∷ [])
  unfolding claim_receipt_payout
  claim_receipt_payout_accepts key m receipt claimant total_bet yes_bet salt payout listed res
        committed free side won pays fits =
      let c = receipt_commitment_of o key total_bet yes_bet (hash (to_fields claimant)) salt in
      let opens_market =
        check_witness_at o l g.markets key (hash_market o m) s.markets_root r.markets listed in
      let opens_receipt =
        check_witness_at o l g.receipts receipt c s.receipts_root r.receipts committed in
      let opens_claimed =
        check_witness_at o l g.claimed receipt 0 s.claimed_receipts_root r.claimed free in
      let winning = winning_receipt o key m claimant total_bet yes_bet salt side won in
      let amount =
        payout_nanomina_computes o l (yes_bet == total_bet) m total_bet payout pays fits in
      let (out, e) =
        some_of_ne_none
          (claim_receipt_payout o key m (get_witness g.markets key) receipt c
            (get_witness g.receipts receipt) (get_witness g.claimed receipt) claimant total_bet
            yes_bet (hash (to_fields claimant)) salt s)
          λ rejected. ground (arith, opens_market, opens_receipt, opens_claimed, winning, amount) in
      (out, e, ground (arith, opens_market, opens_receipt, opens_claimed, winning, amount))
