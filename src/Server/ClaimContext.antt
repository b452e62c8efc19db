-- ===== src/Server/ClaimContext.antt =====
-- src/marketplace-server.ts, lines 2376 to 2415 and 3120 to 3214: what the server builds for a claim,
-- and the call of the contract that it makes of it. `PublicKey.fromBase58` is a parameter, and so is
-- the hash of a salt. The state is that after `reconcileSubmittedPayoutClaims`.
pub mod Terms
pub mod Accepted
use perfect_weather_predicti.Prelude.{
  ℕ, Bool, true, false, not, Option, none, some, String, str_eq, lookup, ltb, assert, ◌>>=◌, ◌>>◌,
  if◌then◌else◌,
}
use perfect_weather_predicti.O1js.{O1js, NumberText, checked}
use perfect_weather_predicti.MarketTypes.{MarketLeaf}
use perfect_weather_predicti.Payout.{payout_nanomina_for_stake}
use perfect_weather_predicti.FastContract.{
  FastState, FastOutcome, claim_receipt_payout, receipt_commitment_of,
}
use perfect_weather_predicti.StateStore.{
  StoredMarketLeaf, StoredReceiptMeta, OperatorState, ClaimStatus, Side, over, under,
  serialize_market_leaf, deserialize_market_leaf, build_markets_merkle_map,
  build_receipts_merkle_map, build_claimed_receipts_merkle_map,
}
use perfect_weather_predicti.Server.Receipts.{
  eq_claim_status, is_claimed, get_effective_resolved_market_state,
}

pub record ClaimParams : Type 0 where
  pub market_key : String
  pub position_key : String
  pub fee_payer_public_key : String

abbrev pub eq_side : Side → Side → Bool
eq_side over over = true
eq_side under under = true
eq_side over under = false
eq_side under over = false

-- `meta.side === 'over' ? addTotalBet : 0`
abbrev pub yes_bet_of : Side → ℕ → ℕ
yes_bet_of over stake = stake
yes_bet_of under stake = 0

-- The checks of the receipt's entry against the request.
unfoldable pub assert_claimable : ClaimParams → StoredReceiptMeta → Side → Option (Unit {0})
assert_claimable p m resolved_outcome = do
  assert (eq_side m.side resolved_outcome)
  assert (not (eq_claim_status m.claim_status ClaimStatus.submitted))
  assert (not (eq_claim_status m.claim_status ClaimStatus.confirmed))
  assert (not (str_eq m.receipt_salt ""))

module _ (o : O1js) (x : NumberText) (public_key_of : String → Option o.PublicKey)
    (salt_hash_of : String → ℕ) where
  open o use {MerkleMapWitness, get_witness}

  -- `ClaimPayoutContext`, less the network and the fee.
  pub record ClaimContext : Type 0 where
    pub wallet_public_key : String
    pub payout_tmina : ℕ
    pub market_key : String
    pub position_key : String
    pub receipt_commitment : String
    pub owner_commitment : String
    pub add_total_bet : ℕ
    pub add_yes_bet : ℕ
    pub salt_hash : String
    pub resolved_leaf : StoredMarketLeaf
    pub market_witness : MerkleMapWitness
    pub receipt_witness : MerkleMapWitness
    pub claimed_receipt_witness : MerkleMapWitness

  -- `payoutNanominaForStake` of the leaf and the stake of the receipt.
  abbrev pub shown_payout : MarketLeaf → StoredReceiptMeta → ℕ
  shown_payout leaf m =
      payout_nanomina_for_stake leaf.total_position_bet leaf.total_yes_position_bet leaf.outcome
        m.stake_tmina

  -- `receiptCommitmentFromBet`
  abbrev pub receipt_commitment_from_bet : (market_key owner : ℕ) → StoredReceiptMeta → ℕ
  receipt_commitment_from_bet market_key owner m =
      receipt_commitment_of o market_key m.stake_tmina (yes_bet_of m.side m.stake_tmina) owner
        (salt_hash_of m.receipt_salt)

  -- `buildClaimPayoutContext`
  unfoldable pub build_claim_context :
      (derived_resolved_outcomes : String → Option Side)
      → ClaimParams
      → OperatorState
      → Option ClaimContext
  build_claim_context derived p s = do
    m ← lookup p.position_key s.receipt_meta
    assert (str_eq m.wallet_public_key p.fee_payer_public_key)
    assert (str_eq m.market_key p.market_key)
    stored ← lookup p.market_key s.markets
    leaf ← deserialize_market_leaf x stored
    resolved_outcome ← get_effective_resolved_market_state (some leaf) p.market_key derived
    assert_claimable p m resolved_outcome
    assert (ltb 0 (shown_payout leaf m))
    market_key ← x.field_of p.market_key
    owner ← x.field_of m.owner_commitment
    assert
        (str_eq (x.to_string (receipt_commitment_from_bet market_key owner m)) m.receipt_commitment)
    position_key ← x.field_of p.position_key
    markets ← build_markets_merkle_map x o s
    receipts ← build_receipts_merkle_map x o s
    claimed ← build_claimed_receipts_merkle_map x o s
    assert (not (is_claimed (lookup p.position_key s.claimed_receipts)))
    some (record {
      wallet_public_key = p.fee_payer_public_key;
      payout_tmina = shown_payout leaf m;
      market_key = p.market_key;
      position_key = p.position_key;
      receipt_commitment = m.receipt_commitment;
      owner_commitment = m.owner_commitment;
      add_total_bet = m.stake_tmina;
      add_yes_bet = yes_bet_of m.side m.stake_tmina;
      salt_hash = x.to_string (salt_hash_of m.receipt_salt);
      resolved_leaf = serialize_market_leaf x leaf;
      market_witness = get_witness markets market_key;
      receipt_witness = get_witness receipts position_key;
      claimed_receipt_witness = get_witness claimed position_key;
    })

  -- `buildLocalServerClaimReceiptTx`
  unfoldable pub build_claim_receipt_tx : ClaimContext → FastState → Option (FastOutcome o)
  build_claim_receipt_tx c s = do
    fee_payer ← public_key_of c.wallet_public_key
    market_key ← x.field_of c.market_key
    leaf ← deserialize_market_leaf x c.resolved_leaf
    position_key ← x.field_of c.position_key
    receipt_commitment ← x.field_of c.receipt_commitment
    add_total_bet ← checked c.add_total_bet
    add_yes_bet ← checked c.add_yes_bet
    owner_commitment ← x.field_of c.owner_commitment
    salt_hash ← x.field_of c.salt_hash
    claim_receipt_payout o market_key leaf c.market_witness position_key receipt_commitment
        c.receipt_witness c.claimed_receipt_witness fee_payer add_total_bet add_yes_bet
        owner_commitment salt_hash s
