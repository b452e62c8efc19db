-- ===== src/Server/BetContext.antt =====
-- src/marketplace-server.ts, lines 2198 to 2374: what the server builds for a bet, and the call of the
-- contract that it makes of it. The random draws are arguments: the key of the receipt, and the hash
-- of its salt. `PublicKey.fromBase58` is a parameter, and so are the chain's roots, which other code
-- compares. A witness travels as its own text, which is not modelled.
pub mod Accepted
use perfect_weather_predicti.Prelude.{
  ℕ, ◌*◌, Bool, true, false, not, ◌||◌, Option, none, some, String, lookup, ◌==◌, leb, assert,
  ◌>>=◌, ◌>>◌,
}
use perfect_weather_predicti.O1js.{O1js, NumberText, checked}
use perfect_weather_predicti.MarketTypes.{MarketLeaf}
use perfect_weather_predicti.Payout.{nanomina_per_tmina}
use perfect_weather_predicti.Contract.{PositionLeaf}
use perfect_weather_predicti.FastContract.{
  FastState, FastOutcome, place_receipt_bet, receipt_commitment_of,
}
use perfect_weather_predicti.StateStore.{
  StoredMarketLeaf, StoredPositionLeaf, OperatorState, serialize_market_leaf,
  deserialize_market_leaf, serialize_position_leaf, build_markets_merkle_map,
  build_receipts_merkle_map,
}
use perfect_weather_predicti.Server.Receipts.{is_present}

-- The parameters of a bet, and its draws.
pub record BetParams : Type 0 where
  pub market_key : String
  pub add_total_bet : ℕ
  pub add_yes_bet : ℕ
  pub wallet_public_key : String
  pub position_key : ℕ
  pub salt_hash : ℕ

-- `newLeaf`
abbrev pub new_leaf : MarketLeaf → (total yes_total : ℕ) → MarketLeaf
new_leaf old total yes_total = record {
  config_hash = old.config_hash;
  close_slot = old.close_slot;
  expiry_slot = old.expiry_slot;
  threshold_value_tenth_c = old.threshold_value_tenth_c;
  total_position_bet = total;
  total_yes_position_bet = yes_total;
  resolved = false;
  outcome = false;
  oracle_statement_hash = 0;
}

module _ (o : O1js) (x : NumberText) (public_key_of : String → Option o.PublicKey) where
  open o use {MerkleMapWitness, add, hash, to_fields, get_witness}

  -- `BrowserMarketBetContext`, with the position of the intent, less the network, the fee and the
  -- date, which pass through.
  pub record BetContext : Type 0 where
    pub market_key : String
    pub add_total_bet : ℕ
    pub receipt_key : String
    pub receipt_commitment : String
    pub owner_commitment : String
    pub old_leaf : StoredMarketLeaf
    pub new_leaf : StoredMarketLeaf
    pub market_witness : MerkleMapWitness
    pub receipt_witness : MerkleMapWitness
    pub new_position_leaf : StoredPositionLeaf

  -- `oldLeaf.total.add(UInt64.from(amount))`
  abbrev pub add_from : ℕ → ℕ → Option ℕ
  add_from total amount = do n ← checked amount; add total n

  abbrev pub bet_position : ℕ → BetParams → ℕ → PositionLeaf
  bet_position key p owner = record {
    market_key = key;
    side_over = p.add_yes_bet == p.add_total_bet;
    stake = p.add_total_bet;
    owner_commitment = owner;
    claimed = false;
  }

  -- `buildBrowserFeePayerMarketBetContext`
  unfoldable pub build_bet_context : BetParams → OperatorState → Option BetContext
  build_bet_context p s = do
    assert (leb p.add_yes_bet p.add_total_bet)
    existing ← lookup p.market_key s.markets
    old ← deserialize_market_leaf x existing
    assert (not old.resolved)
    assert (p.add_yes_bet == 0 || p.add_yes_bet == p.add_total_bet)
    total ← add_from old.total_position_bet p.add_total_bet
    yes_total ← add_from old.total_yes_position_bet p.add_yes_bet
    assert (leb yes_total total)
    market_key ← x.field_of p.market_key
    markets ← build_markets_merkle_map x o s
    receipts ← build_receipts_merkle_map x o s
    assert (not (is_present (lookup (x.to_string p.position_key) s.receipts)))
    wallet ← public_key_of p.wallet_public_key
    let owner = hash (to_fields wallet) in
        some (record {
          market_key = p.market_key;
          add_total_bet = p.add_total_bet;
          receipt_key = x.to_string p.position_key;
          receipt_commitment =
              x.to_string (
                receipt_commitment_of o market_key p.add_total_bet p.add_yes_bet owner p.salt_hash);
          owner_commitment = x.to_string owner;
          old_leaf = serialize_market_leaf x old;
          new_leaf = serialize_market_leaf x (new_leaf old total yes_total);
          market_witness = get_witness markets market_key;
          receipt_witness = get_witness receipts p.position_key;
          new_position_leaf = serialize_position_leaf x (bet_position market_key p owner);
        })

  -- `buildLocalServerReceiptBetTx`: the outcome of the contract's method, and what the bettor sends to
  -- the contract.
  unfoldable pub build_receipt_bet_tx : BetContext → FastState → Option (FastOutcome o × ℕ)
  build_receipt_bet_tx c s = do
    market_key ← x.field_of c.market_key
    receipt_key ← x.field_of c.receipt_key
    receipt_commitment ← x.field_of c.receipt_commitment
    owner_commitment ← x.field_of c.owner_commitment
    old ← deserialize_market_leaf x c.old_leaf
    new ← deserialize_market_leaf x c.new_leaf
    amount ← checked (c.add_total_bet * nanomina_per_tmina)
    out ←
        place_receipt_bet o market_key old new c.market_witness receipt_key receipt_commitment
          c.receipt_witness owner_commitment s
    some (out, amount)
