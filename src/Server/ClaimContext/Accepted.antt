-- ===== src/Server/ClaimContext/Accepted.antt =====
-- The claims that the server builds, before the contract (src/marketplace-server.ts, lines 2376 to
-- 2415 and 3120 to 3214).
use perfect_weather_predicti.Prelude.{
  ℕ, ◌*◌, ◌<◌, ◌≡◌, sym, ap, subst, subst₂, ◌∙◌, true, Option, some, none, String, eq_iff, [], ◌∷◌,
  lookup, arith,
}
use perfect_weather_predicti.O1js.{O1js, IsLawful, NumberText, IsLawfulText, uint64_mod}
use perfect_weather_predicti.MarketTypes.{MarketLeaf}
use perfect_weather_predicti.Payout.{nanomina_per_tmina}
use perfect_weather_predicti.Payout.Bounds.{PaysTmina, payout_tmina_facts, payout_tmina-eq-server}
use perfect_weather_predicti.FastContract.{FastState, FastOutcome, claim_receipt_payout}
use perfect_weather_predicti.FastContract.Ledger.{Ledger}
use perfect_weather_predicti.FastContract.Acceptance.{claim_receipt_payout_accepts}
use perfect_weather_predicti.StateStore.{
  StoredMarketLeaf, StoredReceiptMeta, OperatorState, Side, over, under, deserialize_market_leaf,
  serialize_market_leaf, build_markets_merkle_map, build_receipts_merkle_map,
  build_claimed_receipts_merkle_map,
}
use perfect_weather_predicti.StateStore.Roundtrip.{IsRanged, deserialize_market_leaf-serialize}
use perfect_weather_predicti.Replay.Mirror.{Mirrors}
use perfect_weather_predicti.Replay.Built.{
  built_ledger, built-Represents, markets_built, receipts_built, claimed_built, listed_in_built,
  committed_in_built, unclaimed_in_built,
}
use perfect_weather_predicti.Server.Receipts.{side_of, get_effective_resolved_market_state}
use perfect_weather_predicti.Server.ClaimContext.Terms.{
  IsClaimable, FitsPayout, claimable_passes, one_sided, side_is_outcome,
}
use perfect_weather_predicti.Server.ClaimContext.{
  ClaimParams, ClaimContext, yes_bet_of, shown_payout, receipt_commitment_from_bet,
  build_claim_context, build_claim_receipt_tx,
}

module _ (o : O1js) (l : IsLawful o) (x : NumberText) (tl : IsLawfulText x)
    (public_key_of : String → Option o.PublicKey) (salt_hash_of : String → ℕ) where
  open o use {PublicKey, MerkleMap, get_witness, hash, to_fields}

  -- The payout that the server shows is the one that the contract computes.
  shown_payout-PaysTmina :
      (leaf : MarketLeaf) (m : StoredReceiptMeta)
      → FitsPayout leaf m.stake_tmina (shown_payout o x public_key_of salt_hash_of leaf m)
      → PaysTmina leaf.outcome leaf m.stake_tmina
          (shown_payout o x public_key_of salt_hash_of leaf m)
  shown_payout-PaysTmina leaf m fits =
      let same =
        payout_tmina-eq-server o l leaf.outcome leaf m.stake_tmina fits.yes_within
          fits.product_fits in
      payout_tmina_facts o l leaf.outcome leaf m.stake_tmina
        (shown_payout o x public_key_of salt_hash_of leaf m) (ground (arith, same, fits.payout_pos))

  abbrev claim_of :
      ClaimParams
      → ℕ
      → ℕ
      → MarketLeaf
      → StoredReceiptMeta
      → (markets receipts claimed : MerkleMap) → ClaimContext o x public_key_of salt_hash_of
  claim_of p key receipt leaf m markets receipts claimed = record {
    wallet_public_key = p.fee_payer_public_key;
    payout_tmina = shown_payout o x public_key_of salt_hash_of leaf m;
    market_key = p.market_key;
    position_key = p.position_key;
    receipt_commitment = m.receipt_commitment;
    owner_commitment = m.owner_commitment;
    add_total_bet = m.stake_tmina;
    add_yes_bet = yes_bet_of m.side m.stake_tmina;
    salt_hash = x.to_string (salt_hash_of m.receipt_salt);
    resolved_leaf = serialize_market_leaf x leaf;
    market_witness = get_witness markets key;
    receipt_witness = get_witness receipts receipt;
    claimed_receipt_witness = get_witness claimed receipt;
  }

  abbrev commitment : ℕ → PublicKey → StoredReceiptMeta → ℕ
  commitment key wallet m =
      receipt_commitment_from_bet o x public_key_of salt_hash_of key (hash (to_fields wallet)) m

  -- What the entry of the receipt was written with.
  pub record IsWritten (p : ClaimParams) (key receipt : ℕ) (wallet : PublicKey)
      (m : StoredReceiptMeta) : Type 0 where
    pub market_key : p.market_key ≡ x.to_string key
    pub position_key : p.position_key ≡ x.to_string receipt
    pub owner : m.owner_commitment ≡ x.to_string (hash (to_fields wallet))
    pub committed : m.receipt_commitment ≡ x.to_string (commitment key wallet m)

  reads_back : (text : String) (n : ℕ) → text ≡ x.to_string n → x.field_of text ≡ some n
  reads_back text n e = ap x.field_of e ∙ tl.field_of-to_string n

  resolved_side :
      (leaf : MarketLeaf) (key : String) (derived : String → Option Side)
      → leaf.resolved ≡ true
      → get_effective_resolved_market_state (some leaf) key derived ≡ some (side_of leaf.outcome)
  unfolding get_effective_resolved_market_state
  resolved_side leaf key derived resolved = ground arith

  builds_claim :
      (derived : String → Option Side) (p : ClaimParams) (d : OperatorState)
      → (key receipt : ℕ) (wallet : PublicKey) (stored : StoredMarketLeaf) (leaf : MarketLeaf)
      → (m : StoredReceiptMeta) (markets receipts claimed : MerkleMap)
      → build_markets_merkle_map x o d ≡ some markets
      → build_receipts_merkle_map x o d ≡ some receipts
      → build_claimed_receipts_merkle_map x o d ≡ some claimed
      → IsWritten p key receipt wallet m
      → lookup p.position_key d.receipt_meta ≡ some m
      → lookup p.market_key d.markets ≡ some stored
      → deserialize_market_leaf x stored ≡ some leaf
      → IsClaimable p m leaf
      → 0 < shown_payout o x public_key_of salt_hash_of leaf m
      → lookup p.position_key d.claimed_receipts ≡ none
      → build_claim_context o x public_key_of salt_hash_of derived p d
        ≡ some (claim_of p key receipt leaf m markets receipts claimed)
  unfolding build_claim_context
  builds_claim derived p d key receipt wallet stored leaf m markets receipts claimed markets_built
        receipts_built claimed_built written found listed read c positive free =
      ground (
        arith,
        reads_back p.market_key key written.market_key,
        reads_back p.position_key receipt written.position_key,
        reads_back m.owner_commitment _ written.owner,
        written.committed,
        resolved_side leaf p.market_key derived c.resolved,
        claimable_passes p m leaf c,
        eq_iff m.wallet_public_key p.fee_payer_public_key,
        c.of_wallet,
        eq_iff m.market_key p.market_key,
        c.of_market,
        eq_iff (x.to_string (commitment key wallet m)) m.receipt_commitment,
      )

  yes_bet_fits : (side : Side) (stake : ℕ) → stake < uint64_mod → yes_bet_of side stake < uint64_mod
  yes_bet_fits over stake fits = fits
  yes_bet_fits under stake fits = omega arith

  builds_claim_tx :
      (s : FastState) (p : ClaimParams) (key receipt : ℕ) (wallet : PublicKey)
      → (leaf : MarketLeaf) (m : StoredReceiptMeta) (markets receipts claimed : MerkleMap)
      → IsWritten p key receipt wallet m
      → public_key_of p.fee_payer_public_key ≡ some wallet
      → IsRanged leaf
      → m.stake_tmina < uint64_mod
      → build_claim_receipt_tx o x public_key_of salt_hash_of
          (claim_of p key receipt leaf m markets receipts claimed)
          s
        ≡ claim_receipt_payout o key leaf
            (get_witness markets key)
            receipt
            (commitment key wallet m)
            (get_witness receipts receipt)
            (get_witness claimed receipt)
            wallet
            m.stake_tmina
            (yes_bet_of m.side m.stake_tmina)
            (hash (to_fields wallet))
            (salt_hash_of m.receipt_salt)
            s
  unfolding build_claim_receipt_tx
  builds_claim_tx s p key receipt wallet leaf m markets receipts claimed written known ranged fits =
      ground (
        arith,
        reads_back p.market_key key written.market_key,
        reads_back p.position_key receipt written.position_key,
        reads_back m.owner_commitment _ written.owner,
        reads_back m.receipt_commitment _ written.committed,
        tl.field_of-to_string (salt_hash_of m.receipt_salt),
        deserialize_market_leaf-serialize x tl leaf ranged,
        yes_bet_fits m.side m.stake_tmina fits,
      )

  -- What the server builds for a claim of a receipt that it knows, on the side that has won and not
  -- claimed, is accepted by the contract, which then sends the wallet exactly the payout that the
  -- server shows. The operator's maps are those behind the contract's roots, and the amounts fit 64
  -- bits.
  pub built_claim_accepts :
      (s : FastState) (g : Ledger o) (d : OperatorState) (h : Mirrors o l x tl s g d)
      → (derived : String → Option Side) (p : ClaimParams) (key receipt : ℕ) (wallet : PublicKey)
      → (stored : StoredMarketLeaf) (leaf : MarketLeaf) (m : StoredReceiptMeta)
      → IsWritten p key receipt wallet m
      → lookup p.position_key d.receipt_meta ≡ some m
      → lookup p.market_key d.markets ≡ some stored
      → deserialize_market_leaf x stored ≡ some leaf
      → IsRanged leaf
      → IsClaimable p m leaf
      → FitsPayout leaf m.stake_tmina (shown_payout o x public_key_of salt_hash_of leaf m)
      → lookup p.position_key d.receipts ≡ some m.receipt_commitment
      → lookup p.position_key d.claimed_receipts ≡ none
      → public_key_of p.fee_payer_public_key ≡ some wallet
      → (c : ClaimContext o x public_key_of salt_hash_of) × (out : FastOutcome o)
        × (build_claim_context o x public_key_of salt_hash_of derived p d ≡ some c)
        × (build_claim_receipt_tx o x public_key_of salt_hash_of c s ≡ some out)
        × (out.sends ≡ (wallet, c.payout_tmina * nanomina_per_tmina) ∷ [])
  built_claim_accepts s g d h derived p key receipt wallet stored leaf m written found listed read
        ranged claimable fits receipt_there unclaimed known =
      let at_key = written.position_key in
      let won = side_is_outcome m.side m.stake_tmina leaf.outcome fits.stake_pos claimable.won in
      let listed' = subst (λ k. lookup k d.markets ≡ some stored) written.market_key listed in
      let unclaimed' = subst (λ k. lookup k d.claimed_receipts ≡ none) at_key unclaimed in
      let receipt' =
        subst₂ (λ k text. lookup k d.receipts ≡ some text) at_key written.committed receipt_there in
      let pays =
        subst
          (λ b. PaysTmina b leaf m.stake_tmina (shown_payout o x public_key_of salt_hash_of leaf m))
          (sym won) (shown_payout-PaysTmina leaf m fits) in
      let (out, accepted, sent) =
        claim_receipt_payout_accepts o l s (built_ledger o l x tl s g d h)
          (built-Represents o l x tl s g d h) key leaf receipt wallet m.stake_tmina
          (yes_bet_of m.side m.stake_tmina) (salt_hash_of m.receipt_salt)
          (shown_payout o x public_key_of salt_hash_of leaf m)
          (listed_in_built o l x tl s g d h key stored leaf listed' read) claimable.resolved
          (committed_in_built o l x tl s g d h receipt (commitment key wallet m) receipt')
          (unclaimed_in_built o l x tl s g d h receipt unclaimed') (one_sided m.side m.stake_tmina)
          won pays fits.amount_fits in
      let builds =
        builds_claim derived p d key receipt wallet stored leaf m h.markets.built h.receipts.built
          h.claimed.built (markets_built o l x tl s g d h) (receipts_built o l x tl s g d h)
          (claimed_built o l x tl s g d h) written found listed read claimable fits.payout_pos
          unclaimed in
      let tx =
        builds_claim_tx s p key receipt wallet leaf m h.markets.built h.receipts.built
          h.claimed.built written known ranged fits.stake_fits in
      (
        claim_of p key receipt leaf m h.markets.built h.receipts.built h.claimed.built,
        out,
        builds,
        tx ∙ accepted,
        sent,
      )
