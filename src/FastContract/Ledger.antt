-- ===== src/FastContract/Ledger.antt =====
-- The abstract specification of the contract of src/fast-contract.ts: four maps, of which the chain
-- keeps the roots, and what a call may do to them.
use perfect_weather_predicti.Prelude.{ℕ, ◌*◌, ◌≤◌, ◌≡◌, ◌⊎◌, true, false, ◌==◌}
use perfect_weather_predicti.O1js.{O1js}
use perfect_weather_predicti.MarketTypes.{MarketLeaf, WeatherOracleStatement, hash_market}
use perfect_weather_predicti.MarketTypes.Facts.{
  IsWellFormed, SameConfig, TotalsGrow, Resolves, IsValidStatement,
}
use perfect_weather_predicti.Payout.{nanomina_per_tmina}
use perfect_weather_predicti.Payout.Bounds.{PaysTmina}
use perfect_weather_predicti.FastContract.{FastState, receipt_commitment_of}

module _ (o : O1js) where
  open o use {PublicKey, MerkleMap, to_fields, hash, get, set, get_root, empty_map}

  pub record Ledger : Type 0 where
    pub markets : MerkleMap
    pub receipts : MerkleMap
    pub claimed : MerkleMap
    pub nonces : MerkleMap

  abbrev pub empty_ledger : Ledger
  empty_ledger = record {
    markets = empty_map;
    receipts = empty_map;
    claimed = empty_map;
    nonces = empty_map;
  }

  -- The chain keeps the roots of the ledger's maps.
  pub record Represents (s : FastState) (g : Ledger) : Type 0 where
    pub markets : s.markets_root ≡ get_root g.markets
    pub receipts : s.receipts_root ≡ get_root g.receipts
    pub claimed : s.claimed_receipts_root ≡ get_root g.claimed
    pub nonces : s.used_oracle_nonce_root ≡ get_root g.nonces

  pub record IsNewMarket (g : Ledger) (key : ℕ) (m : MarketLeaf) : Type 0 where
    pub free : get g.markets key ≡ 0
    pub well_formed : IsWellFormed m
    pub unresolved : m.resolved ≡ false

  pub record IsBet (g : Ledger) (key : ℕ) (old new : MarketLeaf) (receipt : ℕ) : Type 0 where
    pub listed : get g.markets key ≡ hash_market o old
    pub free : get g.receipts receipt ≡ 0
    pub open_before : old.resolved ≡ false
    pub open_after : new.resolved ≡ false
    pub no_outcome : new.outcome ≡ false
    pub no_statement : new.oracle_statement_hash ≡ 0
    pub config : SameConfig old new
    pub totals : TotalsGrow old new
    pub yes_within : new.total_yes_position_bet ≤ new.total_position_bet

  pub record IsResolution (g : Ledger) (key : ℕ) (old new : MarketLeaf)
      (oracle : WeatherOracleStatement) (source path : ℕ) : Type 0 where
    pub listed : get g.markets key ≡ hash_market o old
    pub open_before : old.resolved ≡ false
    pub valid : IsValidStatement o key old oracle source path
    pub fresh : get g.nonces oracle.nonce ≡ 0
    pub resolves : Resolves old new oracle

  -- The terms of a claim: what the claimant reveals, and what is paid.
  pub record Claim : Type 0 where
    pub market_key : ℕ
    pub market : MarketLeaf
    pub receipt_key : ℕ
    pub claimant : PublicKey
    pub add_total_bet : ℕ
    pub add_yes_bet : ℕ
    pub salt_hash : ℕ
    pub amount : ℕ

  pub record IsClaim (g : Ledger) (c : Claim) : Type 0 where
    pub listed : get g.markets c.market_key ≡ hash_market o c.market
    pub resolved : c.market.resolved ≡ true
    pub committed :
        get g.receipts c.receipt_key
        ≡ receipt_commitment_of o c.market_key c.add_total_bet c.add_yes_bet
            (hash (to_fields c.claimant))
            c.salt_hash
    pub unclaimed : get g.claimed c.receipt_key ≡ 0
    pub one_sided : (c.add_yes_bet ≡ c.add_total_bet) ⊎ (c.add_yes_bet ≡ 0)
    pub won : (c.add_yes_bet == c.add_total_bet) ≡ c.market.outcome
    pub payout : ℕ
    pub pays : PaysTmina (c.add_yes_bet == c.add_total_bet) c.market c.add_total_bet payout
    pub amount_eq : c.amount ≡ payout * nanomina_per_tmina

  -- What a call may do to the ledger.
  pub data Act (g : Ledger) : Ledger → Type 0 where
    configures : Act g g
    creates :
        (key : ℕ) (m : MarketLeaf)
        → IsNewMarket g key m
        → Act g (record g { markets = set g.markets key (hash_market o m) })
    bets :
        (key : ℕ) (old new : MarketLeaf) (receipt commitment : ℕ)
        → IsBet g key old new receipt
        → Act g (record g {
          markets = set g.markets key (hash_market o new);
          receipts = set g.receipts receipt commitment;
        })
    resolves :
        (key : ℕ) (old new : MarketLeaf) (oracle : WeatherOracleStatement) (source path : ℕ)
        → IsResolution g key old new oracle source path
        → Act g (record g {
          markets = set g.markets key (hash_market o new);
          nonces = set g.nonces oracle.nonce 1;
        })
    claims :
        (c : Claim) → IsClaim g c → Act g (record g { claimed = set g.claimed c.receipt_key 1 })

  -- Any number of calls.
  pub data Acts (g : Ledger) : Ledger → Type 0 where
    here : Acts g g
    next : {g' g'' : Ledger} → Acts g g' → Act g' g'' → Acts g g''
