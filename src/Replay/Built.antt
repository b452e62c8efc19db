-- ===== src/Replay/Built.antt =====
-- The maps that the operator builds from a mirror of the chain, and what stands in them.
use perfect_weather_predicti.Prelude.{ℕ, ◌≡◌, sym, ◌∙◌, none, some, lookup, arith}
use perfect_weather_predicti.O1js.{O1js, IsLawful, NumberText, IsLawfulText}
use perfect_weather_predicti.MarketTypes.{MarketLeaf, hash_market}
use perfect_weather_predicti.StateStore.{
  StoredMarketLeaf, OperatorState, deserialize_market_leaf, market_value, build_markets_merkle_map,
  build_receipts_merkle_map, build_claimed_receipts_merkle_map,
}
use perfect_weather_predicti.StateStore.Tables.{set_entries-get}
use perfect_weather_predicti.FastContract.{FastState}
use perfect_weather_predicti.FastContract.Ledger.{Ledger, Represents}
use perfect_weather_predicti.Replay.Mirror.{Mirrors, Keeps-root}

module _ (o : O1js) (l : IsLawful o) (x : NumberText) (tl : IsLawfulText x) where
  open o use {get, empty_map}

  -- The ledger of the maps that the operator builds.
  abbrev pub built_ledger :
      (s : FastState) (g : Ledger o) (d : OperatorState) → Mirrors o l x tl s g d → Ledger o
  built_ledger s g d h = record {
    markets = h.markets.built;
    receipts = h.receipts.built;
    claimed = h.claimed.built;
    nonces = h.nonces.built;
  }

  pub built-Represents :
      (s : FastState) (g : Ledger o) (d : OperatorState) (h : Mirrors o l x tl s g d)
      → Represents o s (built_ledger s g d h)
  built-Represents s g d h = record {
    markets = h.represents.markets ∙ sym (Keeps-root o l x tl _ _ g.markets h.markets);
    receipts = h.represents.receipts ∙ sym (Keeps-root o l x tl _ _ g.receipts h.receipts);
    claimed = h.represents.claimed ∙ sym (Keeps-root o l x tl _ _ g.claimed h.claimed);
    nonces = h.represents.nonces ∙ sym (Keeps-root o l x tl _ _ g.nonces h.nonces);
  }

  pub markets_built :
      (s : FastState) (g : Ledger o) (d : OperatorState) (h : Mirrors o l x tl s g d)
      → build_markets_merkle_map x o d ≡ some h.markets.built
  unfolding build_markets_merkle_map
  markets_built s g d h = h.markets.builds

  pub receipts_built :
      (s : FastState) (g : Ledger o) (d : OperatorState) (h : Mirrors o l x tl s g d)
      → build_receipts_merkle_map x o d ≡ some h.receipts.built
  unfolding build_receipts_merkle_map
  receipts_built s g d h = h.receipts.builds

  pub claimed_built :
      (s : FastState) (g : Ledger o) (d : OperatorState) (h : Mirrors o l x tl s g d)
      → build_claimed_receipts_merkle_map x o d ≡ some h.claimed.built
  unfolding build_claimed_receipts_merkle_map
  claimed_built s g d h = h.claimed.builds

  pub listed_in_built :
      (s : FastState) (g : Ledger o) (d : OperatorState) (h : Mirrors o l x tl s g d)
      → (key : ℕ) (stored : StoredMarketLeaf) (old : MarketLeaf)
      → lookup (x.to_string key) d.markets ≡ some stored
      → deserialize_market_leaf x stored ≡ some old
      → get h.markets.built key ≡ hash_market o old
  listed_in_built s g d h key stored old found read =
      let (_, has) =
        set_entries-get o l x tl (market_value x o) key d.markets empty_map h.markets.built
          h.markets.table h.markets.builds in
      let value = has stored found in ground (arith, value, read)

  pub free_in_built :
      (s : FastState) (g : Ledger o) (d : OperatorState) (h : Mirrors o l x tl s g d)
      → (key : ℕ) → lookup (x.to_string key) d.receipts ≡ none
      → get h.receipts.built key ≡ 0
  free_in_built s g d h key free =
      let (lacks, _) =
        set_entries-get o l x tl x.field_of key d.receipts empty_map h.receipts.built
          h.receipts.table h.receipts.builds in
      lacks free ∙ l.get-empty_map key

  pub committed_in_built :
      (s : FastState) (g : Ledger o) (d : OperatorState) (h : Mirrors o l x tl s g d)
      → (key commitment : ℕ) → lookup (x.to_string key) d.receipts ≡ some (x.to_string commitment)
      → get h.receipts.built key ≡ commitment
  committed_in_built s g d h key commitment found =
      let (_, has) =
        set_entries-get o l x tl x.field_of key d.receipts empty_map h.receipts.built
          h.receipts.table h.receipts.builds in
      let value = has (x.to_string commitment) found in
      ground (arith, value, tl.field_of-to_string commitment)

  pub unclaimed_in_built :
      (s : FastState) (g : Ledger o) (d : OperatorState) (h : Mirrors o l x tl s g d)
      → (key : ℕ) → lookup (x.to_string key) d.claimed_receipts ≡ none
      → get h.claimed.built key ≡ 0
  unclaimed_in_built s g d h key free =
      let (lacks, _) =
        set_entries-get o l x tl x.field_of key d.claimed_receipts empty_map h.claimed.built
          h.claimed.table h.claimed.builds in
      lacks free ∙ l.get-empty_map key
