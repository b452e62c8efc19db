-- ===== src/FastContract/Lifecycle.antt =====
-- The acts on the ledger behind the contract of src/fast-contract.ts, and what of it they keep.
use perfect_weather_predicti.Prelude.{
  ℕ, ◌≡◌, ◌≢◌, inl, inr, refl, true, arith, ◌==◌, Bool-cases, ==_iff, sym, ◌∙◌,
}
use perfect_weather_predicti.O1js.{O1js, IsLawful}
use perfect_weather_predicti.MarketTypes.{MarketLeaf, hash_market}
use perfect_weather_predicti.MarketTypes.Hashing.{hash_market_injective, hash_market_ne_zero}
use perfect_weather_predicti.MarketTypes.Facts.{SameConfig, TotalsGrow}
use perfect_weather_predicti.FastContract.Ledger.{
  Ledger, IsBet, IsResolution, Act, configures, creates, bets, resolves, claims, Acts, here, next,
}

-- How a market may differ from what it was: its parameters are the same, its totals are no lower,
-- and a resolved market is the same leaf.
pub record Follows (a b : MarketLeaf) : Type 0 where
  pub config : SameConfig a b
  pub totals : TotalsGrow a b
  pub final : a.resolved ≡ true → b ≡ a

pub Follows-refl : (a : MarketLeaf) → Follows a a
Follows-refl a = ground arith

pub Follows-trans : (a b c : MarketLeaf) → Follows a b → Follows b c → Follows a c
Follows-trans a b c p q = record {
  config = ground (arith, p.config, q.config);
  totals = ground (arith, p.totals, q.totals);
  final = λ h. rw (q.final (rw (p.final h) h)) (p.final h);
}

module _ (o : O1js) (l : IsLawful o) where
  open o use {get, set}

  -- Once a receipt is marked as claimed it stays so.
  Act-claimed :
      (receipt : ℕ) {g g' : Ledger o}
      → Act o g g'
      → get g.claimed receipt ≡ 1
      → get g'.claimed receipt ≡ 1
  Act-claimed receipt configures h = h
  Act-claimed receipt (creates key m p) h = h
  Act-claimed receipt (bets key old new r c p) h = h
  Act-claimed receipt (resolves key old new oracle a b p) h = h
  Act-claimed receipt {g} (claims c p) h =
      ground (arith, l.get-set g.claimed c.receipt_key 1 receipt)

  pub Acts-claimed :
      (receipt : ℕ) {g g' : Ledger o}
      → Acts o g g'
      → get g.claimed receipt ≡ 1
      → get g'.claimed receipt ≡ 1
  Acts-claimed receipt here h = h
  Acts-claimed receipt (next acts act) h = Act-claimed receipt act (Acts-claimed receipt acts h)

  -- A nonce that was used stays used.
  Act-nonces :
      (nonce : ℕ) {g g' : Ledger o} → Act o g g' → get g.nonces nonce ≡ 1 → get g'.nonces nonce ≡ 1
  Act-nonces nonce configures h = h
  Act-nonces nonce (creates key m p) h = h
  Act-nonces nonce (bets key old new r c p) h = h
  Act-nonces nonce {g} (resolves key old new oracle a b p) h =
      ground (arith, l.get-set g.nonces oracle.nonce 1 nonce)
  Act-nonces nonce (claims c p) h = h

  pub Acts-nonces :
      (nonce : ℕ) {g g' : Ledger o} → Acts o g g' → get g.nonces nonce ≡ 1 → get g'.nonces nonce ≡ 1
  Acts-nonces nonce here h = h
  Acts-nonces nonce (next acts act) h = Act-nonces nonce act (Acts-nonces nonce acts h)

  -- A committed receipt is never overwritten.
  Act-receipts :
      (receipt : ℕ) {g g' : Ledger o}
      → Act o g g'
      → get g.receipts receipt ≢ 0
      → get g'.receipts receipt ≡ get g.receipts receipt
  Act-receipts receipt configures h = refl
  Act-receipts receipt (creates key m p) h = refl
  Act-receipts receipt {g} (bets key old new r c p) h =
      ground (arith, p.free, l.get-set g.receipts r c receipt)
  Act-receipts receipt (resolves key old new oracle a b p) h = refl
  Act-receipts receipt (claims c p) h = refl

  pub Acts-receipts :
      (receipt : ℕ) {g g' : Ledger o}
      → Acts o g g'
      → get g.receipts receipt ≢ 0
      → get g'.receipts receipt ≡ get g.receipts receipt
  Acts-receipts receipt here h = refl
  Acts-receipts receipt (next acts act) h =
      let same = Acts-receipts receipt acts h in Act-receipts receipt act (rw same h) ∙ same

  IsBet-Follows :
      {g : Ledger o} {key receipt : ℕ} {old new : MarketLeaf}
      → IsBet o g key old new receipt
      → Follows old new
  IsBet-Follows p = record { config = p.config; totals = p.totals; final = λ h. cc (p.open_before) }

  IsResolution-Follows :
      {g : Ledger o} {key : ℕ} {old new : MarketLeaf} {oracle : _} {a b : ℕ}
      → IsResolution o g key old new oracle a b
      → Follows old new
  IsResolution-Follows p = record {
    config = p.resolves.config;
    totals = ground (arith, p.resolves);
    final = λ h. cc (p.open_before);
  }

  -- The market under `k` after a write at `key` of a leaf that follows the one that stood there.
  written :
      (markets : o.MerkleMap) (key k : ℕ) (old new m : MarketLeaf)
      → get markets key ≡ hash_market o old
      → Follows old new
      → get markets k ≡ hash_market o m
      → (m' : MarketLeaf) × (get (set markets key (hash_market o new)) k ≡ hash_market o m')
        × Follows m m'
  written markets key k old new m listed f h = elim (Bool-cases (key == k)) [
    | inl same ↦ (
      new,
      ground (arith, l.get-set markets key (hash_market o new) k),
      rw (hash_market_injective o l m old (sym h ∙ rw (← (==_iff key k).0 same) listed)) f,
    )
    | inr other ↦ (m, ground (arith, l.get-set markets key (hash_market o new) k), Follows-refl m)
  ]

  Act-markets :
      (k : ℕ) (m : MarketLeaf) {g g' : Ledger o}
      → Act o g g'
      → get g.markets k ≡ hash_market o m
      → (m' : MarketLeaf) × (get g'.markets k ≡ hash_market o m') × Follows m m'
  Act-markets k m configures h = (m, h, Follows-refl m)
  Act-markets k m {g} (creates key new p) h = (
    m,
    ground
        (arith, p.free, hash_market_ne_zero o l m, l.get-set g.markets key (hash_market o new) k),
    Follows-refl m,
  )
  Act-markets k m {g} (bets key old new r c p) h =
      written g.markets key k old new m p.listed (IsBet-Follows p) h
  Act-markets k m {g} (resolves key old new oracle a b p) h =
      written g.markets key k old new m p.listed (IsResolution-Follows p) h
  Act-markets k m (claims c p) h = (m, h, Follows-refl m)

  pub Acts-markets :
      (k : ℕ) (m : MarketLeaf) {g g' : Ledger o}
      → Acts o g g'
      → get g.markets k ≡ hash_market o m
      → (m' : MarketLeaf) × (get g'.markets k ≡ hash_market o m') × Follows m m'
  Acts-markets k m here h = (m, h, Follows-refl m)
  Acts-markets k m (next acts act) h =
      let (m', h', f) = Acts-markets k m acts h in
      let (m'', h'', f') = Act-markets k m' act h' in (m'', h'', Follows-trans m m' m'' f f')
