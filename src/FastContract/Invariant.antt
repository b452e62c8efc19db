-- ===== src/FastContract/Invariant.antt =====
-- The leaves of the ledger behind the contract of src/fast-contract.ts, along its acts.
use perfect_weather_predicti.Prelude.{ℕ, ◌≡◌, ◌⊎◌, inl, inr, arith, ◌==◌, Bool-cases, sym, ◌∙◌}
use perfect_weather_predicti.O1js.{O1js, IsLawful}
use perfect_weather_predicti.MarketTypes.{MarketLeaf, hash_market}
use perfect_weather_predicti.MarketTypes.Hashing.{hash_market_injective, hash_market_ne_zero}
use perfect_weather_predicti.MarketTypes.Facts.{IsWellFormed}
use perfect_weather_predicti.FastContract.Ledger.{
  Ledger, empty_ledger, IsBet, IsResolution, Act, configures, creates, bets, resolves, claims, Acts,
  here, next,
}

module _ (o : O1js) where
  open o use {get, set}

  -- Each leaf of the markets is absent or the hash of a well-formed market.
  pub record AllWellFormed (g : Ledger o) : Type 0 where
    pub at :
        (k : ℕ)
        → (get g.markets k ≡ 0)
          ⊎ ((m : MarketLeaf) × (get g.markets k ≡ hash_market o m) × IsWellFormed m)

  module _ (l : IsLawful o) where
    -- A leaf that the markets hold is well-formed.
    pub listed-IsWellFormed :
        (g : Ledger o) (k : ℕ) (m : MarketLeaf)
        → AllWellFormed g
        → get g.markets k ≡ hash_market o m
        → IsWellFormed m
    listed-IsWellFormed g k m all h = elim (all.at k) [
      | inl free ↦ absurd (hash_market_ne_zero o l m (sym h ∙ free))
      | inr (m', h', w) ↦ rw (hash_market_injective o l m m' (sym h ∙ h')) w
    ]

    write-AllWellFormed :
        (g : Ledger o) (key : ℕ) (m : MarketLeaf)
        → IsWellFormed m
        → AllWellFormed g
        → (k : ℕ)
        → (get (set g.markets key (hash_market o m)) k ≡ 0)
          ⊎ ((m' : MarketLeaf) × (get (set g.markets key (hash_market o m)) k ≡ hash_market o m')
              × IsWellFormed m')
    write-AllWellFormed g key m w all k = elim (Bool-cases (key == k)) [
      | inl same ↦ inr (m, ground (arith, l.get-set g.markets key (hash_market o m) k), w)
      | inr other ↦
          let kept : get (set g.markets key (hash_market o m)) k ≡ get g.markets k =
            ground (arith, l.get-set g.markets key (hash_market o m) k) in
          rw kept (all.at k)
    ]

    IsBet-IsWellFormed :
        {g : Ledger o} {key receipt : ℕ} {old new : MarketLeaf}
        → IsBet o g key old new receipt
        → IsWellFormed old
        → IsWellFormed new
    IsBet-IsWellFormed p w = record {
      yes_within = p.yes_within;
      window = ground (arith, p.config, w.window);
      no_early_outcome = λ _. p.no_outcome;
      no_early_statement = λ _. p.no_statement;
    }

    IsResolution-IsWellFormed :
        {g : Ledger o} {key : ℕ} {old new : MarketLeaf} {oracle : _} {a b : ℕ}
        → IsResolution o g key old new oracle a b
        → IsWellFormed old
        → IsWellFormed new
    IsResolution-IsWellFormed p w = record {
      yes_within = ground (arith, p.resolves, w.yes_within);
      window = ground (arith, p.resolves.config, w.window);
      no_early_outcome = λ h. cc (p.resolves.resolved);
      no_early_statement = λ h. cc (p.resolves.resolved);
    }

    Act-AllWellFormed : {g g' : Ledger o} → Act o g g' → AllWellFormed g → AllWellFormed g'
    Act-AllWellFormed configures all = all
    Act-AllWellFormed {g} (creates key m p) all = record {
      at = write-AllWellFormed g key m p.well_formed all;
    }
    Act-AllWellFormed {g} (bets key old new r c p) all =
        let w = listed-IsWellFormed g key old all p.listed in
        record { at = write-AllWellFormed g key new (IsBet-IsWellFormed p w) all }
    Act-AllWellFormed {g} (resolves key old new oracle a b p) all =
        let w = listed-IsWellFormed g key old all p.listed in
        record { at = write-AllWellFormed g key new (IsResolution-IsWellFormed p w) all }
    Act-AllWellFormed (claims c p) all = record { at = all.at }

    pub Acts-AllWellFormed : {g : Ledger o} → Acts o (empty_ledger o) g → AllWellFormed g
    Acts-AllWellFormed here = record { at = λ k. inl (l.get-empty_map k) }
    Acts-AllWellFormed (next acts act) = Act-AllWellFormed act (Acts-AllWellFormed acts)
