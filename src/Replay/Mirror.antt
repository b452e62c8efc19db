-- ===== src/Replay/Mirror.antt =====
-- The operator's state against the ledger behind the roots of the fast contract
-- (src/recover-state-from-events.ts).
use perfect_weather_predicti.Prelude.{
  ℕ, ◌≡◌, refl, sym, ap, ◌∙◌, subst, Option, some, [], String, Dict, put, arith, eq_iff,
}
use perfect_weather_predicti.O1js.{O1js, IsLawful, NumberText, IsLawfulText}
use perfect_weather_predicti.MarketTypes.{MarketLeaf, hash_market}
use perfect_weather_predicti.StateStore.{
  OperatorState, serialize_market_leaf, set_entries, market_value,
}
use perfect_weather_predicti.StateStore.Roundtrip.{IsRanged, deserialize_market_leaf-serialize}
use perfect_weather_predicti.StateStore.Tables.{
  IsTable, empty, put-IsTable, set_entries-put, Differs,
}
use perfect_weather_predicti.FastContract.{FastState}
use perfect_weather_predicti.FastContract.Ledger.{Ledger, Represents}
use perfect_weather_predicti.Replay.{use_nonce}

module _ (o : O1js) (l : IsLawful o) (x : NumberText) (tl : IsLawfulText x) where
  open o use {MerkleMap, empty_map, get, set, get_root}

  -- The map that is built from the table has the leaves of the map given.
  pub record Keeps {V : Type 0} (value : V → Option ℕ) (d : Dict V) (m : MerkleMap) : Type 0 where
    pub table : IsTable x d
    pub built : MerkleMap
    pub builds : set_entries x o value d empty_map ≡ some built
    pub same : (j : ℕ) → get built j ≡ get m j

  pub Keeps-nothing : {V : Type 0} (value : V → Option ℕ) → Keeps value [] empty_map
  unfolding set_entries
  Keeps-nothing value = record { table = empty; built = empty_map; builds = refl; same = λ j. refl }

  pub Keeps-put :
      {V : Type 0} (value : V → Option ℕ) (k v : ℕ) (stored : V) (d : Dict V) (m : MerkleMap)
      → value stored ≡ some v
      → Keeps value d m
      → Keeps value (put (x.to_string k) stored d) (set m k v)
  unfolding Differs
  Keeps-put value k v stored d m read keeps =
      let (b, builds, differs) =
        set_entries-put o l x tl value k v stored d empty_map keeps.built keeps.table read
          keeps.builds in
      record {
        table = put-IsTable x k stored d keeps.table;
        built = b;
        builds = builds;
        same = λ j. ground (arith, differs j, keeps.same j, l.get-set m k v j);
      }

  pub Keeps-root :
      {V : Type 0} (value : V → Option ℕ) (d : Dict V) (m : MerkleMap) (keeps : Keeps value d m)
      → get_root keeps.built ≡ get_root m
  Keeps-root value d m keeps = l.root_ext keeps.built m keeps.same

  pub market_value-serialize :
      (m : MarketLeaf)
      → IsRanged m
      → market_value x o (serialize_market_leaf x m) ≡ some (hash_market o m)
  market_value-serialize m ranged = ground (arith, deserialize_market_leaf-serialize x tl m ranged)

  used :
      (n : ℕ) (d : Dict String) → put (x.to_string n) "1" d ≡ use_nonce x (some (x.to_string n)) d
  used n d = ground (arith, tl.to_string_ne_empty n, eq_iff (x.to_string n) "")

  pub reads_one : x.field_of "1" ≡ some 1
  reads_one = ap x.field_of (sym tl.to_string_one) ∙ tl.field_of-to_string 1

  pub Keeps-nonce :
      (n : ℕ) (d : Dict String) (m : MerkleMap)
      → Keeps x.field_of d m
      → Keeps x.field_of (use_nonce x (some (x.to_string n)) d) (set m n 1)
  Keeps-nonce n d m keeps =
      subst (λ q. Keeps x.field_of q (set m n 1)) (used n d)
        (Keeps-put x.field_of n 1 "1" d m reads_one keeps)

  -- The operator's state holds the leaves of the ledger behind the contract's roots.
  pub record Mirrors (s : FastState) (g : Ledger o) (d : OperatorState) : Type 0 where
    pub represents : Represents o s g
    pub markets : Keeps (market_value x o) d.markets g.markets
    pub receipts : Keeps x.field_of d.receipts g.receipts
    pub claimed : Keeps x.field_of d.claimed_receipts g.claimed
    pub nonces : Keeps x.field_of d.used_nonces g.nonces
