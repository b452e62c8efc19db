-- ===== src/O1js/Witnesses.antt =====
-- The two assertions that the contracts make of each Merkle witness, and what they tell.
use perfect_weather_predicti.Prelude.{ℕ, ◌≡◌, ap, Option, some, arith, ◌==◌, assert, ◌>>◌}
use perfect_weather_predicti.O1js.Interface.{O1js, IsLawful}

module _ (o : O1js) where
  open o use {MerkleMap, MerkleMapWitness, get, set, get_root, get_witness, compute_root_and_key}

  -- `const [root, key] = w.computeRootAndKey(v); root.assertEquals(r); key.assertEquals(k)`
  unfoldable pub check_witness : MerkleMapWitness → ℕ → ℕ → ℕ → Option (Unit {0})
  check_witness w v r k =
      let (root, key) = compute_root_and_key w v in do assert (root == r); assert (key == k)

  -- `const [root] = w.computeRootAndKey(v)`
  abbrev pub root_with : MerkleMapWitness → ℕ → ℕ
  root_with w v = (compute_root_and_key w v).0

  pub check_witness-eq-some :
      (w : MerkleMapWitness) (v r k : ℕ)
      → check_witness w v r k ≡ some tt
      → compute_root_and_key w v ≡ (r, k)
  unfolding check_witness
  check_witness-eq-some w v r k h = ground arith

  -- A witness of `get_witness` passes both assertions.
  pub check_witness-get_witness :
      (l : IsLawful o) (m : MerkleMap) (k : ℕ)
      → check_witness (get_witness m k) (get m k) (get_root m) k ≡ some tt
  unfolding check_witness
  check_witness-get_witness l m k = ground (arith, l.get_witness_opens m k)

  module _ (l : IsLawful o) (w : MerkleMapWitness) (m : MerkleMap) (v k : ℕ) where
    pub checked_tells : check_witness w v (get_root m) k ≡ some tt → get m k ≡ v
    checked_tells h = l.witness_tells w m k v (check_witness-eq-some w v (get_root m) k h)

    pub checked_writes :
        (v' : ℕ)
        → check_witness w v (get_root m) k ≡ some tt
        → root_with w v' ≡ get_root (set m k v')
    checked_writes v' h =
        ap (λ (p : ℕ × ℕ). p.0)
          (l.witness_writes w m k v v' (check_witness-eq-some w v (get_root m) k h))

  -- The witness of a key, at the value that stands there.
  pub check_witness_at :
      (l : IsLawful o) (m : MerkleMap) (k v r : ℕ)
      → r ≡ get_root m
      → get m k ≡ v
      → check_witness (get_witness m k) v r k ≡ some tt
  check_witness_at l m k v r e h = rw (e, ← h) (check_witness-get_witness l m k)
