-- ===== src/O1js/Interface.antt =====
-- The operations of o1js, and the laws that stand for its documentation.
use perfect_weather_predicti.Prelude.{
  ℕ, ◌-◌, ◌+◌, ◌*◌, ◌/◌, ◌^◌, ◌≡◌, ◌≢◌, Option, none, some, List, length, ltb, leb, ◌==◌,
  if◌then◌else◌,
}

pub record O1js : Type 1 where
  -- `PublicKey` and its `toFields()`
  pub PublicKey : Type 0
  pub to_fields : PublicKey → List ℕ
  -- `Poseidon.hash`
  pub hash : List ℕ → ℕ
  -- `add`, `sub`, `mul` and `div` of `UInt64`, with their range checks
  pub add : ℕ → ℕ → Option ℕ
  pub sub : ℕ → ℕ → Option ℕ
  pub mul : ℕ → ℕ → Option ℕ
  pub div : ℕ → ℕ → Option ℕ
  -- `MerkleMap`: `new MerkleMap()`, `get`, `set`, `getRoot`, `getWitness`
  pub MerkleMap : Type 0
  pub empty_map : MerkleMap
  pub get : MerkleMap → ℕ → ℕ
  pub set : MerkleMap → ℕ → ℕ → MerkleMap
  pub get_root : MerkleMap → ℕ
  -- `MerkleMapWitness` and its `computeRootAndKey`
  pub MerkleMapWitness : Type 0
  pub get_witness : MerkleMap → ℕ → MerkleMapWitness
  pub compute_root_and_key : MerkleMapWitness → ℕ → ℕ × ℕ

-- A 64-bit value, or a failed range check.
abbrev pub uint64_mod : ℕ
uint64_mod = 2 ^ 64

abbrev pub checked : ℕ → Option ℕ
checked n = if ltb n uint64_mod then some n else none

-- The ideal of Poseidon: no collision among inputs of one length, no input with digest 0, the value
-- of an absent leaf. Of Merkle maps: a witness that opens a map's root tells the leaf at its key,
-- and gives the root after a write there; `getWitness` opens the root, and maps with the same leaves
-- have the same root.
pub record IsLawful (o : O1js) : Type 0 where
  pub length-to_fields : (p q : o.PublicKey) → length (o.to_fields p) ≡ length (o.to_fields q)
  pub to_fields_injective : (p q : o.PublicKey) → o.to_fields p ≡ o.to_fields q → p ≡ q
  pub hash_injective : (xs ys : List ℕ) → length xs ≡ length ys → o.hash xs ≡ o.hash ys → xs ≡ ys
  pub hash_ne_zero : (xs : List ℕ) → o.hash xs ≢ 0
  pub add_lem : (a b : ℕ) → o.add a b ≡ checked (a + b)
  pub sub_lem : (a b : ℕ) → o.sub a b ≡ (if leb b a then some (a - b) else none)
  pub mul_lem : (a b : ℕ) → o.mul a b ≡ checked (a * b)
  pub div_lem : (a b : ℕ) → o.div a b ≡ (if b == 0 then none else some (a / b))
  pub get-empty_map : (k : ℕ) → o.get o.empty_map k ≡ 0
  pub get-set :
      (m : o.MerkleMap) (k v j : ℕ) → o.get (o.set m k v) j ≡ (if k == j then v else o.get m j)
  pub witness_tells :
      (w : o.MerkleMapWitness) (m : o.MerkleMap) (k v : ℕ)
      → o.compute_root_and_key w v ≡ (o.get_root m, k)
      → o.get m k ≡ v
  pub witness_writes :
      (w : o.MerkleMapWitness) (m : o.MerkleMap) (k v v' : ℕ)
      → o.compute_root_and_key w v ≡ (o.get_root m, k)
      → o.compute_root_and_key w v' ≡ (o.get_root (o.set m k v'), k)
  pub get_witness_opens :
      (m : o.MerkleMap) (k : ℕ)
      → o.compute_root_and_key (o.get_witness m k) (o.get m k) ≡ (o.get_root m, k)
  pub root_ext :
      (m m' : o.MerkleMap) → ((k : ℕ) → o.get m k ≡ o.get m' k) → o.get_root m ≡ o.get_root m'
