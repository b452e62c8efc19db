-- ===== src/O1js/Concrete.antt =====
-- A concrete o1js that meets the laws: digests and roots are codes of lists, and a witness is a map
-- with a key. The tests and examples of the development run on it.
mod Codes
mod Maps
use perfect_weather_predicti.Prelude.{
  ℕ, suc, ◌+◌, ◌-◌, ◌*◌, ◌/◌, ◌≡◌, refl, ap, Option, some, none, List, [], ◌∷◌, length, arith, leb,
  ◌==◌, if◌then◌else◌,
}
use perfect_weather_predicti.O1js.Interface.{O1js, IsLawful, checked}
use Codes.{code, code_injective}
use Maps.{get, set, root, get-set, root_tells, root_writes, root_opens, root_ext}

unfoldable pub concrete : O1js
unfolding code get set root
concrete = record {
  PublicKey = ℕ;
  to_fields = λ p. p ∷ [];
  hash = λ xs. suc (code xs);
  add = λ a b. checked (a + b);
  sub = λ a b. if leb b a then some (a - b) else none;
  mul = λ a b. checked (a * b);
  div = λ a b. if b == 0 then none else some (a / b);
  MerkleMap = List ℕ;
  empty_map = [];
  get = get;
  set = set;
  get_root = root;
  MerkleMapWitness = List ℕ × ℕ;
  get_witness = λ m k. (m, k);
  compute_root_and_key = λ w v. (root (set w.0 w.1 v), w.1);
}

digest_injective :
    (xs ys : List ℕ) → length xs ≡ length ys → suc (code xs) ≡ suc (code ys) → xs ≡ ys
digest_injective xs ys l e = code_injective xs ys l (omega arith)

opened_root : {a b j k : ℕ} → ◌≡◌ {A = ℕ × ℕ} (a, j) (b, k) → (a ≡ b) × (j ≡ k)
opened_root e = (ap (λ (p : ℕ × ℕ). p.0) e, ap (λ (p : ℕ × ℕ). p.1) e)

concrete_tells :
    (w m : List ℕ) (j k v : ℕ) → ◌≡◌ {A = ℕ × ℕ} (root (set w j v), j) (root m, k) → get m k ≡ v
concrete_tells w m j k v e = let (p, q) = opened_root e in root_tells w m k v (rw (← q) p)

concrete_writes :
    (w m : List ℕ) (j k v v' : ℕ)
    → ◌≡◌ {A = ℕ × ℕ} (root (set w j v), j) (root m, k)
    → ◌≡◌ {A = ℕ × ℕ} (root (set w j v'), j) (root (set m k v'), k)
concrete_writes w m j k v v' e =
    let (p, q) = opened_root e in
    rw q (ap (λ (r : ℕ). (r, k)) (root_writes w m k v v' (rw (← q) p)))

concrete_opens : (m : List ℕ) (k : ℕ) → ◌≡◌ {A = ℕ × ℕ} (root (set m k (get m k)), k) (root m, k)
concrete_opens m k = ap (λ (r : ℕ). (r, k)) (root_opens m k)

get_nothing : (k : ℕ) → get [] k ≡ 0
unfolding get
get_nothing k = refl

pub concrete-IsLawful : IsLawful concrete
unfolding concrete
concrete-IsLawful = record {
  length-to_fields = λ p q. refl;
  to_fields_injective = λ p q e. cc;
  hash_injective = digest_injective;
  hash_ne_zero = λ xs e. omega arith;
  add_lem = λ a b. refl;
  sub_lem = λ a b. refl;
  mul_lem = λ a b. refl;
  div_lem = λ a b. refl;
  get-empty_map = get_nothing;
  get-set = get-set;
  witness_tells = λ w m k v e. concrete_tells w.0 m w.1 k v e;
  witness_writes = λ w m k v v' e. concrete_writes w.0 m w.1 k v v' e;
  get_witness_opens = concrete_opens;
  root_ext = root_ext;
}
