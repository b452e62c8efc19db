-- ===== src/StateStore/Tables.antt =====
-- The maps that src/state-store.ts builds from its tables, and a write into such a table.
use perfect_weather_predicti.Prelude.{
  ℕ, ◌≡◌, ◌≢◌, refl, sym, ap, ◌∙◌, subst, true, false, Option, none, some, some-injective, [], ◌∷◌,
  String, str_eq, eq_iff, Dict, lookup, put, lookup-put, lookup-cons, arith, ◌==◌, if◌then◌else◌,
  >>=-eq-some, Bool-cases, inl, inr,
}
use perfect_weather_predicti.O1js.{O1js, IsLawful, NumberText, IsLawfulText}
use perfect_weather_predicti.StateStore.{set_entries}

-- The keys are printed numbers, each once.
pub data IsTable (x : NumberText) {V : Type 0} : Dict V → Type 0 where
  empty : IsTable x []
  entry :
      (n : ℕ) {key : String} {v : V} {d : Dict V}
      → key ≡ x.to_string n
      → lookup key d ≡ none
      → IsTable x d
      → IsTable x ((key, v) ∷ d)

print_injective :
    (x : NumberText) (tl : IsLawfulText x) (m n : ℕ) → x.to_string m ≡ x.to_string n → m ≡ n
print_injective x tl m n e =
    some-injective m n (sym (tl.field_of-to_string m) ∙ ap x.field_of e ∙ tl.field_of-to_string n)

module _ {V : Type 0} where
  put-absent :
      (key j : String) (v : V) (d : Dict V)
      → key ≢ j
      → lookup j d ≡ none
      → lookup j (put key v d) ≡ none
  put-absent key j v d differ absent = ground (arith, eq_iff key j, lookup-put key j v d)

  nothing_found : {A : Type 0} (j : String) (v : V) → lookup j [] ≡ some v → A
  unfolding lookup
  nothing_found j v found = cc

  lookup-cons-none :
      (j key : String) (w : V) (d : Dict V)
      → lookup j ((key, w) ∷ d) ≡ none
      → (key ≢ j) × (lookup j d ≡ none)
  unfolding lookup
  lookup-cons-none j key w d absent = ground (arith, eq_iff key j)

  put-first :
      (key k : String) (v w : V) (d : Dict V)
      → str_eq k key ≡ true
      → put key v ((k, w) ∷ d) ≡ (key, v) ∷ d
  unfolding put
  put-first key k v w d same = ground arith

  put-later :
      (key k : String) (v w : V) (d : Dict V)
      → str_eq k key ≡ false
      → put key v ((k, w) ∷ d) ≡ (k, w) ∷ put key v d
  unfolding put
  put-later key k v w d differ = ground arith

module _ (x : NumberText) {V : Type 0} where
  pub put-IsTable : (n : ℕ) (v : V) (d : Dict V) → IsTable x d → IsTable x (put (x.to_string n) v d)
  unfolding put lookup
  put-IsTable n v [] empty = entry n refl refl empty
  put-IsTable n v ((k, w) ∷ d) (entry m printed absent table) =
      let key = x.to_string n in
      elim (Bool-cases (str_eq k key)) [
        | inl same ↦
            let e : k ≡ key = ground (arith, eq_iff k key) in
            subst (IsTable x) (sym (put-first key k v w d same))
              (entry n refl (subst (λ j. lookup j d ≡ none) e absent) table)
        | inr differ ↦
            let e : key ≢ k = λ e. ground (arith, eq_iff k key) in
            subst (IsTable x) (sym (put-later key k v w d differ))
              (entry m printed (put-absent key k v d e absent) (put-IsTable n v d table))
      ]

module _ (o : O1js) (l : IsLawful o) (x : NumberText) (tl : IsLawfulText x) {V : Type 0}
    (value : V → Option ℕ) where
  open o use {MerkleMap, get, set}

  -- The second map has `v` at `k`, and is as the first elsewhere.
  unfoldable pub Differs : ℕ → ℕ → MerkleMap → MerkleMap → Type 0
  Differs k v m m' = (j : ℕ) → get m' j ≡ (if k == j then v else get m j)

  set_entries-cons :
      (key : String) (stored : V) (d : Dict V) (m : MerkleMap) (v k : ℕ)
      → value stored ≡ some v
      → x.field_of key ≡ some k
      → set_entries x o value ((key, stored) ∷ d) m ≡ set_entries x o value d (set m k v)
  unfolding set_entries
  set_entries-cons key stored d m v k read parsed = ground arith

  overwrite : (k v n w : ℕ) (m : MerkleMap) → n ≡ k → Differs k v (set m n w) (set m k v)
  unfolding Differs
  overwrite k v n w m same j = ground (arith, l.get-set m n w j, l.get-set m k v j)

  set-Differs : (k v : ℕ) (m : MerkleMap) → Differs k v m (set m k v)
  unfolding Differs
  set-Differs k v m j = l.get-set m k v j

  -- What `Field` reads from a printed key prints as that key.
  printed_back :
      (key : String) (n n' : ℕ)
      → key ≡ x.to_string n
      → x.field_of key ≡ some n'
      → key ≡ x.to_string n'
  printed_back key n n' printed parsed =
      printed
      ∙ ap x.to_string (
          some-injective n n'
            (sym (tl.field_of-to_string n) ∙ ap x.field_of (sym printed) ∙ parsed))

  set_both :
      (k v n w : ℕ) (m m' : MerkleMap)
      → k ≢ n
      → Differs k v m m'
      → Differs k v (set m n w) (set m' n w)
  unfolding Differs
  set_both k v n w m m' differ h j = ground (arith, h j, l.get-set m n w j, l.get-set m' n w j)

  -- Entries under other keys leave the difference.
  set_entries-Differs :
      (k v : ℕ) (d : Dict V) (m m' b : MerkleMap)
      → IsTable x d
      → lookup (x.to_string k) d ≡ none
      → Differs k v m m'
      → set_entries x o value d m ≡ some b
      → (b' : MerkleMap) × (set_entries x o value d m' ≡ some b') × Differs k v b b'
  unfolding set_entries lookup
  set_entries-Differs k v [] m m' b empty absent h built =
      (m', refl, subst (λ q. Differs k v q m') (some-injective m b built) h)
  set_entries-Differs k v ((key, stored) ∷ d) m m' b (entry n printed fresh table) absent h built =
      let (w, read, tail) = >>=-eq-some (value stored) _ built in
      let (n', parsed, rest) = >>=-eq-some (x.field_of key) _ tail in
      let (other, absent') = lookup-cons-none (x.to_string k) key stored d absent in
      let k-ne-n' : k ≢ n' =
        λ e. other (printed_back key n n' printed parsed ∙ ap x.to_string (sym e)) in
      let (b', built', differs) =
        set_entries-Differs k v d (set m n' w) (set m' n' w) b table absent'
          (set_both k v n' w m m' k-ne-n' h) rest in
      (b', ground (arith, read, parsed, built'), differs)

  -- A write into the table is a write into the map.
  pub set_entries-put :
      (k v : ℕ) (stored : V) (d : Dict V) (m b : MerkleMap)
      → IsTable x d
      → value stored ≡ some v
      → set_entries x o value d m ≡ some b
      → (b' : MerkleMap) × (set_entries x o value (put (x.to_string k) stored d) m ≡ some b')
        × Differs k v b b'
  unfolding set_entries put
  set_entries-put k v stored [] m b empty read built = (
    set m k v,
    ground (arith, read, tl.field_of-to_string k),
    subst (λ q. Differs k v q (set m k v)) (some-injective m b built) (set-Differs k v m),
  )
  set_entries-put k v stored ((key, old) ∷ d) m b (entry n printed fresh table) read built =
      let (w, read_old, tail) = >>=-eq-some (value old) _ built in
      let (n', parsed, rest) = >>=-eq-some (x.field_of key) _ tail in
      elim (Bool-cases (str_eq key (x.to_string k))) [
        | inl same ↦
            let e : key ≡ x.to_string k = ground (arith, eq_iff key (x.to_string k)) in
            let same_number : n' ≡ k =
              print_injective x tl n' k (sym (printed_back key n n' printed parsed) ∙ e) in
            let absent = subst (λ j. lookup j d ≡ none) e fresh in
            let (b', built', differs) =
              set_entries-Differs k v d (set m n' w) (set m k v) b table absent
                (overwrite k v n' w m same_number) rest in
            (
              b',
              ap (λ q. set_entries x o value q m) (put-first (x.to_string k) key stored old d same)
                  ∙ set_entries-cons (x.to_string k) stored d m v k read (tl.field_of-to_string k)
                  ∙ built',
              differs,
            )
        | inr differ ↦
            let (b', built', differs) =
              set_entries-put k v stored d (set m n' w) b table read rest in
            (
              b',
              ap (λ q. set_entries x o value q m)
                    (put-later (x.to_string k) key stored old d differ)
                  ∙ set_entries-cons key old (put (x.to_string k) stored d) m w n' read_old parsed
                  ∙ built',
              differs,
            )
      ]

  -- What stands in the map: under a key that the table lacks, what stood there before; under one
  -- that it has, the value of the entry.
  pub set_entries-get :
      (k : ℕ) (d : Dict V) (m b : MerkleMap)
      → IsTable x d
      → set_entries x o value d m ≡ some b
      → (lookup (x.to_string k) d ≡ none → get b k ≡ get m k)
        × ((stored : V) → lookup (x.to_string k) d ≡ some stored → value stored ≡ some (get b k))
  unfolding set_entries
  set_entries-get k [] m b empty built = (
    λ absent. ap (λ q. get q k) (sym (some-injective m b built)),
    λ stored found. nothing_found (x.to_string k) stored found,
  )
  set_entries-get k ((key, old) ∷ d) m b (entry n printed fresh table) built =
      let (w, read, tail) = >>=-eq-some (value old) _ built in
      let (n', parsed, rest) = >>=-eq-some (x.field_of key) _ tail in
      let (lacks, has) = set_entries-get k d (set m n' w) b table rest in
      let back = printed_back key n n' printed parsed in
      (
        λ absent.
            let (other, absent') = lookup-cons-none (x.to_string k) key old d absent in
            let differ : n' ≢ k = λ e. other (back ∙ ap x.to_string e) in
            ground (arith, lacks absent', l.get-set m n' w k, differ),
        λ stored found. elim (lookup-cons (x.to_string k) key old stored d found) [
          | inl (same_key, same) ↦
              let e : n' ≡ k = print_injective x tl n' k (sym back ∙ same_key) in
              let fresh' = subst (λ j. lookup j d ≡ none) same_key fresh in
              ground (arith, lacks fresh', l.get-set m n' w k, e, read, same)
          | inr later ↦ has stored later
        ],
      )
