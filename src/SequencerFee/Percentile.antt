-- ===== src/SequencerFee/Percentile.antt =====
-- The fee at the index, among the fees of the pool (src/sequencer-fee.ts, lines 61 to 79).
use perfect_weather_predicti.Prelude.{
  ℕ, zero, suc, ◌+◌, ◌*◌, ◌/◌, ◌≤◌, ◌<◌, ◌≡◌, refl, ap, sym, ◌∙◌, ◌⊎◌, inl, inr, Option, none, some,
  List, [], ◌∷◌, length, String, ℤ, ltb, leb, if◌then◌else◌, arith,
}
use perfect_weather_predicti.Prelude.Sorting.{
  ascending, IsAscending, ascending-IsAscending, insert_by, sort_by,
}
use perfect_weather_predicti.SequencerFee.{
  max, get_elem?, Pool, SuggestedFee, sequencer_mempool_p75, fallback, positive_fees, pooled,
  p75_of, suggest, fallback_fee, get_suggested_sequencer_fee,
}

-- How many are at most `v`.
abbrev pub count_le : ℕ → List ℕ → ℕ
count_le v [] = 0
count_le v (x ∷ l) = (if leb x v then 1 else 0) + count_le v l

count_le-insert_by : (v x : ℕ) (l : List ℕ) → count_le v (insert_by ltb x l) ≡ count_le v (x ∷ l)
unfolding insert_by
count_le-insert_by v x [] = refl
count_le-insert_by v x (y ∷ l) = ground (arith, count_le-insert_by v x l)

count_le-ascending : (v : ℕ) (l : List ℕ) → count_le v (ascending l) ≡ count_le v l
unfolding sort_by
count_le-ascending v [] = refl
count_le-ascending v (x ∷ l) =
    omega (arith, count_le-insert_by v x (sort_by ltb l), count_le-ascending v l)

length-insert_by : (x : ℕ) (l : List ℕ) → length (insert_by ltb x l) ≡ suc (length l)
unfolding insert_by
length-insert_by x [] = refl
length-insert_by x (y ∷ l) = ground (arith, length-insert_by x l)

length-ascending : (l : List ℕ) → length (ascending l) ≡ length l
unfolding sort_by
length-ascending [] = refl
length-ascending (x ∷ l) = omega (arith, length-insert_by x (sort_by ltb l), length-ascending l)

-- Up to an index, an ascending list is at most what stands there.
head-le :
    (x v : ℕ) (l : List ℕ) (i : ℕ) → IsAscending (x ∷ l) → get_elem? (x ∷ l) i ≡ some v → x ≤ v
head-le x v l zero a e = ground arith
head-le x v [] (suc i) a e = cc
head-le x v (y ∷ l) (suc i) (h, a) e = omega (arith, head-le y v l i a e)

count_le-get : (l : List ℕ) (i v : ℕ) → IsAscending l → get_elem? l i ≡ some v → i < count_le v l
count_le-get [] i v a e = cc
count_le-get (x ∷ l) zero v a e = ground arith
count_le-get (x ∷ []) (suc i) v a e = cc
count_le-get (x ∷ y ∷ l) (suc i) v (h, a) e =
    ground (arith, count_le-get (y ∷ l) i v a e, head-le x v (y ∷ l) (suc i) (h, a) e)

get_elem?-lt : (l : List ℕ) (i : ℕ) → i < length l → (v : ℕ) × (get_elem? l i ≡ some v)
get_elem?-lt [] i h = absurd (omega arith)
get_elem?-lt (x ∷ l) zero h = (x, refl)
get_elem?-lt (x ∷ l) (suc i) h = get_elem?-lt l i (omega arith)

count_le_mono : (v w : ℕ) (l : List ℕ) → v ≤ w → count_le v l ≤ count_le w l
count_le_mono v w [] h = omega arith
count_le_mono v w (x ∷ l) h = ground (arith, count_le_mono v w l h)

no_length : (l : List ℕ) → 0 ≡ length l → l ≡ []
no_length [] h = refl
no_length (x ∷ l) h = absurd (omega arith)

p75_of-lem :
    (fees : List ℕ)
    → IsAscending fees
    → 0 < length fees
    → (v : ℕ) × (p75_of fees ≡ some v) × (3 * length fees < 4 * count_le v fees)
unfolding p75_of
p75_of-lem fees a h =
    let i = length fees * 3 / 4 in
    let (v, found) = get_elem?-lt fees i (omega arith) in
    (v, ground (arith, found), omega (arith, count_le-get fees i v a found))

suggest-lem :
    (fees : List ℕ)
    → IsAscending fees
    → ((fees ≡ []) × (suggest fees ≡ some fallback_fee))
      ⊎ ((r : SuggestedFee) × (suggest fees ≡ some r)
          × (r.source ≡ sequencer_mempool_p75)
          × (fallback ≤ r.fee_raw)
          × (3 * length fees < 4 * count_le r.fee_raw fees))
unfolding suggest
suggest-lem [] a = inl (refl, refl)
suggest-lem (fee ∷ fees) a =
    let (v, found, most) = p75_of-lem (fee ∷ fees) a (omega arith) in
    let more = count_le_mono v (max fallback v) (fee ∷ fees) (ground arith) in
    let r : SuggestedFee = record { fee_raw = max fallback v; source = sequencer_mempool_p75 } in
    inr (r, ground (arith, found), refl, ground arith, omega (arith, more))

module _ (trim : String → String) (parse_int : String → Option ℤ) where
  -- The fees that the answer of the network has.
  abbrev pub fees_of : Option Pool → List ℕ
  fees_of none = []
  fees_of (some p) = positive_fees trim parse_int (pooled p)

  -- A fee is suggested for any answer of the network, a failure included. If the pool has positive
  -- fees, the suggested one is at least the fallback, and more than three quarters of the pool's
  -- fees are at most the suggested one; if not, it is the fallback.
  pub suggested_fee_covers :
      (answer : Option Pool)
      → ((fees_of answer ≡ [])
          × (get_suggested_sequencer_fee trim parse_int answer ≡ some fallback_fee))
        ⊎ ((r : SuggestedFee) × (get_suggested_sequencer_fee trim parse_int answer ≡ some r)
            × (r.source ≡ sequencer_mempool_p75)
            × (fallback ≤ r.fee_raw)
            × (3 * length (fees_of answer) < 4 * count_le r.fee_raw (fees_of answer)))
  unfolding get_suggested_sequencer_fee
  suggested_fee_covers none = inl (refl, refl)
  suggested_fee_covers (some p) =
      let fees = positive_fees trim parse_int (pooled p) in
      elim (suggest-lem (ascending fees) (ascending-IsAscending fees)) [
        | inl (nothing, e) ↦
            inl (no_length fees (ap length (sym nothing) ∙ length-ascending fees), e)
        | inr (r, e, source, enough, most) ↦ inr (
          r,
          e,
          source,
          enough,
          omega (arith, length-ascending fees, count_le-ascending r.fee_raw fees),
        )
      ]
