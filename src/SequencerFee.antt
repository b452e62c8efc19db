-- ===== src/SequencerFee.antt =====
-- src/sequencer-fee.ts, lines 1 to 11 and 44 to 86: the fee that the server suggests. Parameters are
-- the request, whose failure is none, what JavaScript makes of a number (whether it is finite and
-- positive, and its rounding) and `Number.parseInt`. Printing the fee is not modelled.
mod Percentile
mod Tests
use perfect_weather_predicti.Prelude.{
  ℕ, zero, suc, ◌-◌, ◌*◌, ◌/◌, Bool, true, false, Option, none, some, List, [], ◌∷◌, ◌++◌, length,
  String, str_eq, ℤ, pos, negsuc, ltb, leb, ◌>>=◌, if◌then◌else◌,
}
use perfect_weather_predicti.Prelude.Sorting.{ascending}

-- `Math.max` and `Math.min`
abbrev pub max : ℕ → ℕ → ℕ
max a b = if leb a b then b else a

abbrev pub min : ℕ → ℕ → ℕ
min a b = if leb a b then a else b

-- `l[i]`
abbrev pub get_elem? : {A : Type 0} → List A → ℕ → Option A
get_elem? [] i = none
get_elem? (v ∷ l) zero = some v
get_elem? (v ∷ l) (suc i) = get_elem? l i

-- A number as `parseRawFeeInt` reads it: `positive` is that it is finite and greater than 0.
pub record Numeric : Type 0 where
  pub positive : Bool
  pub rounded : ℕ

-- The `feePayer.fee` of a command.
pub data RawFee : Type 0 where
  number : Numeric → RawFee
  text : String → RawFee
  other : RawFee

pub record Pool : Type 0 where
  pub zkapp_commands : List RawFee
  pub user_commands : List RawFee

pub data Source : Type 0 where
  configured_fallback sequencer_mempool_p75 : Source

pub record SuggestedFee : Type 0 where
  pub fee_raw : ℕ
  pub source : Source

abbrev pub fallback : ℕ
fallback = 100_000_000

abbrev positive_int : Option ℤ → Option ℕ
positive_int (some (pos n)) = if ltb 0 n then some n else none
positive_int (some (negsuc n)) = none
positive_int none = none

abbrev pub pooled : Pool → List RawFee
pooled p = p.zkapp_commands ++ p.user_commands

-- `fees[Math.min(fees.length - 1, Math.floor(fees.length * 0.75))]`
unfoldable pub p75_of : List ℕ → Option ℕ
p75_of fees = get_elem? fees (min (length fees - 1) (length fees * 3 / 4))

abbrev pub fallback_fee : SuggestedFee
fallback_fee = record { fee_raw = fallback; source = configured_fallback }

-- The suggestion for the sorted fees. No fee at the index would be `undefined`, which is none.
unfoldable pub suggest : List ℕ → Option SuggestedFee
unfolding p75_of
suggest [] = some fallback_fee
suggest (fee ∷ fees) = do
  p75 ← p75_of (fee ∷ fees)
  some (record { fee_raw = max fallback p75; source = sequencer_mempool_p75 })

module _ (trim : String → String) (parse_int : String → Option ℤ) where
  unfoldable pub parse_raw_fee_int : RawFee → Option ℕ
  parse_raw_fee_int (number n) = if n.positive then some n.rounded else none
  parse_raw_fee_int (text t) =
      if str_eq (trim t) "" then none else positive_int (parse_int (trim t))
  parse_raw_fee_int other = none

  -- The fees that are there and greater than 0.
  unfoldable pub positive_fees : List RawFee → List ℕ
  unfolding parse_raw_fee_int
  positive_fees [] = []
  positive_fees (raw ∷ raws) =
      let rest = positive_fees raws in
      elim (parse_raw_fee_int raw) [
        | none ↦ rest
        | some fee ↦ if ltb 0 fee then fee ∷ rest else rest
      ]

  -- `getSuggestedSequencerFee`, of what the request gives.
  unfoldable pub get_suggested_sequencer_fee : Option Pool → Option SuggestedFee
  unfolding positive_fees suggest
  get_suggested_sequencer_fee none = some fallback_fee
  get_suggested_sequencer_fee (some p) = suggest (ascending (positive_fees (pooled p)))
