-- ===== src/OracleWorker/Tests/Printed.antt =====
-- A way to print the values that a request carries, in which no two values are printed alike.
use perfect_weather_predicti.Prelude.{
  ℕ, zero, suc, ◌≡◌, ◌≢◌, ap, none, some, inl, inr, Option-cases, arith,
}
use Prim.Native.Char.{Char, code}
use Prim.Native.String.{String, [], ◌∷◌}
use perfect_weather_predicti.StateStore.{StoredMarketLeaf, StoredMarketMeta}
use perfect_weather_predicti.OracleWorker.{DailyMarket}
use perfect_weather_predicti.OracleWorker.Changes.{Printers}
use perfect_weather_predicti.OracleWorker.Changes.Merged.{AreInjective}

-- Each character is marked, and the end too.
unfoldable print : (text follows : String) → String
print [] follows = "." ∷ follows
print (c ∷ text) follows = "-" ∷ c ∷ print text follows

abbrev stop : Char
stop = "."

abbrev mark : Char
mark = "-"

marks_differ : stop ≢ mark
marks_differ h = let codes : code stop ≡ code mark = ap code h in omega arith

print_eq : (s t k l : String) → print s k ≡ print t l → (s ≡ t) × (k ≡ l)
unfolding print
print_eq [] [] k l h = ground arith
print_eq [] (d ∷ t) k l h = ground (arith, marks_differ)
print_eq (c ∷ s) [] k l h = ground (arith, marks_differ)
print_eq (c ∷ s) (d ∷ t) k l h = ground (arith, print_eq s t k l)

print_count : (n : ℕ) (follows : String) → String
print_count zero follows = print "" follows
print_count (suc n) follows = "-" ∷ print_count n follows

count_eq : (m n : ℕ) (k l : String) → print_count m k ≡ print_count n l → (m ≡ n) × (k ≡ l)
unfolding print_count print
count_eq zero zero k l h = ground arith
count_eq zero (suc n) k l h = ground (arith, marks_differ)
count_eq (suc m) zero k l h = ground (arith, marks_differ)
count_eq (suc m) (suc n) k l h = ground (arith, count_eq m n k l)

print_market : StoredMarketLeaf → String
print_market m = print m.config_hash (
    print m.close_slot (
      print m.expiry_slot (
        print m.threshold_value_tenth_c (
          print m.total_position_bet (
            print m.total_yes_position_bet
              (print m.resolved (print m.outcome (print m.oracle_statement_hash ""))))))))

print_market_eq : (v w : StoredMarketLeaf) → print_market v ≡ print_market w → v ≡ w
unfolding print_market
print_market_eq v w h =
    let (hash, h) = print_eq v.config_hash w.config_hash _ _ h in
    let (close, h) = print_eq v.close_slot w.close_slot _ _ h in
    let (expiry, h) = print_eq v.expiry_slot w.expiry_slot _ _ h in
    let (threshold, h) = print_eq v.threshold_value_tenth_c w.threshold_value_tenth_c _ _ h in
    let (total, h) = print_eq v.total_position_bet w.total_position_bet _ _ h in
    let (yes_total, h) = print_eq v.total_yes_position_bet w.total_yes_position_bet _ _ h in
    let (resolved, h) = print_eq v.resolved w.resolved _ _ h in
    let (outcome, h) = print_eq v.outcome w.outcome _ _ h in
    let (statement, h) = print_eq v.oracle_statement_hash w.oracle_statement_hash _ _ h in cc

print_meta : StoredMarketMeta → String
print_meta m = print m.title (
    print m.rules_primary (
      print m.settlement_source (
        print_count m.created_at_unix_ms
          (print m.close_slot (print m.expiry_slot (print m.determination_slot ""))))))

print_meta_eq : (v w : StoredMarketMeta) → print_meta v ≡ print_meta w → v ≡ w
unfolding print_meta
print_meta_eq v w h =
    let (title, h) = print_eq v.title w.title _ _ h in
    let (rules, h) = print_eq v.rules_primary w.rules_primary _ _ h in
    let (settlement, h) = print_eq v.settlement_source w.settlement_source _ _ h in
    let (created, h) = count_eq v.created_at_unix_ms w.created_at_unix_ms _ _ h in
    let (close, h) = print_eq v.close_slot w.close_slot _ _ h in
    let (expiry, h) = print_eq v.expiry_slot w.expiry_slot _ _ h in
    let (determination, h) = print_eq v.determination_slot w.determination_slot _ _ h in cc

-- A key that is not there is a text without a mark.
print_daily : DailyMarket → String
print_daily d = elim d.market_key [
  | none ↦ print_count 0 d.rest
  | some key ↦ "-" ∷ print key d.rest
]

print_daily_eq : (v w : DailyMarket) → print_daily v ≡ print_daily w → v ≡ w
unfolding print_daily print_count print
print_daily_eq v w h = elim (Option-cases v.market_key) [
  | inl absent ↦ ground (arith, marks_differ)
  | inr (key, present) ↦ elim (Option-cases w.market_key) [
    | inl absent' ↦ ground (arith, marks_differ)
    | inr (key', present') ↦ ground (arith, print_eq key key' v.rest w.rest)
  ]
]

unfoldable pub printed : Printers
unfolding print_market print_meta print_daily print print_count
printed = record {
  of_market = print_market;
  of_meta = print_meta;
  of_text = λ text. text;
  of_daily = print_daily;
}

pub printed-AreInjective : AreInjective printed
unfolding printed
printed-AreInjective = record {
  market_eq = print_market_eq;
  meta_eq = print_meta_eq;
  text_eq = λ v w h. h;
  daily_eq = print_daily_eq;
}
