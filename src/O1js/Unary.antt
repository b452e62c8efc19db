-- ===== src/O1js/Unary.antt =====
-- A concrete `NumberText` that meets the laws: 0 is "0", and any other number is a row of ones.
use perfect_weather_predicti.Prelude.{
  ℕ, zero, suc, ◌≡◌, ◌≢◌, ◌==◌, refl, ap, false, some, arith, String, str_eq, eq_iff, if◌then◌else◌,
}
use Prim.Native.String.{◌++◌, count}
use text.Mathlib.TextLemmas.{length-append}
use perfect_weather_predicti.O1js.Interface.{checked}
use perfect_weather_predicti.O1js.Text.{NumberText, IsLawfulText}

row : ℕ → String
row zero = ""
row (suc n) = "1" ++ row n

print : ℕ → String
unfolding row
print n = if n == 0 then "0" else row n

read : String → ℕ
read text = if str_eq text "0" then 0 else count text

unfoldable pub unary : NumberText
unfolding print read
unary = record {
  to_string = print;
  field_of = λ text. some (read text);
  uint64_of = λ text. checked (read text);
  bool_to_string = λ b. if b then "true" else "false";
}

count-row : (n : ℕ) → count (row n) ≡ n
unfolding row
count-row zero = refl
count-row (suc n) = ground (arith, length-append "1" (row n), count-row n)

one-ne-zero : str_eq "1" "0" ≡ false
one-ne-zero = refl

row-ne-zero : (n : ℕ) → row (suc n) ≢ "0"
unfolding row
row-ne-zero zero e = ground (arith, eq_iff "1" "0", one-ne-zero)
row-ne-zero (suc n) e = ground (arith, count-row (suc (suc n)), ap count e)

read-row : (n : ℕ) → read (row (suc n)) ≡ suc n
unfolding read
read-row n = ground (arith, row-ne-zero n, eq_iff (row (suc n)) "0", count-row (suc n))

read_zero : read "0" ≡ 0
unfolding read
read_zero = refl

read-print : (n : ℕ) → read (print n) ≡ n
unfolding print
read-print zero = read_zero
read-print (suc n) = ground (arith, read-row n)

zero-ne-empty : str_eq "0" "" ≡ false
zero-ne-empty = refl

print-ne-empty : (n : ℕ) → print n ≢ ""
unfolding print
print-ne-empty zero e = ground (arith, eq_iff "0" "", zero-ne-empty, e)
print-ne-empty (suc n) e = ground (arith, count-row (suc n), ap count e)

pub unary-IsLawfulText : IsLawfulText unary
unfolding unary
unary-IsLawfulText = record {
  field_of-to_string = λ n. ap some (read-print n);
  uint64_of-to_string = λ n. ap checked (read-print n);
  to_string_zero = refl;
  to_string_one = refl;
  bool_to_string_true = refl;
  bool_to_string_false = refl;
  to_string_ne_empty = print-ne-empty;
}
