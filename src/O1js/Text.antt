-- ===== src/O1js/Text.antt =====
-- How o1js prints and reads values: `toString` of `Field` and `UInt64`, `Field(text)`,
-- `UInt64.from(text)`, and `toString` of `Bool`. Reading a text that is no number throws, which is
-- `none`.
use perfect_weather_predicti.Prelude.{ℕ, ◌≡◌, ◌≢◌, Bool, true, false, Option, some, String}
use perfect_weather_predicti.O1js.Interface.{checked}

pub record NumberText : Type 0 where
  pub to_string : ℕ → String
  pub field_of : String → Option ℕ
  pub uint64_of : String → Option ℕ
  pub bool_to_string : Bool → String

pub record IsLawfulText (x : NumberText) : Type 0 where
  pub field_of-to_string : (n : ℕ) → x.field_of (x.to_string n) ≡ some n
  pub uint64_of-to_string : (n : ℕ) → x.uint64_of (x.to_string n) ≡ checked n
  pub to_string_zero : x.to_string 0 ≡ "0"
  pub to_string_one : x.to_string 1 ≡ "1"
  pub bool_to_string_true : x.bool_to_string true ≡ "true"
  pub bool_to_string_false : x.bool_to_string false ≡ "false"
  pub to_string_ne_empty : (n : ℕ) → x.to_string n ≢ ""
