-- ===== src/OracleWorker/Title.antt =====
-- src/oracle-worker.ts, lines 115 to 119: the date of a market, from its title.
use perfect_weather_predicti.Prelude.{
  Bool, false, ◌&&◌, ◌||◌, Option, none, some, str_eq, if◌then◌else◌, ◌>>=◌,
}
use Prim.Native.Char.{Char}
use Prim.Native.String.{String, [], ◌∷◌}

abbrev is_char : Char → String → Bool
is_char c text = str_eq (c ∷ []) text

-- `\d`
abbrev is_digit : Char → Bool
is_digit c =
    is_char c "0"
    || is_char c "1"
    || is_char c "2"
    || is_char c "3"
    || is_char c "4"
    || is_char c "5"
    || is_char c "6"
    || is_char c "7"
    || is_char c "8"
    || is_char c "9"

-- What follows the prefix, if the text has it.
unfoldable pub strip : (prefix text : String) → Option String
strip [] text = some text
strip (c ∷ prefix) [] = none
strip (c ∷ prefix) (d ∷ text) =
    let rest = strip prefix text in if is_char d (c ∷ []) then rest else none

-- `\d{4}-\d{2}-\d{2}`, and what follows it.
unfoldable pub split_date : String → Option (String × String)
split_date (a ∷ b ∷ c ∷ d ∷ e ∷ f ∷ g ∷ h ∷ i ∷ j ∷ rest) =
    if is_digit a
      && is_digit b
      && is_digit c
      && is_digit d
      && is_char e "-"
      && is_digit f
      && is_digit g
      && is_char h "-"
      && is_digit i
      && is_digit j
    then some (a ∷ b ∷ c ∷ d ∷ e ∷ f ∷ g ∷ h ∷ i ∷ j ∷ [], rest)
    else none
split_date text = none

-- `\d*F$`
unfoldable pub is_digits_f : String → Bool
is_digits_f [] = false
is_digits_f (c ∷ text) =
    let rest = is_digits_f text in if is_digit c then rest else is_char c "F" && str_eq text ""

-- `\d+F$`
unfoldable pub is_threshold : String → Bool
unfolding is_digits_f
is_threshold [] = false
is_threshold (c ∷ text) = is_digit c && is_digits_f text

-- `marketDateFromTitle`
unfoldable pub market_date_from_title : String → Option String
unfolding strip split_date is_threshold
market_date_from_title title = do
  after_place ← strip "Atherton, CA - " title
  (date, after_date) ← split_date after_place
  threshold ← strip " Over/Under " after_date
  if is_threshold threshold then some date else none
