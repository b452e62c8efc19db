-- ===== src/Prelude/Texts.antt =====
-- `text.toLowerCase() === 'true'`. The letters of "true" are the lower case of themselves and of their
-- capitals alone.
use mathlib.Core.Bool.{Bool, false, ◌&&◌, ◌||◌}
use Prim.Native.Char.{Char}
use Prim.Native.String.{String, [], ◌∷◌}
use text.Mathlib.Text.{◌==◌ as str_eq}

abbrev is_letter : Char → String → String → Bool
is_letter c small capital = str_eq (c ∷ []) small || str_eq (c ∷ []) capital

unfoldable pub is_true_text : String → Bool
is_true_text (a ∷ b ∷ c ∷ d ∷ []) =
    is_letter a "t" "T" && is_letter b "r" "R" && is_letter c "u" "U" && is_letter d "e" "E"
is_true_text _ = false
