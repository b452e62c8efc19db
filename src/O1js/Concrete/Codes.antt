-- ===== src/O1js/Concrete/Codes.antt =====
-- A code for lists of numbers, without collisions.
use perfect_weather_predicti.Prelude.{
  ℕ, zero, suc, ◌+◌, ◌*◌, ◌≤◌, ◌<◌, ◌≡◌, refl, sym, ◌∙◌, ap, List, [], ◌∷◌, length, arith,
}

pair : ℕ → ℕ → ℕ
pair a b = (a + b) * (a + b) + a

square_gap : (s t x : ℕ) → x ≤ s → s < t → s * s + x < t * t
square_gap s t x h lt = grind arith

pair_sum : (a b c d : ℕ) → pair a b ≡ pair c d → a + b ≡ c + d
unfolding pair
pair_sum a b c d e = grind (arith, square_gap (a + b) (c + d) a, square_gap (c + d) (a + b) c)

pair_injective : (a b c d : ℕ) → pair a b ≡ pair c d → (a ≡ c) × (b ≡ d)
unfolding pair
pair_injective a b c d e =
    let s = pair_sum a b c d e in
    let squares = ap (λ (t : ℕ). t * t) s in
    (omega (arith, e, squares), omega (arith, e, s, squares))

-- Adjacent numbers as one.
halve : List ℕ → List ℕ
unfolding pair
halve (x ∷ y ∷ xs) = pair x y ∷ halve xs
halve (x ∷ []) = x ∷ []
halve [] = []

length-halve_le : (xs : List ℕ) → length (halve xs) ≤ length xs
unfolding halve
length-halve_le [] = omega arith
length-halve_le (x ∷ []) = omega arith
length-halve_le (x ∷ y ∷ xs) = omega (arith, length-halve_le xs)

length-halve : (xs : List ℕ) (n : ℕ) → length xs ≤ suc (suc n) → length (halve xs) ≤ suc n
unfolding halve
length-halve [] n h = omega arith
length-halve (x ∷ []) n h = omega arith
length-halve (x ∷ y ∷ xs) zero h = omega (arith, length-halve_le xs)
length-halve (x ∷ y ∷ xs) (suc n) h = omega (arith, length-halve_le xs)

code_at : ℕ → List ℕ → ℕ
unfolding halve
code_at zero [] = 0
code_at zero (x ∷ xs) = x
code_at (suc n) xs = code_at n (halve xs)

-- The list is halved until one number is left.
unfoldable pub code : List ℕ → ℕ
unfolding code_at
code xs = code_at (length xs) xs

-- The code of a list with its length.
unfoldable pub code_any : List ℕ → ℕ
unfolding code pair
code_any xs = pair (length xs) (code xs)

halve_injective : (xs ys : List ℕ) → length xs ≡ length ys → halve xs ≡ halve ys → xs ≡ ys
unfolding halve
halve_injective [] [] l e = refl
halve_injective [] (y ∷ ys) l e = absurd (omega arith)
halve_injective (x ∷ xs) [] l e = absurd (omega arith)
halve_injective (x ∷ []) (y ∷ []) l e = e
halve_injective (x ∷ []) (y ∷ y' ∷ ys) l e = absurd (omega arith)
halve_injective (x ∷ x' ∷ xs) (y ∷ []) l e = absurd (omega arith)
halve_injective (x ∷ x' ∷ xs) (y ∷ y' ∷ ys) l e =
    ground (arith, pair_injective x x' y y', halve_injective xs ys (omega arith))

same-length-halve : (xs ys : List ℕ) → length xs ≡ length ys → length (halve xs) ≡ length (halve ys)
unfolding halve
same-length-halve [] [] l = refl
same-length-halve [] (y ∷ ys) l = absurd (omega arith)
same-length-halve (x ∷ xs) [] l = absurd (omega arith)
same-length-halve (x ∷ []) (y ∷ []) l = refl
same-length-halve (x ∷ []) (y ∷ y' ∷ ys) l = absurd (omega arith)
same-length-halve (x ∷ x' ∷ xs) (y ∷ []) l = absurd (omega arith)
same-length-halve (x ∷ x' ∷ xs) (y ∷ y' ∷ ys) l =
    omega (arith, same-length-halve xs ys (omega arith))

code_at_injective :
    (n : ℕ) (xs ys : List ℕ)
    → length xs ≡ length ys
    → length xs ≤ suc n
    → code_at n xs ≡ code_at n ys
    → xs ≡ ys
unfolding code_at
code_at_injective zero [] [] l h e = refl
code_at_injective zero [] (y ∷ ys) l h e = absurd (omega arith)
code_at_injective zero (x ∷ xs) [] l h e = absurd (omega arith)
code_at_injective zero (x ∷ []) (y ∷ []) l h e = rw e
code_at_injective zero (x ∷ []) (y ∷ y' ∷ ys) l h e = absurd (omega arith)
code_at_injective zero (x ∷ x' ∷ xs) (y ∷ ys) l h e = absurd (omega arith)
code_at_injective (suc n) xs ys l h e =
    halve_injective xs ys l (
      code_at_injective n (halve xs) (halve ys) (same-length-halve xs ys l) (length-halve xs n h) e)

pub code_injective : (xs ys : List ℕ) → length xs ≡ length ys → code xs ≡ code ys → xs ≡ ys
unfolding code
code_injective xs ys l e =
    code_at_injective (length xs) xs ys l (omega arith) (e ∙ ap (λ (n : ℕ). code_at n ys) (sym l))

pub code_any_injective : (xs ys : List ℕ) → code_any xs ≡ code_any ys → xs ≡ ys
unfolding code_any
code_any_injective xs ys e =
    let (l, c) = pair_injective (length xs) (code xs) (length ys) (code ys) e in
    code_injective xs ys l c
