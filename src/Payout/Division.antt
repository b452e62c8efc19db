-- ===== src/Payout/Division.antt =====
-- Shares of a pot by rounded-down division.
use perfect_weather_predicti.Prelude.{ℕ, suc, ◌+◌, ◌*◌, ◌/◌, ◌≤◌, ◌<◌, arith}

pub div-mul-le : (n d : ℕ) → (n / d) * d ≤ n
div-mul-le n d = grind arith

pub lt-div-mul : (n d : ℕ) → 0 < d → n < (n / d) * d + d
lt-div-mul n d h = grind arith

pub le_of_mul : (a b d : ℕ) → 0 < d → a * d < b * d + d → a ≤ b
le_of_mul a b d p h = grind arith

pub share-le : (t s d : ℕ) → 0 < d → s ≤ d → (t * s) / d ≤ t
share-le t s d p h = le_of_mul ((t * s) / d) t d p (grind (arith, div-mul-le (t * s) d))

pub le-share : (t s d : ℕ) → 0 < d → d ≤ t → s ≤ (t * s) / d
le-share t s d p h = le_of_mul s ((t * s) / d) d p (grind (arith, lt-div-mul (t * s) d p))

pub lt-share : (t s d : ℕ) → 0 < d → d ≤ t → d < s → t < (t * s) / d
lt-share t s d p h q = le_of_mul (suc t) ((t * s) / d) d p (grind (arith, lt-div-mul (t * s) d p))
