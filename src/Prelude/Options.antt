-- ===== src/Prelude/Options.antt =====
-- Fallible steps: `none` is a failed assertion or a thrown error, which ends the call.
use mathlib.Core.Path.{◌≡◌, refl}
use mathlib.Core.Bool.{Bool, true, false}
use mathlib.Core.Option.{Option, none, some}

infixl 5 ◌>>=◌ ◌>>◌
abbrev pub ◌>>=◌ {ℓ κ} : {A : Type ℓ} {B : Type κ} → Option A → (A → Option B) → Option B
none >>= f = none
some a >>= f = f a

abbrev pub ◌>>◌ {ℓ} : {B : Type ℓ} → Option (Unit {0}) → Option B → Option B
m >> k = m >>= λ _. k

-- `x.assertTrue()`
abbrev pub assert : Bool → Option (Unit {0})
assert true = some tt
assert false = none

-- What a successful chain says of its first step.
pub >>=-eq-some {ℓ κ} :
    {A : Type ℓ} {B : Type κ} (m : Option A) (f : A → Option B) {b : B}
    → (m >>= f) ≡ some b
    → (a : A) × (m ≡ some a) × (f a ≡ some b)
>>=-eq-some none f h = cc
>>=-eq-some (some a) f h = (a, refl, h)

pub >>-eq-some {ℓ} :
    {B : Type ℓ} (m : Option (Unit {0})) (k : Option B) {b : B}
    → (m >> k) ≡ some b
    → (m ≡ some tt) × (k ≡ some b)
>>-eq-some none k h = cc
>>-eq-some (some tt) k h = (refl, h)

pub assert-eq-some : (b : Bool) → assert b ≡ some tt → b ≡ true
assert-eq-some true h = refl
assert-eq-some false h = cc

pub some_of_ne_none {ℓ} : {A : Type ℓ} (x : Option A) → ¬ (x ≡ none) → (a : A) × (x ≡ some a)
some_of_ne_none none h = absurd (h refl)
some_of_ne_none (some a) h = (a, refl)
