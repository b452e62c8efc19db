-- ===== src/Prelude/Nullable.antt =====
-- An optional property that may also hold `null`, `p?: A | null`.
use mathlib.Core.Bool.{Bool, true, false}

pub data Nullish {ℓ} (A : Type ℓ) : Type ℓ where
  undefined : Nullish A
  null : Nullish A
  value : A → Nullish A

-- `p === null`
abbrev pub is_null {ℓ} : {A : Type ℓ} → Nullish A → Bool
is_null undefined = false
is_null null = true
is_null (value a) = false
