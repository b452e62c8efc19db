-- ===== src/Prelude/Dicts.antt =====
-- Objects with string keys, `Record<string, V>`, as lists of entries in the order of insertion. The
-- program reads them by key, and walks them where the order does not matter.
use mathlib.Core.Path.{◌≡◌, refl}
use mathlib.Core.Logic.{◌⊎◌}
use mathlib.Core.Option.{Option, none, some}
use mathlib.Core.List.{List, [], ◌∷◌}
use native.Mathlib.Omega.{arith}
use Prim.Native.String.{String}
use text.Mathlib.Text.{◌==◌ as str_eq}
use text.Mathlib.TextEquality.{eq_iff}
use perfect_weather_predicti.Prelude.Tests.{if◌then◌else◌}

abbrev pub Dict {ℓ} : Type ℓ → Type ℓ
Dict V = List (String × V)

module _ {ℓ} {V : Type ℓ} where
  -- `d[key]`
  unfoldable pub lookup : String → Dict V → Option V
  lookup key [] = none
  lookup key ((k, v) ∷ d) = if str_eq k key then some v else lookup key d

  -- `d[key] = v`
  unfoldable pub put : String → V → Dict V → Dict V
  put key v [] = (key, v) ∷ []
  put key v ((k, w) ∷ d) = if str_eq k key then (key, v) ∷ d else (k, w) ∷ put key v d

  pub lookup-put :
      (key j : String) (v : V) (d : Dict V)
      → lookup j (put key v d) ≡ (if str_eq key j then some v else lookup j d)
  unfolding lookup put
  lookup-put key j v [] = refl
  lookup-put key j v ((k, w) ∷ d) =
      ground (arith, eq_iff key j, eq_iff k key, eq_iff k j, lookup-put key j v d)

  pub lookup-cons :
      (key k : String) (v m : V) (d : Dict V)
      → lookup key ((k, v) ∷ d) ≡ some m
      → ((k ≡ key) × (v ≡ m)) ⊎ (lookup key d ≡ some m)
  unfolding lookup
  lookup-cons key k v m d found = ground (arith, eq_iff k key)

-- The keys of an object are distinct.
abbrev pub IsUnique : {V : Type 0} → Dict V → Type 0
IsUnique [] = Unit
IsUnique ((key, v) ∷ d) = (lookup key d ≡ none) × IsUnique d
