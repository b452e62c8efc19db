-- ===== src/Prelude/Sorting.antt =====
-- `Array.prototype.sort`, which is stable, with the test of a comparison: `before a b` is that `a` must
-- stand before `b`.
use Prim.Native.Nat.{ℕ, ◌≤◌}
use mathlib.Core.Bool.{Bool}
use mathlib.Core.List.{List, [], ◌∷◌, Perm}
use mathlib.Core.List.Perm
use native.Mathlib.Omega.{arith}
use perfect_weather_predicti.Prelude.Tests.{if◌then◌else◌, ltb, Bool-cases}
use mathlib.Core.Logic.{inl, inr}

module _ {A : Type 0} (before : A → A → Bool) where
  -- Behind all that must stand before `x`, and behind none that it must stand before. Elements are
  -- inserted from the last on, so that equals keep their order.
  unfoldable pub insert_by : A → List A → List A
  insert_by x [] = x ∷ []
  insert_by x (y ∷ ys) = let rest = insert_by x ys in if before y x then y ∷ rest else x ∷ y ∷ ys

  unfoldable pub sort_by : List A → List A
  unfolding insert_by
  sort_by [] = []
  sort_by (x ∷ xs) = insert_by x (sort_by xs)

  insert_by-perm : (x : A) (l : List A) → Perm (insert_by x l) (x ∷ l)
  unfolding insert_by
  insert_by-perm x [] = Perm.rfl
  insert_by-perm x (y ∷ ys) = elim (Bool-cases (before y x)) [
    | inl behind ↦
        rw (behind, insert_by) (Perm.trans (Perm.cons y (insert_by-perm x ys)) (Perm.swap x y ys))
    | inr front ↦ rw (front, insert_by) Perm.rfl
  ]

  pub sort_by-perm : (l : List A) → Perm (sort_by l) l
  unfolding sort_by
  sort_by-perm [] = Perm.rfl
  sort_by-perm (x ∷ xs) = Perm.trans (insert_by-perm x (sort_by xs)) (Perm.cons x (sort_by-perm xs))

-- `(a, b) => a - b`
abbrev pub ascending : List ℕ → List ℕ
ascending = sort_by ltb

-- Each element is at most the next.
abbrev pub IsAscending : List ℕ → Type 0
IsAscending [] = Unit
IsAscending (x ∷ []) = Unit
IsAscending (x ∷ y ∷ l) = (x ≤ y) × IsAscending (y ∷ l)

abbrev Heads : ℕ → List ℕ → Type 0
Heads x [] = Unit
Heads x (y ∷ l) = x ≤ y

IsAscending-cons : (x : ℕ) (l : List ℕ) → Heads x l → IsAscending l → IsAscending (x ∷ l)
IsAscending-cons x [] h a = tt
IsAscending-cons x (y ∷ l) h a = (h, a)

IsAscending-tail : (x : ℕ) (l : List ℕ) → IsAscending (x ∷ l) → Heads x l × IsAscending l
IsAscending-tail x [] a = (tt, tt)
IsAscending-tail x (y ∷ l) (h, a) = (h, a)

insert_by-Heads : (b x : ℕ) (l : List ℕ) → b ≤ x → Heads b l → Heads b (insert_by ltb x l)
unfolding insert_by
insert_by-Heads b x [] h a = h
insert_by-Heads b x (y ∷ l) h a = ground arith

insert_by-IsAscending : (x : ℕ) (l : List ℕ) → IsAscending l → IsAscending (insert_by ltb x l)
unfolding insert_by
insert_by-IsAscending x [] a = tt
insert_by-IsAscending x (y ∷ l) a =
    let (h, rest) = IsAscending-tail y l a in
    elim (Bool-cases (ltb y x)) [
      | inl behind ↦
          rw (behind, insert_by)
            (IsAscending-cons y (insert_by ltb x l) (insert_by-Heads y x l (ground arith) h)
              (insert_by-IsAscending x l rest))
      | inr front ↦ rw (front, insert_by) (IsAscending-cons x (y ∷ l) (ground arith) a)
    ]

pub ascending-IsAscending : (l : List ℕ) → IsAscending (ascending l)
unfolding sort_by
ascending-IsAscending [] = tt
ascending-IsAscending (x ∷ xs) = insert_by-IsAscending x (sort_by ltb xs) (ascending-IsAscending xs)
