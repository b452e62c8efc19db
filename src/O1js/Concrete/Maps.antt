-- ===== src/O1js/Concrete/Maps.antt =====
-- Maps as lists of leaves, of which 0 is absent; the root is the code of the list without the
-- absent leaves at its end, so maps with the same leaves have the same root.
use perfect_weather_predicti.Prelude.{
  ℕ, zero, suc, ◌≡◌, refl, sym, ◌∙◌, ap, List, [], ◌∷◌, arith, ◌==◌, if◌then◌else◌,
}
use perfect_weather_predicti.O1js.Concrete.Codes.{code_any, code_any_injective}

unfoldable pub get : List ℕ → ℕ → ℕ
get [] k = 0
get (x ∷ xs) zero = x
get (x ∷ xs) (suc k) = get xs k

unfoldable pub set : List ℕ → ℕ → ℕ → List ℕ
set [] zero v = v ∷ []
set [] (suc k) v = 0 ∷ set [] k v
set (x ∷ xs) zero v = v ∷ xs
set (x ∷ xs) (suc k) v = x ∷ set xs k v

prepend : ℕ → List ℕ → List ℕ
prepend zero [] = []
prepend zero (y ∷ ys) = zero ∷ y ∷ ys
prepend (suc x) ys = suc x ∷ ys

trim : List ℕ → List ℕ
unfolding prepend
trim [] = []
trim (x ∷ xs) = prepend x (trim xs)

unfoldable pub root : List ℕ → ℕ
unfolding trim code_any
root xs = code_any (trim xs)

pub get-set : (m : List ℕ) (k v j : ℕ) → get (set m k v) j ≡ (if k == j then v else get m j)
unfolding get set
get-set [] zero v zero = refl
get-set [] zero v (suc j) = ground arith
get-set [] (suc k) v zero = ground arith
get-set [] (suc k) v (suc j) = ground (arith, get-set [] k v j)
get-set (x ∷ m) zero v zero = refl
get-set (x ∷ m) zero v (suc j) = ground arith
get-set (x ∷ m) (suc k) v zero = ground arith
get-set (x ∷ m) (suc k) v (suc j) = ground (arith, get-set m k v j)

get-prepend : (x : ℕ) (xs : List ℕ) (k : ℕ) → get (prepend x xs) k ≡ get (x ∷ xs) k
unfolding get prepend
get-prepend zero [] zero = refl
get-prepend zero [] (suc k) = refl
get-prepend zero (y ∷ ys) k = refl
get-prepend (suc x) ys k = refl

get_first : (x : ℕ) (xs ys : List ℕ) → get (x ∷ xs) zero ≡ get (x ∷ ys) zero
unfolding get
get_first x xs ys = refl

get_later :
    (x y : ℕ) (xs ys : List ℕ) (k : ℕ)
    → get xs k ≡ get ys k
    → get (x ∷ xs) (suc k) ≡ get (y ∷ ys) (suc k)
unfolding get
get_later x y xs ys k h = h

get-trim : (xs : List ℕ) (k : ℕ) → get (trim xs) k ≡ get xs k
unfolding trim
get-trim [] k = refl
get-trim (x ∷ xs) zero = get-prepend x (trim xs) zero ∙ get_first x (trim xs) xs
get-trim (x ∷ xs) (suc k) =
    get-prepend x (trim xs) (suc k) ∙ get_later x x (trim xs) xs k (get-trim xs k)

trim_absent : (xs : List ℕ) → ((k : ℕ) → get xs k ≡ 0) → trim xs ≡ []
unfolding trim prepend get
trim_absent [] h = refl
trim_absent (x ∷ xs) h =
    let tail : trim xs ≡ [] = trim_absent xs (λ k. h (suc k)) in ground (arith, h 0, tail)

trim_ext : (xs ys : List ℕ) → ((k : ℕ) → get xs k ≡ get ys k) → trim xs ≡ trim ys
unfolding trim prepend get
trim_ext [] ys h = sym (trim_absent ys (λ k. sym (h k)))
trim_ext (x ∷ xs) [] h = trim_absent (x ∷ xs) h
trim_ext (x ∷ xs) (y ∷ ys) h =
    let tail : trim xs ≡ trim ys = trim_ext xs ys (λ k. h (suc k)) in
    let first : x ≡ y = h 0 in rw (tail, first)

pub root_ext : (xs ys : List ℕ) → ((k : ℕ) → get xs k ≡ get ys k) → root xs ≡ root ys
unfolding root
root_ext xs ys h = ap code_any (trim_ext xs ys h)

get-root : (xs ys : List ℕ) (k : ℕ) → root xs ≡ root ys → get xs k ≡ get ys k
unfolding root
get-root xs ys k e =
    sym (get-trim xs k)
    ∙ ap (λ (m : List ℕ). get m k) (code_any_injective (trim xs) (trim ys) e)
    ∙ get-trim ys k

pub root_tells : (w m : List ℕ) (k v : ℕ) → root (set w k v) ≡ root m → get m k ≡ v
root_tells w m k v e = ground (arith, get-root (set w k v) m k e, get-set w k v k)

pub root_writes :
    (w m : List ℕ) (k v v' : ℕ) → root (set w k v) ≡ root m → root (set w k v') ≡ root (set m k v')
root_writes w m k v v' e = root_ext (set w k v') (set m k v') λ j.
    ground (arith, get-root (set w k v) m j e, get-set w k v j, get-set w k v' j, get-set m k v' j)

pub root_opens : (m : List ℕ) (k : ℕ) → root (set m k (get m k)) ≡ root m
root_opens m k = root_ext (set m k (get m k)) m λ j. ground (arith, get-set m k (get m k) j)
