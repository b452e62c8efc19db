-- ===== src/Contract/Standing.antt =====
-- The positions of bets among all positions of the platform contract (src/contract.ts), as calls
-- write others.
use perfect_weather_predicti.Prelude.{
  ℕ, ◌≡◌, ◌≢◌, inl, inr, refl, sym, ◌∙◌, ap, false, List, [], ◌∷◌, arith, ◌==◌, ==_iff, Bool-cases,
}
use perfect_weather_predicti.O1js.{O1js, IsLawful}
use perfect_weather_predicti.MarketTypes.Hashing.{to_field_injective}
use perfect_weather_predicti.Contract.{PositionLeaf, position_fields, hash_position}
use perfect_weather_predicti.Contract.Book.{as_claimed, Absent, Stand}

module _ (o : O1js) (l : IsLawful o) where
  open o use {MerkleMap, get, set}

  position_fields_injective : (a b : PositionLeaf) → position_fields a ≡ position_fields b → a ≡ b
  position_fields_injective a b h =
      ground
        (arith, to_field_injective a.side_over b.side_over, to_field_injective a.claimed b.claimed)

  pub hash_position_injective : (a b : PositionLeaf) → hash_position o a ≡ hash_position o b → a ≡ b
  unfolding hash_position
  hash_position_injective a b h =
      position_fields_injective a b
        (l.hash_injective (position_fields a) (position_fields b) refl h)

  pub hash_position_ne_zero : (a : PositionLeaf) → hash_position o a ≢ 0
  unfolding hash_position
  hash_position_ne_zero a = l.hash_ne_zero (position_fields a)

  -- A write under a free key leaves every bet standing, and none of them has that key.
  pub Stand-set_free :
      (positions : MerkleMap) (bets : List (ℕ × PositionLeaf)) (key v : ℕ)
      → get positions key ≡ 0
      → Stand o positions bets
      → Stand o (set positions key v) bets × Absent key bets
  Stand-set_free positions [] key v free st = (tt, tt)
  Stand-set_free positions ((k, p) ∷ bets) key v free (held, u, absent, st) =
      let rest = Stand-set_free positions bets key v free st in
      let other : k ≢ key = λ e.
        ground
          (arith, e, held, free, hash_position_ne_zero p, hash_position_ne_zero (as_claimed p)) in
      let kept : get (set positions key v) k ≡ get positions k =
        ground (arith, other, l.get-set positions key v k) in
      ((rw kept held, u, absent, rest.0), (other, rest.1))

  -- A claim marks a position that was not claimed, and leaves every bet standing.
  pub Stand-claim :
      (positions : MerkleMap) (bets : List (ℕ × PositionLeaf)) (key : ℕ) (q : PositionLeaf)
      → get positions key ≡ hash_position o q
      → q.claimed ≡ false
      → Stand o positions bets
      → Stand o (set positions key (hash_position o (as_claimed q))) bets
  Stand-claim positions [] key q held u st = tt
  Stand-claim positions ((k, p) ∷ bets) key q held u (held', u', absent, st) =
      let rest = Stand-claim positions bets key q held u st in
      let set_law = l.get-set positions key (hash_position o (as_claimed q)) k in
      elim (Bool-cases (key == k)) [
        | inl same ↦
            let at_k : get positions k ≡ hash_position o q = rw (← (==_iff key k).0 same) held in
            let claims : hash_position o (as_claimed q) ≡ hash_position o (as_claimed p) =
              elim held' [
                | inl e ↦
                    ap (λ (r : PositionLeaf). hash_position o (as_claimed r))
                      (hash_position_injective q p (sym at_k ∙ e))
                | inr e ↦ absurd (cc (hash_position_injective q (as_claimed p) (sym at_k ∙ e), u))
              ] in
            (inr (ground (arith, set_law) ∙ claims), u', absent, rest)
        | inr other ↦
            let kept : get (set positions key (hash_position o (as_claimed q))) k
                ≡ get positions k =
              ground (arith, set_law) in
            (rw kept held', u', absent, rest)
      ]
