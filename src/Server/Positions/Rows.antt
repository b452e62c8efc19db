-- ===== src/Server/Positions/Rows.antt =====
-- Rows that all have a property, through the loops and the sorting of
-- `listResolvedWalletPositions` (src/marketplace-server.ts, lines 2633 to 2718).
use perfect_weather_predicti.Prelude.{
  ◌≡◌, inl, inr, ap, ◌∙◌, subst, Bool, Option, some, some-injective, List, [], ◌∷◌, ◌++◌, String,
  Dict, Bool-cases, Option-cases, arith, >>=-eq-some,
}
use perfect_weather_predicti.Prelude.Sorting.{sort_by, insert_by}
use perfect_weather_predicti.Server.Positions.{ResolvedWalletPosition, rows_of}

-- An entry of an object.
pub data Has {V : Type 0} (key : String) (v : V) : Dict V → Type 0 where
  here : (d : Dict V) → Has key v ((key, v) ∷ d)
  there : (k : String) (w : V) {d : Dict V} → Has key v d → Has key v ((k, w) ∷ d)

abbrev pub AllRows : (ResolvedWalletPosition → Type 0) → List ResolvedWalletPosition → Type 0
AllRows P [] = Unit
AllRows P (r ∷ rows) = P r × AllRows P rows

module _ (P : ResolvedWalletPosition → Type 0) where
  pub AllRows-append :
      (a b : List ResolvedWalletPosition) → AllRows P a → AllRows P b → AllRows P (a ++ b)
  AllRows-append [] b all other = other
  AllRows-append (r ∷ a) b (first, all) other = (first, AllRows-append a b all other)

  AllRows-insert_by :
      (before : ResolvedWalletPosition → ResolvedWalletPosition → Bool)
      → (r : ResolvedWalletPosition) (rows : List ResolvedWalletPosition) → P r
      → AllRows P rows
      → AllRows P (insert_by before r rows)
  unfolding insert_by
  AllRows-insert_by before r [] first all = (first, tt)
  AllRows-insert_by before r (q ∷ rows) first (second, all) = elim (Bool-cases (before q r)) [
    | inl behind ↦ rw (behind, insert_by) (second, AllRows-insert_by before r rows first all)
    | inr front ↦ rw (front, insert_by) (first, (second, all))
  ]

  pub AllRows-sort_by :
      (before : ResolvedWalletPosition → ResolvedWalletPosition → Bool)
      → (rows : List ResolvedWalletPosition) → AllRows P rows
      → AllRows P (sort_by before rows)
  unfolding sort_by
  AllRows-sort_by before [] all = tt
  AllRows-sort_by before (r ∷ rows) (first, all) =
      AllRows-insert_by before r (sort_by before rows) first (AllRows-sort_by before rows all)

  module _ {V : Type 0} (body : String → V → Option (Option ResolvedWalletPosition)) where
    pub AllRows-rows_of :
        (d : Dict V) (rows : List ResolvedWalletPosition)
        → ((key : String) (v : V) (r : ResolvedWalletPosition)
            → Has key v d
            → body key v ≡ some (some r)
            → P r)
        → rows_of body d ≡ some rows
        → AllRows P rows
    unfolding rows_of
    AllRows-rows_of [] rows each done = subst (AllRows P) (some-injective _ _ done) tt
    AllRows-rows_of ((key, v) ∷ d) rows each done =
        let (row, e1, r1) = >>=-eq-some (body key v) _ done in
        let (others, e2, r2) = >>=-eq-some (rows_of body d) _ r1 in
        let rest = AllRows-rows_of d others (λ k w r held. each k w r (there key v held)) e2 in
        elim (Option-cases row) [
          | inl nothing ↦
              let same : others ≡ rows = ground (arith, nothing, r2) in subst (AllRows P) same rest
          | inr (r, is_it) ↦
              let same : r ∷ others ≡ rows = ground (arith, is_it, r2) in
              subst (AllRows P) same (each key v r (here d) (e1 ∙ ap some is_it), rest)
        ]
