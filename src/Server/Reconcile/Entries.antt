-- ===== src/Server/Reconcile/Entries.antt =====
-- The entries of an object with distinct keys, and those of them that pass a test (src/marketplace-server.ts,
-- lines 2994 to 2999).
use perfect_weather_predicti.Prelude.{
  ◌≡◌, inl, inr, refl, Bool, true, none, some, [], ◌∷◌, String, Dict, IsUnique, lookup, Bool-cases,
  arith,
}
use perfect_weather_predicti.Server.Reconcile.{filter_entries}

module _ {V : Type 0} (test : V → Bool) where
  pub filter_entries-none :
      (key : String) (d : Dict V) → lookup key d ≡ none → lookup key (filter_entries test d) ≡ none
  unfolding lookup filter_entries
  filter_entries-none key [] h = refl
  filter_entries-none key ((k, v) ∷ d) h = ground (arith, filter_entries-none key d)

  pub filter_entries-IsUnique : (d : Dict V) → IsUnique d → IsUnique (filter_entries test d)
  unfolding filter_entries
  filter_entries-IsUnique [] h = tt
  filter_entries-IsUnique ((k, v) ∷ d) (fresh, h) = elim (Bool-cases (test v)) [
    | inl kept ↦ rw kept (filter_entries-none k d fresh, filter_entries-IsUnique d h)
    | inr dropped ↦ rw dropped (filter_entries-IsUnique d h)
  ]

  pub filter_entries-some :
      (key : String) (v : V) (d : Dict V)
      → lookup key d ≡ some v
      → test v ≡ true
      → lookup key (filter_entries test d) ≡ some v
  unfolding lookup filter_entries
  filter_entries-some key v [] h passes = h
  filter_entries-some key v ((k, w) ∷ d) h passes = ground (arith, filter_entries-some key v d)
