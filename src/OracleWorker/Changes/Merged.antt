-- ===== src/OracleWorker/Changes/Merged.antt =====
-- The changes that the worker sends, merged into what the server holds by then
-- (src/oracle-worker.ts, line 169, and src/marketplace-server.ts, line 4412).
use perfect_weather_predicti.Prelude.{
  ◌≡◌, ◌≢◌, ◌⊎◌, inl, inr, refl, ◌∙◌, ap, true, false, Option, none, some, [], ◌∷◌, String, eq_iff,
  Dict, IsUnique, lookup, put, lookup-put, Option-cases, Bool-cases, arith,
}
use perfect_weather_predicti.StateStore.{OperatorState, StoredMarketLeaf, StoredMarketMeta}
use perfect_weather_predicti.Replay.Sync.{spread}
use perfect_weather_predicti.OracleWorker.{DailyMarket}
use perfect_weather_predicti.OracleWorker.Changes.{
  changed_keys, is_changed, changes, export_changes, import_state, receive_changes, Printers,
  StateImport,
}

abbrev or_else : {V : Type 0} → Option V → Option V → Option V
or_else none other = other
or_else (some v) other = some v

abbrev if_changed : {V : Type 0} → (V → String) → Option V → Option V → Option V
if_changed json old none = none
if_changed json old (some v) = elim (is_changed json old v) [ true ↦ some v | false ↦ none ]

module _ {V : Type 0} where
  lookup-spread :
      (key : String) (a b : Dict V)
      → IsUnique b
      → lookup key (spread a b) ≡ or_else (lookup key b) (lookup key a)
  unfolding lookup spread
  lookup-spread key a [] unique = refl
  lookup-spread key a ((k, v) ∷ b) (fresh, unique) =
      ground
        (arith, lookup-spread key (put k v a) b unique, lookup-put k key v a, eq_iff k key, fresh)

module _ {V : Type 0} (json : V → String) where
  lookup-changed_keys :
      (key : String) (before after : Dict V)
      → IsUnique after
      → lookup key (changed_keys json before after)
        ≡ if_changed json (lookup key before) (lookup key after)
  unfolding lookup changed_keys
  lookup-changed_keys key before [] unique = refl
  lookup-changed_keys key before ((k, v) ∷ after) (fresh, unique) =
      ground (arith, lookup-changed_keys key before after unique, eq_iff k key, fresh)

  changed_keys-IsUnique :
      (before after : Dict V) → IsUnique after → IsUnique (changed_keys json before after)
  unfolding changed_keys
  changed_keys-IsUnique before [] unique = tt
  changed_keys-IsUnique before ((k, v) ∷ after) (fresh, unique) =
      let rest = changed_keys-IsUnique before after unique in
      let new =
        lookup-changed_keys k before after unique ∙ ap (if_changed json (lookup k before)) fresh in
      elim (Bool-cases (is_changed json (lookup k before) v)) [
        | inl changed ↦ rw changed (new, rest)
        | inr kept ↦ rw kept rest
      ]

-- What a map of the server has at the key after the import: the worker's value where the worker has
-- one that it did not read from the server, and otherwise what the server had.
abbrev pub IsMerged : {V : Type 0} → String → (before after server merged : Dict V) → Type 0
IsMerged key before after server merged =
    ((lookup key merged ≡ lookup key server)
      × ((lookup key after ≡ none) ⊎ (lookup key after ≡ lookup key before)))
    ⊎ ((lookup key merged ≡ lookup key after)
        × (lookup key after ≢ none)
        × (lookup key after ≢ lookup key before))

module _ {V : Type 0} (json : V → String) where
  spread-changed_keys-IsMerged :
      (injective : (v w : V) → json v ≡ json w → v ≡ w)
      → (key : String) (before after server : Dict V) → IsUnique after
      → IsMerged key before after server (spread server (changed_keys json before after))
  spread-changed_keys-IsMerged injective key before after server unique =
      let found =
        lookup-spread key server (changed_keys json before after)
          (changed_keys-IsUnique json before after unique)
        ∙ ap (λ v. or_else v (lookup key server))
            (lookup-changed_keys json key before after unique) in
      elim (Option-cases (lookup key after)) [
        | inl absent ↦ ground arith
        | inr (v, present) ↦ elim (Option-cases (lookup key before)) [
          | inl new ↦ ground arith
          | inr (w, old) ↦ ground (arith, eq_iff (json w) (json v), injective w v)
        ]
      ]

-- Values that print alike are equal.
pub record AreInjective (json : Printers) : Type 0 where
  pub market_eq : (v w : StoredMarketLeaf) → json.of_market v ≡ json.of_market w → v ≡ w
  pub meta_eq : (v w : StoredMarketMeta) → json.of_meta v ≡ json.of_meta w → v ≡ w
  pub text_eq : (v w : String) → json.of_text v ≡ json.of_text w → v ≡ w
  pub daily_eq : (v w : DailyMarket) → json.of_daily v ≡ json.of_daily w → v ≡ w

module _ (json : Printers) (before after server : OperatorState)
    (daily_before daily_after daily_server : Dict DailyMarket) where
  abbrev posted : Option StateImport
  posted = export_changes json before after daily_before daily_after

  -- With or without a request, the maps are the server's with the changes put over them.
  receive_changes-eq :
      let (state, daily) = receive_changes posted server daily_server in
      let i = changes json before after daily_before daily_after in
      (state.markets ≡ spread server.markets i.markets)
      × (state.market_meta ≡ spread server.market_meta i.market_meta)
      × (state.used_nonces ≡ spread server.used_nonces i.used_nonces)
      × (daily ≡ spread daily_server i.daily_markets)
  unfolding receive_changes export_changes import_state spread
  receive_changes-eq = ground arith

-- The worker compares two readings of the state and of the daily markets, whose objects have distinct
-- keys; values that print alike are equal. Whatever the server holds when it gets the request, or gets
-- none because nothing changed, in each of the markets, their descriptions, the used nonces and the
-- daily markets it has afterwards at any key the worker's value if the worker ends with a value there
-- that is not the one it began with, and else what it held.
pub received_changes-IsMerged :
    (json : Printers) (injective : AreInjective json)
    → (before after server : OperatorState)
      (daily_before daily_after daily_server : Dict DailyMarket)
    → IsUnique after.markets
    → IsUnique after.market_meta
    → IsUnique after.used_nonces
    → IsUnique daily_after
    → (key : String)
    → let posted = export_changes json before after daily_before daily_after in
      let received = receive_changes posted server daily_server in
      let state = received.0 in
      IsMerged key before.markets after.markets server.markets state.markets
      × IsMerged key before.market_meta after.market_meta server.market_meta state.market_meta
      × IsMerged key before.used_nonces after.used_nonces server.used_nonces state.used_nonces
      × IsMerged key daily_before daily_after daily_server received.1
received_changes-IsMerged json injective before after server daily_before daily_after daily_server
      markets metas nonces daily key =
    let (markets_eq, metas_eq, nonces_eq, daily_eq) =
      receive_changes-eq json before after server daily_before daily_after daily_server in
    (
      rw markets_eq (
          spread-changed_keys-IsMerged json.of_market injective.market_eq key before.markets
            after.markets server.markets markets),
      rw metas_eq (
          spread-changed_keys-IsMerged json.of_meta injective.meta_eq key before.market_meta
            after.market_meta server.market_meta metas),
      rw nonces_eq (
          spread-changed_keys-IsMerged json.of_text injective.text_eq key before.used_nonces
            after.used_nonces server.used_nonces nonces),
      rw daily_eq (
          spread-changed_keys-IsMerged json.of_daily injective.daily_eq key daily_before daily_after
            daily_server daily),
    )
