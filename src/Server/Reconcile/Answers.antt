-- ===== src/Server/Reconcile/Answers.antt =====
-- The statuses that a pass over the claims reads, from the network and from its cache
-- (src/marketplace-server.ts, lines 3010 to 3017 and 3040 to 3047).
use perfect_weather_predicti.Prelude.{
  ℕ, ◌≡◌, ◌⊎◌, inl, inr, refl, ◌∙◌, sym, subst, subst₂, true, Option, none, some, some-injective,
  String, str_eq, eq_iff, Dict, lookup, put, lookup-put, Bool-cases, Option-cases, arith,
  >>=-eq-some,
}
use perfect_weather_predicti.Server.Reconcile.{CachedStatus, is_fresh, fetch_status, status_for}

-- What the network says of transactions: the answers of `fetch` in a pass, and what is cached and fresh.
abbrev pub AreTrueAnswers :
    (Says : (hash status : String) → Type 0) (fetch : (key hash : String) → Option String) → Type 0
AreTrueAnswers Says fetch =
    (key hash status : String) → fetch key hash ≡ some status → Says hash status

abbrev pub IsTrueCache :
    (Says : (hash status : String) → Type 0) (now : ℕ) → Dict CachedStatus → Type 0
IsTrueCache Says now cache =
    (hash : String) (c : CachedStatus)
    → lookup hash cache ≡ some c
    → is_fresh now c ≡ true
    → Says hash c.status

module _ (Says : (hash status : String) → Type 0) (fetch : (key hash : String) → Option String)
    (now : ℕ) (answers : AreTrueAnswers Says fetch) where
  put-IsTrueCache :
      (key hash status : String) (cache : Dict CachedStatus)
      → IsTrueCache Says now cache
      → fetch key hash ≡ some status
      → IsTrueCache Says now (put hash (record { status = status; fetched_at_unix_ms = now }) cache)
  put-IsTrueCache key hash status cache truthful fetched hash' c found fresh =
      let e : CachedStatus = record { status = status; fetched_at_unix_ms = now } in
      elim (Bool-cases (str_eq hash hash')) [
        | inl same ↦
            subst₂ Says (ground (arith, eq_iff hash hash'))
              (ground (arith, lookup-put hash hash' e cache)) (answers key hash status fetched)
        | inr other ↦ truthful hash' c (ground (arith, lookup-put hash hash' e cache)) fresh
      ]

  status_for-cases :
      (key hash : String) (cache : Dict CachedStatus)
      → (status_for fetch now key hash cache ≡ fetch_status fetch now key hash cache)
        ⊎ ((c : CachedStatus) × (lookup hash cache ≡ some c)
            × (is_fresh now c ≡ true)
            × (status_for fetch now key hash cache ≡ some (c.status, cache)))
  unfolding status_for
  status_for-cases key hash cache = elim (Option-cases (lookup hash cache)) [
    | inl absent ↦ inl (rw (absent, status_for) refl)
    | inr (c, found) ↦ elim (Bool-cases (is_fresh now c)) [
      | inl fresh ↦ inr (c, found, fresh, ground arith)
      | inr stale ↦ inl (ground arith)
    ]
  ]

  pub status_for-none :
      (key hash : String) (cache : Dict CachedStatus)
      → status_for fetch now key hash cache ≡ none
      → fetch key hash ≡ none
  unfolding status_for fetch_status
  status_for-none key hash cache h = ground arith

  fetch_status-some :
      (key hash : String) (cache : Dict CachedStatus) (r : String × Dict CachedStatus)
      → IsTrueCache Says now cache
      → fetch_status fetch now key hash cache ≡ some r
      → Says hash r.0 × IsTrueCache Says now r.1
  unfolding fetch_status
  fetch_status-some key hash cache r truthful h =
      let (status, fetched, last) = >>=-eq-some (fetch key hash) _ h in
      subst (λ (q : String × Dict CachedStatus). Says hash q.0 × IsTrueCache Says now q.1)
        (some-injective _ _ last)
        (answers key hash status fetched, put-IsTrueCache key hash status cache truthful fetched)

  pub status_for-some :
      (key hash : String) (cache : Dict CachedStatus) (r : String × Dict CachedStatus)
      → IsTrueCache Says now cache
      → status_for fetch now key hash cache ≡ some r
      → Says hash r.0 × IsTrueCache Says now r.1
  status_for-some key hash cache r truthful h = elim (status_for-cases key hash cache) [
    | inl fetched ↦ fetch_status-some key hash cache r truthful (sym fetched ∙ h)
    | inr (c, found, fresh, e) ↦
        subst (λ (q : String × Dict CachedStatus). Says hash q.0 × IsTrueCache Says now q.1)
          (some-injective _ _ (sym e ∙ h)) (truthful hash c found fresh, truthful)
  ]
