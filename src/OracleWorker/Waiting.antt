-- ===== src/OracleWorker/Waiting.antt =====
-- The end of the wait for the server (src/oracle-worker.ts, lines 92 to 113).
use perfect_weather_predicti.Prelude.{
  ℕ, zero, suc, ◌+◌, ◌≤◌, ◌<◌, ◌≡◌, ◌⊎◌, Bool, true, false, length, inl, inr, Bool-cases, subst,
  refl, dec_le, arith,
}
use perfect_weather_predicti.OracleWorker.{wait_from, wait_for_market_ready}

module _ (is_ready : ℕ → Bool) (delay_ms : ℕ) where
  -- The loop has ended at its first good answer, or after its last check without one.
  abbrev HasEnded : (left attempt n : ℕ) → Type 0
  HasEnded left attempt n =
      let w = wait_from is_ready delay_ms left attempt in
      (w.checks ≤ left)
      × (length w.sleeps + 1 ≡ w.checks)
      × (((w.ready ≡ true)
            × ((last : ℕ) × (last + 1 ≡ attempt + w.checks)
                × (is_ready last ≡ true)
                × ((last ≤ n) ⊎ (is_ready n ≡ false))))
          ⊎ ((w.ready ≡ false) × (w.checks ≡ left) × (is_ready n ≡ false)))

  last_check : (attempt : ℕ) → HasEnded 1 attempt attempt
  unfolding wait_from
  last_check attempt = elim (Bool-cases (is_ready attempt)) [
    | inl ready ↦
        (ground arith, refl, inl (ready, (attempt, ground arith, ready, inl (ground arith))))
    | inr waits ↦ (ground arith, refl, inr (waits, refl, waits))
  ]

  good_check :
      (left attempt n : ℕ)
      → attempt ≤ n
      → is_ready attempt ≡ true
      → HasEnded (suc (suc left)) attempt n
  unfolding wait_from
  good_check left attempt n low ready =
      rw ready (ground arith, refl, inl (refl, (attempt, ground arith, ready, inl low)))

  next_check :
      (left attempt n m : ℕ)
      → is_ready attempt ≡ false
      → (n ≡ m) ⊎ (n ≡ attempt)
      → HasEnded (suc left) (suc attempt) m
      → HasEnded (suc (suc left)) attempt n
  unfolding wait_from
  next_check left attempt n m waits which (few, slept, inl (ready, (last, at, is_last, first))) =
      rw waits
        (ground arith, ground arith, inl (ready, (last, ground arith, is_last, ground arith)))
  next_check left attempt n m waits which (few, slept, inr (unready, all, none_ready)) =
      rw waits (ground arith, ground arith, inr (unready, ground arith, ground arith))

  wait_from-HasEnded :
      (left attempt n : ℕ) → attempt ≤ n → n < attempt + left → HasEnded left attempt n
  wait_from-HasEnded zero attempt n low high = ground arith
  wait_from-HasEnded (suc zero) attempt n low high =
      subst (λ k. HasEnded 1 attempt k) (ground arith) (last_check attempt)
  wait_from-HasEnded (suc (suc left)) attempt n low high = elim (Bool-cases (is_ready attempt)) [
    | inl ready ↦ good_check left attempt n low ready
    | inr waits ↦ elim (dec_le (suc attempt) n) [
      | yes later ↦
          next_check left attempt n n waits (inl refl)
            (wait_from-HasEnded (suc left) (suc attempt) n later (ground arith))
      | no now ↦
          next_check left attempt n (suc attempt) waits (inr (ground arith)) (
            wait_from-HasEnded (suc left) (suc attempt) (suc attempt) (ground arith) (ground arith))
    ]
  ]

-- The wait for the server ends, whatever the server answers: it makes at most the attempts allowed and
-- sleeps once between two of them. Either it ends at a check that finds the server ready, no later than
-- the n-th if that finds it ready; or it has made all attempts, the n-th found the server not ready,
-- and the wait throws. This is for every n from 1 to the number of attempts.
pub wait_for_market_ready_ends :
    (is_ready : ℕ → Bool) (max_attempts delay_ms n : ℕ)
    → 1 ≤ n
    → n ≤ max_attempts
    → let w = wait_for_market_ready is_ready max_attempts delay_ms in
      (w.checks ≤ max_attempts)
      × (length w.sleeps + 1 ≡ w.checks)
      × (((w.ready ≡ true) × (is_ready w.checks ≡ true) × ((w.checks ≤ n) ⊎ (is_ready n ≡ false)))
          ⊎ ((w.ready ≡ false) × (w.checks ≡ max_attempts) × (is_ready n ≡ false)))
unfolding wait_for_market_ready
wait_for_market_ready_ends is_ready max_attempts delay_ms n low high =
    let (few, slept, ended) =
      wait_from-HasEnded is_ready delay_ms max_attempts 1 n low (ground arith) in
    elim ended [
      | inr missed ↦ (few, slept, inr missed)
      | inl (ready, (last, at, is_last, first)) ↦
          let same : last ≡ (wait_from is_ready delay_ms max_attempts 1).checks = omega arith in
          (few, slept, inl (ready, subst (λ k. is_ready k ≡ true) same is_last, ground arith))
    ]
