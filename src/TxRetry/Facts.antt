-- ===== src/TxRetry/Facts.antt =====
-- Which attempt `withTxRetry` (src/tx-retry.ts) answers with, and how long it waits.
use perfect_weather_predicti.Prelude.{
  ℕ, zero, suc, ◌+◌, ◌-◌, ◌*◌, ◌^◌, ◌≤◌, ◌<◌, ◌≡◌, ◌⊎◌, inl, inr, refl, sym, ap, ◌∙◌, Bool, true,
  false, Option, List, [], ◌∷◌, sum, arith, Bool-cases, subst, ◌==◌,
}
use native.Mathlib.Nat.{pow-suc, mul_assoc, mul-le-mul_left, pow-le-pow_right}
use perfect_weather_predicti.TxRetry.{
  Answer, returned, thrown, Retried, or_default, is_retryable_tx_error, after_attempt, retry_from,
  with_tx_retry,
}

-- `count` delays from `delay` on, each twice the one before.
pub doubling : (count delay : ℕ) → List ℕ
doubling zero delay = []
doubling (suc count) delay = delay ∷ doubling count (delay * 2)

-- The attempt failed in a way that is tried again.
abbrev pub is_retried {ℓ} : {T : Type ℓ} → Answer T → Bool
is_retried (returned v) = false
is_retried (thrown e) = is_retryable_tx_error e

sum-doubling_lem : (n d : ℕ) → sum (doubling n d) + d ≡ d * 2 ^ n
unfolding doubling
sum-doubling_lem zero d = omega arith
sum-doubling_lem (suc n) d =
    ground (arith, sum-doubling_lem n (d * 2), pow-suc 2 n, mul_assoc d 2 (2 ^ n))

module _ {ℓ} {T : Type ℓ} (operation : ℕ → Answer T) where
  -- What a run of the loop says: it ends with the attempt `last`, after the delays before it.
  abbrev pub EndsAt : (left attempt delay last : ℕ) → Retried T → Type ℓ
  EndsAt left attempt delay last run =
      (attempt ≤ last)
      × (last < attempt + left)
      × (run.answer ≡ operation last)
      × (run.sleeps ≡ doubling (last - attempt) delay)
      × ((j : ℕ) → attempt ≤ j → j < last → is_retried (operation j) ≡ true)
      × ((suc last ≡ attempt + left) ⊎ (is_retried (operation last) ≡ false))

  stops :
      (left delay : ℕ) (a : Answer T) (rest : Retried T)
      → (is_retried a ≡ false) ⊎ (left ≡ 0)
      → after_attempt operation left delay a rest ≡ record { answer = a; sleeps = [] }
  unfolding after_attempt
  stops left delay (returned v) rest h = refl
  stops left delay (thrown e) rest h = ground arith

  continues :
      (left delay : ℕ) (a : Answer T) (rest : Retried T)
      → is_retried a ≡ true
      → after_attempt operation (suc left) delay a rest
        ≡ record { answer = rest.answer; sleeps = delay ∷ rest.sleeps }
  unfolding after_attempt
  continues left delay (returned v) rest h = cc
  continues left delay (thrown e) rest h = ground arith

  retried_before :
      (attempt last : ℕ)
      → is_retried (operation attempt) ≡ true
      → ((j : ℕ) → suc attempt ≤ j → j < last → is_retried (operation j) ≡ true)
      → (j : ℕ) → attempt ≤ j
      → j < last
      → is_retried (operation j) ≡ true
  retried_before attempt last now later j from below = elim (Bool-cases (attempt == j)) [
    | inl same ↦ subst (λ n. is_retried (operation n) ≡ true) (ground arith) now
    | inr differ ↦ later j (ground arith) below
  ]

  doubling-first :
      (attempt last delay : ℕ)
      → suc attempt ≤ last
      → doubling (last - attempt) delay ≡ delay ∷ doubling (last - suc attempt) (delay * 2)
  unfolding doubling
  doubling-first attempt last delay h =
      let count : suc (last - suc attempt) ≡ last - attempt = omega arith in
      subst (λ n. doubling n delay ≡ delay ∷ doubling (last - suc attempt) (delay * 2)) count refl

  stop_here :
      (left attempt delay : ℕ) (rest : Retried T)
      → (is_retried (operation attempt) ≡ false) ⊎ (left ≡ 0)
      → EndsAt
          (suc left)
          attempt
          delay
          attempt
          (after_attempt operation left delay (operation attempt) rest)
  unfolding doubling
  stop_here left attempt delay rest h =
      let run = stops left delay (operation attempt) rest h in
      let none_before : attempt - attempt ≡ 0 = omega arith in
      (
        omega arith,
        omega arith,
        ap (λ (r : Retried T). r.answer) run,
        ap (λ (r : Retried T). r.sleeps) run ∙ sym (ap (λ n. doubling n delay) none_before),
        λ j from below. absurd (omega arith),
        elim h [ inl f ↦ inr f | inr z ↦ inl (omega arith) ],
      )

  retry_from-EndsAt :
      (left attempt delay : ℕ)
      → (last : ℕ) × EndsAt
          (suc left)
          attempt
          delay
          last
          (retry_from operation (suc left) attempt delay)
  unfolding retry_from
  retry_from-EndsAt zero attempt delay = (attempt, stop_here zero attempt delay _ (inr refl))
  retry_from-EndsAt (suc left) attempt delay = elim (Bool-cases (is_retried (operation attempt))) [
    | inl again ↦
        let (last, ends) = retry_from-EndsAt left (suc attempt) (delay * 2) in
        let (from, below, answer, sleeps, before, end) = ends in
        let rest = retry_from operation (suc left) (suc attempt) (delay * 2) in
        let run = continues left delay (operation attempt) rest again in
        (
          last,
          (
            omega arith,
            omega arith,
            ap (λ (r : Retried T). r.answer) run ∙ answer,
            ap (λ (r : Retried T). r.sleeps) run
                ∙ ap (λ l. delay ∷ l) sleeps
                ∙ sym (doubling-first attempt last delay from),
            retried_before attempt last again before,
            elim end [ inl e ↦ inl (omega arith) | inr f ↦ inr f ],
          ),
        )
    | inr done ↦ (attempt, stop_here (suc left) attempt delay _ (inl done))
  ]

  -- With at least one attempt allowed, the answer is that of some attempt: all those before it
  -- failed in a way that is tried again, and it did not, or it is the last one allowed. Before it
  -- the call waits once after each attempt, each time twice as long.
  pub with_tx_retry-EndsAt :
      (attempts initial_delay_ms : Option ℕ)
      → 1 ≤ or_default attempts 4
      → (last : ℕ) × EndsAt
          (or_default attempts 4)
          1
          (or_default initial_delay_ms 4000)
          last
          (with_tx_retry operation attempts initial_delay_ms)
  unfolding with_tx_retry
  with_tx_retry-EndsAt attempts initial_delay_ms positive =
      let more : suc (or_default attempts 4 - 1) ≡ or_default attempts 4 = omega arith in
      let delay = or_default initial_delay_ms 4000 in
      subst (λ n. (last : ℕ) × EndsAt n 1 delay last (retry_from operation n 1 delay)) more
        (retry_from-EndsAt (or_default attempts 4 - 1) 1 delay)

  -- A call that allows at least one attempt waits less than the first delay doubled once for each
  -- attempt after the first: the waits and one more first delay do not exceed it.
  pub with_tx_retry_waits :
      (attempts initial_delay_ms : Option ℕ)
      → 1 ≤ or_default attempts 4
      → sum (with_tx_retry operation attempts initial_delay_ms).sleeps
          + or_default initial_delay_ms 4000
        ≤ or_default initial_delay_ms 4000 * 2 ^ (or_default attempts 4 - 1)
  with_tx_retry_waits attempts initial_delay_ms positive =
      let (last, ends) = with_tx_retry-EndsAt attempts initial_delay_ms positive in
      let (from, below, answer, sleeps, before, end) = ends in
      let delay = or_default initial_delay_ms 4000 in
      let n = or_default attempts 4 in
      let two : 0 < 2 = omega arith in
      let within : last - 1 ≤ n - 1 = omega arith in
      omega (
        arith,
        ap sum sleeps,
        sum-doubling_lem (last - 1) delay,
        mul-le-mul_left delay (pow-le-pow_right two within),
      )
