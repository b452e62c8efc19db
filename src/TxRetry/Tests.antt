-- ===== src/TxRetry/Tests.antt =====
-- `withTxRetry` on an operation whose first two attempts fail at a gateway.
use perfect_weather_predicti.Prelude.{
  ℕ, ◌+◌, ◌-◌, ◌*◌, ◌^◌, ◌≤◌, ◌≡◌, refl, none, ◌==◌, if◌then◌else◌, [], ◌∷◌, sum, arith,
}
use perfect_weather_predicti.TxRetry.{
  Answer, returned, thrown, error, stringify_error, is_retryable_tx_error, after_attempt,
  retry_from, with_tx_retry,
}
use perfect_weather_predicti.TxRetry.Facts.{EndsAt, with_tx_retry-EndsAt, with_tx_retry_waits}

abbrev flaky : ℕ → Answer ℕ
flaky n =
    if n == 1
    then thrown (error "502 Bad Gateway")
    else if n == 2
    then thrown (error "fetch failed")
    else returned 7

third_attempt_answers : (with_tx_retry flaky none none).answer ≡ returned 7
unfolding with_tx_retry retry_from after_attempt is_retryable_tx_error stringify_error
third_attempt_answers = refl

waits_between : (with_tx_retry flaky none none).sleeps ≡ 4000 ∷ 8000 ∷ []
unfolding with_tx_retry retry_from after_attempt is_retryable_tx_error stringify_error
waits_between = refl

with_tx_retry-EndsAt_example :
    (last : ℕ) × EndsAt flaky 4 1 4000 last (with_tx_retry flaky none none)
with_tx_retry-EndsAt_example = with_tx_retry-EndsAt flaky none none (omega arith)

with_tx_retry_waits_example : sum (with_tx_retry flaky none none).sleeps + 4000 ≤ 4000 * 2 ^ (4 - 1)
with_tx_retry_waits_example = with_tx_retry_waits flaky none none (omega arith)
