-- ===== src/TxRetry.antt =====
-- src/tx-retry.ts: a call that may fail on the network is made again, with delays that double. The
-- operation is an argument, by the number of the attempt; the waiting is the list of the delays.
-- The label of the messages is left out.
mod Facts
mod Tests
use perfect_weather_predicti.Prelude.{
  ℕ, zero, suc, ◌+◌, ◌*◌, Bool, true, false, not, ◌||◌, Option, none, some, List, [], ◌∷◌, String,
  ◌==◌, if◌then◌else◌,
}
use text.Mathlib.Text.{find?}

-- What is thrown: an `Error` with its message, or another value with its text, `String(error)`.
pub data Thrown : Type 0 where
  error : String → Thrown
  other : String → Thrown

unfoldable pub stringify_error : Thrown → String
stringify_error (error message) = message
stringify_error (other text) = text

abbrev is_found : Option ℕ → Bool
is_found none = false
is_found (some _) = true

-- `text.includes(part)`
abbrev includes : String → String → Bool
includes text part = is_found (find? text part)

unfoldable pub is_retryable_tx_error : Thrown → Bool
unfolding stringify_error
is_retryable_tx_error e =
    let text = stringify_error e in
    includes text "Bad Gateway"
    || includes text "Gateway Timeout"
    || includes text "Account_nonce_precondition_unsatisfied"
    || includes text "Failed to fetch"
    || includes text "fetch failed"

pub data Answer {ℓ} (T : Type ℓ) : Type ℓ where
  returned : T → Answer T
  thrown : Thrown → Answer T

pub record Retried {ℓ} (T : Type ℓ) : Type ℓ where
  pub answer : Answer T
  pub sleeps : List ℕ

-- `opts?.attempts ?? 4` and `opts?.initialDelayMs ?? 4000`
abbrev pub or_default : Option ℕ → ℕ → ℕ
or_default none default = default
or_default (some n) default = n

module _ {ℓ} {T : Type ℓ} (operation : ℕ → Answer T) where
  -- The answer of an attempt, of which `left` more may follow, and the rest of the loop.
  unfoldable pub after_attempt : (left delay : ℕ) → Answer T → (rest : Retried T) → Retried T
  after_attempt left delay (returned v) rest = record { answer = returned v; sleeps = [] }
  after_attempt left delay (thrown e) rest =
      if not (is_retryable_tx_error e) || left == 0
      then record { answer = thrown e; sleeps = [] }
      else record { answer = rest.answer; sleeps = delay ∷ rest.sleeps }

  -- The loop, with `left` attempts to make, of which the next is `attempt`.
  unfoldable pub retry_from : (left attempt delay : ℕ) → Retried T
  unfolding after_attempt
  retry_from zero attempt delay = record {
    answer = thrown (error "failed with unknown error");
    sleeps = [];
  }
  retry_from (suc left) attempt delay =
      let rest = retry_from left (suc attempt) (delay * 2) in
      after_attempt left delay (operation attempt) rest

  unfoldable pub with_tx_retry : (attempts initial_delay_ms : Option ℕ) → Retried T
  with_tx_retry attempts initial_delay_ms =
      retry_from (or_default attempts 4) 1 (or_default initial_delay_ms 4000)
