-- ===== src/Replay/Runs.antt =====
-- The replay of one event after another (src/recover-state-from-events.ts, lines 188 to 207).
use perfect_weather_predicti.Prelude.{
  ℕ, ◌≡◌, refl, ap, ◌∙◌, some, none, List, [], ◌∷◌, ◌++◌, map, arith,
}
use perfect_weather_predicti.O1js.{NumberText, IsLawfulText}
use perfect_weather_predicti.StateStore.{OperatorState}
use perfect_weather_predicti.Replay.{
  ParsedEvent, object, missing, oracle_nonce_of, replay, apply_event, or_state,
}
use perfect_weather_predicti.Replay.Steps.{as_field-object}

module _ (x : NumberText) where
  pub replay-append :
      (es fs : List ParsedEvent) (d : OperatorState)
      → replay x (es ++ fs) d ≡ replay x fs (replay x es d)
  unfolding replay
  replay-append [] fs d = refl
  replay-append (e ∷ es) fs d = replay-append es fs (or_state x d (apply_event x d e))

  pub replay-one :
      (e : ParsedEvent) (d d' : OperatorState)
      → or_state x d (apply_event x d e) ≡ d'
      → replay x (e ∷ []) d ≡ d'
  unfolding replay
  replay-one e d d' h = h

  pub replay-two :
      (e f : ParsedEvent) (d d' d'' : OperatorState)
      → or_state x d (apply_event x d e) ≡ d'
      → or_state x d' (apply_event x d' f) ≡ d''
      → replay x (e ∷ f ∷ []) d ≡ d''
  unfolding replay
  replay-two e f d d' d'' h k = ap (λ q. or_state x q (apply_event x q f)) h ∙ k

  pub replay-none : (d : OperatorState) → replay x [] d ≡ d
  unfolding replay
  replay-none d = refl

  pub no_nonce : oracle_nonce_of x missing ≡ some none
  unfolding oracle_nonce_of
  no_nonce = refl

  pub read_nonce :
      (tl : IsLawfulText x) (n : ℕ)
      → oracle_nonce_of x (object (x.to_string n)) ≡ some (some (x.to_string n))
  unfolding oracle_nonce_of
  read_nonce tl n = ground (arith, as_field-object x tl n)

pub map-append :
    {A B : Type 0} (f : A → B) (xs ys : List A) → map f (xs ++ ys) ≡ map f xs ++ map f ys
map-append f [] ys = refl
map-append f (a ∷ xs) ys = ap (λ l. f a ∷ l) (map-append f xs ys)
