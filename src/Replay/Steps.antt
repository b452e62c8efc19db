-- ===== src/Replay/Steps.antt =====
-- What each event of the fast contract, as it is fetched, does to the replayed state.
use perfect_weather_predicti.Prelude.{
  ℕ, ◌≡◌, refl, ap, ◌∙◌, Bool, true, false, some, Option, String, str_eq, is_true_text, put, arith,
  ◌||◌, ◌⊎◌, inl, inr,
}
use perfect_weather_predicti.O1js.{NumberText, IsLawfulText}
use perfect_weather_predicti.MarketTypes.{MarketLeaf}
use perfect_weather_predicti.StateStore.{OperatorState}
use perfect_weather_predicti.StateStore.Roundtrip.{IsRanged, uint64_of-ranged}
use perfect_weather_predicti.Replay.{
  EventValue, object, ParsedEvent, as_string_like, as_field, as_uint64, as_bool, oracle_nonce_of,
  leaf_from_event_data, put_leaf, apply_market, apply_committed, apply_claimed, apply_event,
  or_state,
}

-- The event holds a leaf under a key: each property is an object that prints its value.
pub record Holds (x : NumberText) (e : ParsedEvent) (key : ℕ) (m : MarketLeaf) (nonce : EventValue)
    : Type 0 where
  pub market_key : e.event_data "marketKey" ≡ object (x.to_string key)
  pub config_hash : e.event_data "configHash" ≡ object (x.to_string m.config_hash)
  pub close_slot : e.event_data "closeSlot" ≡ object (x.to_string m.close_slot)
  pub expiry_slot : e.event_data "expirySlot" ≡ object (x.to_string m.expiry_slot)
  pub threshold :
      e.event_data "thresholdValueTenthC" ≡ object (x.to_string m.threshold_value_tenth_c)
  pub total : e.event_data "totalPositionBet" ≡ object (x.to_string m.total_position_bet)
  pub yes_total : e.event_data "totalYesPositionBet" ≡ object (x.to_string m.total_yes_position_bet)
  pub resolved : e.event_data "resolved" ≡ object (x.bool_to_string m.resolved)
  pub outcome : e.event_data "outcome" ≡ object (x.bool_to_string m.outcome)
  pub statement : e.event_data "oracleStatementHash" ≡ object (x.to_string m.oracle_statement_hash)
  pub oracle_nonce : e.event_data "oracleNonce" ≡ nonce

true_text : is_true_text "true" ≡ true
unfolding is_true_text
true_text = refl

false_text : is_true_text "false" ≡ false
unfolding is_true_text
false_text = refl

module _ (x : NumberText) (tl : IsLawfulText x) where
  pub as_field-object : (n : ℕ) → as_field x (object (x.to_string n)) ≡ some n
  unfolding as_field as_string_like
  as_field-object n = tl.field_of-to_string n

  as_uint64-object :
      (v : EventValue) (n : ℕ)
      → v ≡ object (x.to_string n)
      → x.uint64_of (x.to_string n) ≡ some n
      → as_uint64 x v ≡ some n
  unfolding as_uint64 as_string_like
  as_uint64-object v n e h = ap (as_uint64 x) e ∙ h

  as_bool-text : (t : String) → as_bool x (object t) ≡ some (str_eq t "1" || is_true_text t)
  unfolding as_bool as_string_like
  as_bool-text t = refl

  true_object : as_bool x (object "true") ≡ some true
  unfolding as_bool as_string_like is_true_text
  true_object = refl

  false_object : as_bool x (object "false") ≡ some false
  unfolding as_bool as_string_like is_true_text
  false_object = refl

  as_bool-object : (b : Bool) → as_bool x (object (x.bool_to_string b)) ≡ some b
  as_bool-object true = ap (λ t. as_bool x (object t)) tl.bool_to_string_true ∙ true_object
  as_bool-object false = ap (λ t. as_bool x (object t)) tl.bool_to_string_false ∙ false_object

  pub leaf_from_event_data-Holds :
      (e : ParsedEvent) (key : ℕ) (m : MarketLeaf) (nonce : EventValue) (n : Option String)
      → Holds x e key m nonce
      → IsRanged m
      → oracle_nonce_of x nonce ≡ some n
      → leaf_from_event_data x e.event_data
        ≡ some (record { market_key = x.to_string key; leaf = m; oracle_nonce = n })
  unfolding leaf_from_event_data IsRanged
  leaf_from_event_data-Holds e key m nonce n h ranged read =
      let (close, expiry, threshold, total, yes_total) = ranged in
      let u = uint64_of-ranged x tl in
      ground (
        arith,
        h.market_key,
        as_field-object key,
        h.config_hash,
        as_field-object m.config_hash,
        as_uint64-object _ _ h.close_slot (u m.close_slot close),
        as_uint64-object _ _ h.expiry_slot (u m.expiry_slot expiry),
        as_uint64-object _ _ h.threshold (u m.threshold_value_tenth_c threshold),
        as_uint64-object _ _ h.total (u m.total_position_bet total),
        as_uint64-object _ _ h.yes_total (u m.total_yes_position_bet yes_total),
        h.resolved,
        as_bool-object m.resolved,
        h.outcome,
        as_bool-object m.outcome,
        h.statement,
        as_field-object m.oracle_statement_hash,
        h.oracle_nonce,
      )

  abbrev branch : OperatorState → ParsedEvent → String → Option OperatorState
  branch s e t = apply_event x s (record e { event_type = t })

  -- An event of the name does what the branch for that name does.
  apply_event-market :
      (s : OperatorState) (e : ParsedEvent)
      → (e.event_type ≡ "marketCreated")
        ⊎ (e.event_type ≡ "marketUpdated")
        ⊎ (e.event_type ≡ "marketResolved")
      → apply_event x s e ≡ apply_market x e.event_data s
  unfolding apply_event
  apply_event-market s e named = elim named [
    | inl c ↦ ap (branch s e) c
    | inr (inl u) ↦ ap (branch s e) u
    | inr (inr r) ↦ ap (branch s e) r
  ]

  apply_event-committed :
      (s : OperatorState) (e : ParsedEvent)
      → e.event_type ≡ "receiptCommitted"
      → apply_event x s e ≡ apply_committed x e.event_data s
  unfolding apply_event
  apply_event-committed s e named = ap (branch s e) named

  apply_event-claimed :
      (s : OperatorState) (e : ParsedEvent)
      → e.event_type ≡ "receiptClaimed"
      → apply_event x s e ≡ apply_claimed x e.event_data s
  unfolding apply_event
  apply_event-claimed s e named = ap (branch s e) named

  pub replayed_market :
      (s : OperatorState) (e : ParsedEvent) (key : ℕ) (m : MarketLeaf) (nonce : EventValue)
      → (n : Option String)
      → (e.event_type ≡ "marketCreated")
        ⊎ (e.event_type ≡ "marketUpdated")
        ⊎ (e.event_type ≡ "marketResolved")
      → Holds x e key m nonce
      → IsRanged m
      → oracle_nonce_of x nonce ≡ some n
      → or_state x s (apply_event x s e)
        ≡ put_leaf x (record { market_key = x.to_string key; leaf = m; oracle_nonce = n }) s
  unfolding apply_market
  replayed_market s e key m nonce n named h ranged read = ground (
    arith,
    apply_event-market s e named,
    leaf_from_event_data-Holds e key m nonce n h ranged read,
  )

  pub replayed_committed :
      (s : OperatorState) (e : ParsedEvent) (key commitment : ℕ)
      → e.event_type ≡ "receiptCommitted"
      → e.event_data "receiptKey" ≡ object (x.to_string key)
      → e.event_data "receiptCommitment" ≡ object (x.to_string commitment)
      → or_state x s (apply_event x s e)
        ≡ record s { receipts = put (x.to_string key) (x.to_string commitment) s.receipts }
  unfolding apply_committed
  replayed_committed s e key commitment named k c =
      ground
        (arith, apply_event-committed s e named, as_field-object key, as_field-object commitment)

  pub replayed_claimed :
      (s : OperatorState) (e : ParsedEvent) (key : ℕ)
      → e.event_type ≡ "receiptClaimed"
      → e.event_data "receiptKey" ≡ object (x.to_string key)
      → or_state x s (apply_event x s e)
        ≡ record s { claimed_receipts = put (x.to_string key) "1" s.claimed_receipts }
  unfolding apply_claimed
  replayed_claimed s e key named k =
      ground (arith, apply_event-claimed s e named, as_field-object key)
