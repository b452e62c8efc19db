-- ===== src/Replay/Parsing.antt =====
-- src/recover-state-from-events.ts, lines 15 to 116: what is read from fetched events. What a property
-- of a fetched object is, `unknown` in the source, is told by its type and its text.
use perfect_weather_predicti.Prelude.{
  ℕ, zero, suc, Bool, true, false, ◌||◌, Option, none, some, List, [], ◌∷◌, ◌++◌, String, str_eq,
  is_true_text, if◌then◌else◌, ◌>>=◌,
}
use perfect_weather_predicti.O1js.{NumberText}
use perfect_weather_predicti.MarketTypes.{MarketLeaf}

-- A value of a property: `object` is one with a `toString`, and its text.
pub data EventValue : Type 0 where
  text : String → EventValue
  number : ℕ → EventValue
  flag : Bool → EventValue
  object : String → EventValue
  missing : EventValue

-- `Record<string, unknown>`, which is read by its keys.
abbrev pub EventData : Type 0
EventData = String → EventValue

-- `ParsedEvent`, without what the report of a recovery shows of its block.
pub record ParsedEvent : Type 0 where
  pub event_type : String
  pub event_data : EventData

-- What `fetchEvents` returns: an event with its `type` and `event.data`, or one with a list `events`
-- of events, each with its data in `event.data`, or in `data` where it has no object `event`.
pub record RawNested : Type 0 where
  pub event_type : Option String
  pub event : Option (Option EventData)
  pub event_data : Option EventData

pub record RawEvent : Type 0 where
  pub event_type : Option String
  pub event_data : Option EventData
  pub nested : List RawNested

abbrev nested_data : RawNested → Option EventData
nested_data n = elim (n.event) [ none ↦ n.event_data | some inner ↦ inner ]

-- The event, where its type and data are there.
abbrev parsed_of : Option String → Option EventData → List ParsedEvent
parsed_of (some t) (some d) = record { event_type = t; event_data = d } ∷ []
parsed_of (some t) none = []
parsed_of none d = []

unfoldable pub extract_nested : List RawNested → List ParsedEvent
extract_nested [] = []
extract_nested (n ∷ ns) = parsed_of n.event_type (nested_data n) ++ extract_nested ns

abbrev pub or_nested : List ParsedEvent → List ParsedEvent → List ParsedEvent
or_nested [] nested = nested
or_nested (e ∷ es) nested = e ∷ es

-- `extractParsedEvents`
unfoldable pub extract_parsed_events : List RawEvent → List ParsedEvent
unfolding extract_nested
extract_parsed_events [] = []
extract_parsed_events (item ∷ items) =
    or_nested (parsed_of item.event_type item.event_data) (extract_nested item.nested)
    ++ extract_parsed_events items

module _ (x : NumberText) where
  open x use {to_string, field_of, uint64_of}

  -- `asStringLike`
  unfoldable pub as_string_like : EventValue → Option String
  as_string_like (text t) = some t
  as_string_like (number n) = some (to_string n)
  as_string_like (flag b) = some (if b then "1" else "0")
  as_string_like (object t) = some t
  as_string_like missing = none

  unfoldable pub as_bool : EventValue → Option Bool
  unfolding as_string_like
  as_bool v = do
    normalized ← as_string_like v
    some (str_eq normalized "1" || is_true_text normalized)

  unfoldable pub as_field : EventValue → Option ℕ
  unfolding as_string_like
  as_field v = do t ← as_string_like v; field_of t

  unfoldable pub as_uint64 : EventValue → Option ℕ
  unfolding as_string_like
  as_uint64 v = do t ← as_string_like v; uint64_of t

  -- `data.oracleNonce ? … : …`
  abbrev pub is_truthy : EventValue → Bool
  is_truthy (text t) = if str_eq t "" then false else true
  is_truthy (number zero) = false
  is_truthy (number (suc n)) = true
  is_truthy (flag b) = b
  is_truthy (object t) = true
  is_truthy missing = false

  pub record EventLeaf : Type 0 where
    pub market_key : String
    pub leaf : MarketLeaf
    pub oracle_nonce : Option String

  -- `data.oracleNonce ? asField(data.oracleNonce, 'oracleNonce').toString() : undefined`
  unfoldable pub oracle_nonce_of : EventValue → Option (Option String)
  unfolding as_field
  oracle_nonce_of v =
      if is_truthy v then (do n ← as_field v; some (some (to_string n))) else some none

  -- `leafFromEventData`
  unfoldable pub leaf_from_event_data : EventData → Option EventLeaf
  leaf_from_event_data d = do
    market_key ← as_field (d "marketKey")
    config_hash ← as_field (d "configHash")
    close_slot ← as_uint64 (d "closeSlot")
    expiry_slot ← as_uint64 (d "expirySlot")
    threshold ← as_uint64 (d "thresholdValueTenthC")
    total ← as_uint64 (d "totalPositionBet")
    yes_total ← as_uint64 (d "totalYesPositionBet")
    resolved ← as_bool (d "resolved")
    outcome ← as_bool (d "outcome")
    oracle_statement_hash ← as_field (d "oracleStatementHash")
    oracle_nonce ← oracle_nonce_of (d "oracleNonce")
    some (record {
      market_key = to_string market_key;
      leaf = record {
        config_hash = config_hash;
        close_slot = close_slot;
        expiry_slot = expiry_slot;
        threshold_value_tenth_c = threshold;
        total_position_bet = total;
        total_yes_position_bet = yes_total;
        resolved = resolved;
        outcome = outcome;
        oracle_statement_hash = oracle_statement_hash;
      };
      oracle_nonce = oracle_nonce;
    })
