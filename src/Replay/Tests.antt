-- ===== src/Replay/Tests.antt =====
-- A concrete `fetchEvents`, on unary numbers, and the flat and nested forms of what it returns.
use perfect_weather_predicti.Prelude.{
  ℕ, ◌≡◌, refl, Bool, some, none, [], ◌∷◌, String, str_eq, if◌then◌else◌,
}
use perfect_weather_predicti.O1js.Unary.{unary}
use perfect_weather_predicti.FastContract.{
  FastEvent, market_created, market_updated, market_resolved, receipt_committed, receipt_claimed,
}
use perfect_weather_predicti.Transaction.{MarketSnapshotEvent, MarketResolvedEvent}
use perfect_weather_predicti.Replay.{
  EventValue, object, missing, EventData, ParsedEvent, RawEvent, extract_parsed_events,
  extract_nested,
}
use perfect_weather_predicti.Replay.Events.{IsFetch}
open unary use {to_string, bool_to_string}

abbrev property : String → EventValue → EventData → EventData
property key v rest k = if str_eq k key then v else rest k

abbrev printed : ℕ → EventValue
printed n = object (to_string n)

abbrev flagged : Bool → EventValue
flagged b = object (bool_to_string b)

abbrev nothing : EventData
nothing k = missing

abbrev snapshot : MarketSnapshotEvent → EventData
snapshot e = property "marketKey" (printed e.market_key) (
    property "configHash" (printed e.config_hash) (
      property "closeSlot" (printed e.close_slot) (
        property "expirySlot" (printed e.expiry_slot) (
          property "thresholdValueTenthC" (printed e.threshold_value_tenth_c) (
            property "totalPositionBet" (printed e.total_position_bet) (
              property "totalYesPositionBet" (printed e.total_yes_position_bet) (
                property "resolved" (flagged e.resolved) (
                  property "outcome" (flagged e.outcome) (
                    property "oracleStatementHash" (printed e.oracle_statement_hash)
                      nothing)))))))))

abbrev resolution : MarketResolvedEvent → EventData
resolution e = property "oracleNonce" (printed e.oracle_nonce) (
    snapshot (record {
      market_key = e.market_key;
      config_hash = e.config_hash;
      close_slot = e.close_slot;
      expiry_slot = e.expiry_slot;
      threshold_value_tenth_c = e.threshold_value_tenth_c;
      total_position_bet = e.total_position_bet;
      total_yes_position_bet = e.total_yes_position_bet;
      resolved = e.resolved;
      outcome = e.outcome;
      oracle_statement_hash = e.oracle_statement_hash;
    }))

abbrev pub fetch_event : FastEvent → ParsedEvent
fetch_event (market_created e) = record { event_type = "marketCreated"; event_data = snapshot e }
fetch_event (market_updated e) = record { event_type = "marketUpdated"; event_data = snapshot e }
fetch_event (market_resolved e) = record {
  event_type = "marketResolved";
  event_data = resolution e;
}
fetch_event (receipt_committed e) = record {
  event_type = "receiptCommitted";
  event_data =
      property "receiptKey" (printed e.receipt_key)
        (property "receiptCommitment" (printed e.receipt_commitment) nothing);
}
fetch_event (receipt_claimed e) = record {
  event_type = "receiptClaimed";
  event_data = property "receiptKey" (printed e.receipt_key) nothing;
}

pub fetch_event-IsFetch : IsFetch unary fetch_event
fetch_event-IsFetch = record {
  created_type = λ e. refl;
  created_data = λ key m. record {
    market_key = refl;
    config_hash = refl;
    close_slot = refl;
    expiry_slot = refl;
    threshold = refl;
    total = refl;
    yes_total = refl;
    resolved = refl;
    outcome = refl;
    statement = refl;
    oracle_nonce = refl;
  };
  updated_type = λ e. refl;
  updated_data = λ key m. record {
    market_key = refl;
    config_hash = refl;
    close_slot = refl;
    expiry_slot = refl;
    threshold = refl;
    total = refl;
    yes_total = refl;
    resolved = refl;
    outcome = refl;
    statement = refl;
    oracle_nonce = refl;
  };
  resolved_type = λ e. refl;
  resolved_data = λ key m nonce. record {
    market_key = refl;
    config_hash = refl;
    close_slot = refl;
    expiry_slot = refl;
    threshold = refl;
    total = refl;
    yes_total = refl;
    resolved = refl;
    outcome = refl;
    statement = refl;
    oracle_nonce = refl;
  };
  committed_type = λ e. refl;
  committed_key = λ e. refl;
  committed_value = λ e. refl;
  claimed_type = λ e. refl;
  claimed_key = λ e. refl;
}

abbrev claim_data : EventData
claim_data = property "receiptKey" (object "1") nothing

abbrev flat : RawEvent
flat = record { event_type = some "receiptClaimed"; event_data = some claim_data; nested = [] }

abbrev nested : RawEvent
nested = record {
  event_type = none;
  event_data = none;
  nested =
      record { event_type = some "receiptClaimed"; event = none; event_data = some claim_data }
      ∷ record { event_type = none; event = some (some claim_data); event_data = none }
      ∷ [];
}

extracts_both :
    extract_parsed_events (flat ∷ nested ∷ [])
    ≡ record { event_type = "receiptClaimed"; event_data = claim_data }
      ∷ record { event_type = "receiptClaimed"; event_data = claim_data }
      ∷ []
unfolding extract_parsed_events extract_nested
extracts_both = refl
