-- ===== src/Server/Authoritative/Tests.antt =====
-- The state of the server and of the script from two events.
use perfect_weather_predicti.Prelude.{◌≡◌, none, some, List, [], ◌∷◌, str_eq, if◌then◌else◌}
use perfect_weather_predicti.O1js.Unary.{unary, unary-IsLawfulText}
use perfect_weather_predicti.StateStore.{OperatorState, load_operator_state}
use perfect_weather_predicti.Replay.{text, missing, EventData, RawEvent, extract_parsed_events}
use perfect_weather_predicti.Replay.Sync.{build_state_from_events}
use perfect_weather_predicti.Server.Authoritative.{build_authoritative_state}
use perfect_weather_predicti.Server.Authoritative.Agreement.{
  IsPlain, ArePlain, build_authoritative_state-eq-sync,
}

abbrev receipt_data : EventData
receipt_data key =
    if str_eq key "receiptKey"
    then text "11"
    else if str_eq key "receiptCommitment"
    then text "1"
    else missing

abbrev events : List RawEvent
events =
    record { event_type = some "receiptCommitted"; event_data = some receipt_data; nested = [] }
    ∷ record { event_type = some "receiptClaimed"; event_data = some receipt_data; nested = [] }
    ∷ []

abbrev no_file : OperatorState
no_file = load_operator_state none

receipt-IsPlain : IsPlain unary receipt_data
receipt-IsPlain = record {
  market_key = tt;
  config_hash = tt;
  close_slot = tt;
  expiry_slot = tt;
  threshold = tt;
  total = tt;
  yes_total = tt;
  statement = tt;
  oracle_nonce = tt;
  receipt_key = tt;
  receipt_commitment = tt;
  nonce_read = λ truthy. cc;
}

events-ArePlain : ArePlain unary (extract_parsed_events events)
unfolding extract_parsed_events
events-ArePlain = (receipt-IsPlain, (receipt-IsPlain, tt))

build_authoritative_state-eq-sync_example :
    build_authoritative_state unary no_file events "B62z"
    ≡ record (build_state_from_events unary "B62z" events no_file) { positions = no_file.positions }
build_authoritative_state-eq-sync_example =
    build_authoritative_state-eq-sync unary unary-IsLawfulText no_file events "B62z" events-ArePlain
