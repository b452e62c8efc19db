-- ===== src/FastContract/Tests/Sync.antt =====
-- The run of the parent module, synchronised by the script and by the server.
use perfect_weather_predicti.Prelude.{
  ◌≡◌, refl, ap, true, false, none, some, List, [], ◌∷◌, map, arith, ◌≢◌, subst, sym,
}
use perfect_weather_predicti.O1js.Concrete.{concrete, concrete-IsLawful}
use perfect_weather_predicti.O1js.Unary.{unary, unary-IsLawfulText}
use perfect_weather_predicti.StateStore.{
  OperatorState, load_operator_state, build_markets_merkle_map, build_receipts_merkle_map,
  build_claimed_receipts_merkle_map,
}
use perfect_weather_predicti.FastContract.{
  FastEvent, market_created, market_updated, market_resolved, receipt_committed, receipt_claimed,
}
use perfect_weather_predicti.Replay.{
  ParsedEvent, RawEvent, EventData, extract_parsed_events, is_truthy, as_field, as_string_like,
}
use perfect_weather_predicti.Replay.Recovery.{HasRoot}
use perfect_weather_predicti.Replay.Steps.{as_field-object}
use perfect_weather_predicti.Replay.Sync.{read, sync, next_state}
use perfect_weather_predicti.Replay.Sync.Decision.{sync_accepts_contract}
use perfect_weather_predicti.Replay.Tests.{fetch_event, fetch_event-IsFetch}
use perfect_weather_predicti.Server.Authoritative.{build_authoritative_state}
use perfect_weather_predicti.Server.Authoritative.Agreement.{
  IsNumeric, IsPlain, ArePlain, authoritative_state_has_roots,
}
use perfect_weather_predicti.FastContract.Tests.{out5}
use perfect_weather_predicti.FastContract.Tests.Recovery.{all_events, trace5}

abbrev raw_of : ParsedEvent → RawEvent
raw_of e = record { event_type = some e.event_type; event_data = some e.event_data; nested = [] }

abbrev raw_events : List RawEvent
raw_events = map raw_of (map fetch_event all_events)

extracts : (es : List ParsedEvent) → extract_parsed_events (map raw_of es) ≡ es
unfolding extract_parsed_events
extracts [] = refl
extracts (e ∷ es) = ap (◌∷◌ e) (extracts es)

extracts_all : extract_parsed_events raw_events ≡ map fetch_event all_events
extracts_all = extracts (map fetch_event all_events)

nonce_is_read :
    (e : FastEvent)
    → is_truthy unary ((fetch_event e).event_data "oracleNonce") ≡ true
    → as_field unary ((fetch_event e).event_data "oracleNonce") ≢ none
unfolding as_field as_string_like
nonce_is_read (market_created e) truthy = cc
nonce_is_read (market_updated e) truthy = cc
nonce_is_read (market_resolved e) truthy =
    ground (arith, as_field-object unary unary-IsLawfulText e.oracle_nonce)
nonce_is_read (receipt_committed e) truthy = cc
nonce_is_read (receipt_claimed e) truthy = cc

abbrev AllNumeric : EventData → Type 0
AllNumeric d =
    IsNumeric (d "marketKey")
    × IsNumeric (d "configHash")
    × IsNumeric (d "closeSlot")
    × IsNumeric (d "expirySlot")
    × IsNumeric (d "thresholdValueTenthC")
    × IsNumeric (d "totalPositionBet")
    × IsNumeric (d "totalYesPositionBet")
    × IsNumeric (d "oracleStatementHash")
    × IsNumeric (d "oracleNonce")
    × IsNumeric (d "receiptKey")
    × IsNumeric (d "receiptCommitment")

fetched-AllNumeric : (e : FastEvent) → AllNumeric (fetch_event e).event_data
fetched-AllNumeric (market_created e) = (tt, tt, tt, tt, tt, tt, tt, tt, tt, tt, tt)
fetched-AllNumeric (market_updated e) = (tt, tt, tt, tt, tt, tt, tt, tt, tt, tt, tt)
fetched-AllNumeric (market_resolved e) = (tt, tt, tt, tt, tt, tt, tt, tt, tt, tt, tt)
fetched-AllNumeric (receipt_committed e) = (tt, tt, tt, tt, tt, tt, tt, tt, tt, tt, tt)
fetched-AllNumeric (receipt_claimed e) = (tt, tt, tt, tt, tt, tt, tt, tt, tt, tt, tt)

fetched-IsPlain : (e : FastEvent) → IsPlain unary (fetch_event e).event_data
fetched-IsPlain e =
    let (
      key, config, close, expiry, threshold, total, yes_total, statement, nonce, receipt,
      commitment,
    ) =
      fetched-AllNumeric e in
    record {
      market_key = key;
      config_hash = config;
      close_slot = close;
      expiry_slot = expiry;
      threshold = threshold;
      total = total;
      yes_total = yes_total;
      statement = statement;
      oracle_nonce = nonce;
      receipt_key = receipt;
      receipt_commitment = commitment;
      nonce_read = nonce_is_read e;
    }

fetched-ArePlain : (es : List FastEvent) → ArePlain unary (map fetch_event es)
fetched-ArePlain [] = tt
fetched-ArePlain (e ∷ es) = (fetched-IsPlain e, fetched-ArePlain es)

no_file : OperatorState
no_file = load_operator_state none

abbrev synced : OperatorState
synced = next_state unary "zkapp" raw_events no_file no_file

sync_accepts_contract_example :
    sync unary concrete false
      (read (unary.to_string out5.state.markets_root))
      (read (unary.to_string out5.state.receipts_root))
      synced
    ≡ record { saved = some synced; fails = false }
sync_accepts_contract_example =
    sync_accepts_contract concrete concrete-IsLawful unary unary-IsLawfulText fetch_event
      fetch_event-IsFetch false "zkapp" no_file no_file all_events out5.state raw_events trace5
      extracts_all

abbrev served : OperatorState
served = build_authoritative_state unary no_file raw_events "zkapp"

authoritative_state_has_roots_example :
    HasRoot concrete (build_markets_merkle_map unary concrete served) out5.state.markets_root
    × HasRoot concrete (build_receipts_merkle_map unary concrete served) out5.state.receipts_root
    × HasRoot concrete
        (build_claimed_receipts_merkle_map unary concrete served)
        out5.state.claimed_receipts_root
authoritative_state_has_roots_example =
    authoritative_state_has_roots concrete concrete-IsLawful unary unary-IsLawfulText fetch_event
      fetch_event-IsFetch no_file raw_events "zkapp" all_events out5.state trace5 extracts_all
      (subst (ArePlain unary) (sym extracts_all) (fetched-ArePlain all_events))
