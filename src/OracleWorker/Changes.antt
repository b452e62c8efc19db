-- ===== src/OracleWorker/Changes.antt =====
-- What the worker sends back, and how the server takes it: `changedKeys` of src/oracle-worker.ts
-- (lines 169 to 177) and the handler of /api/oracle/import-state in src/marketplace-server.ts (lines
-- 2438 to 2462 and 4412 to 4455). The printing of a value by JSON.stringify is a parameter.
pub mod Merged
use perfect_weather_predicti.Prelude.{
  Bool, true, false, ◌&&◌, Option, none, some, [], ◌∷◌, String, str_eq, Dict, lookup, if◌then◌else◌,
}
use perfect_weather_predicti.StateStore.{StoredMarketLeaf, StoredMarketMeta, OperatorState}
use perfect_weather_predicti.Replay.Sync.{spread}
use perfect_weather_predicti.OracleWorker.{DailyMarket}

-- `JSON.stringify(before[key]) !== JSON.stringify(value)`; that of no value is no text.
abbrev pub is_changed : {V : Type 0} → (V → String) → Option V → V → Bool
is_changed json none value = true
is_changed json (some old) value = if str_eq (json old) (json value) then false else true

-- `changedKeys`: the keys of an object are distinct, and so are those of the result.
unfoldable pub changed_keys : {V : Type 0} → (V → String) → (before after : Dict V) → Dict V
changed_keys json before [] = []
changed_keys json before ((key, value) ∷ after) =
    let result = changed_keys json before after in
    if is_changed json (lookup key before) value then (key, value) ∷ result else result

pub record StateImport : Type 0 where
  pub markets : Dict StoredMarketLeaf
  pub market_meta : Dict StoredMarketMeta
  pub used_nonces : Dict String
  pub daily_markets : Dict DailyMarket

abbrev is_empty : {V : Type 0} → Dict V → Bool
is_empty [] = true
is_empty (entry ∷ d) = false

-- How JSON.stringify prints the values of the four maps.
pub record Printers : Type 0 where
  pub of_market : StoredMarketLeaf → String
  pub of_meta : StoredMarketMeta → String
  pub of_text : String → String
  pub of_daily : DailyMarket → String

abbrev pub changes :
    Printers
    → (before after : OperatorState) (daily_before daily_after : Dict DailyMarket) → StateImport
changes json before after daily_before daily_after = record {
  markets = changed_keys json.of_market before.markets after.markets;
  market_meta = changed_keys json.of_meta before.market_meta after.market_meta;
  used_nonces = changed_keys json.of_text before.used_nonces after.used_nonces;
  daily_markets = changed_keys json.of_daily daily_before daily_after;
}

abbrev is_nothing : StateImport → Bool
is_nothing i =
    is_empty i.markets
    && is_empty i.market_meta
    && is_empty i.used_nonces
    && is_empty i.daily_markets

-- What the worker posts, if there is anything.
unfoldable pub export_changes :
    Printers
    → (before after : OperatorState) (daily_before daily_after : Dict DailyMarket)
    → Option StateImport
unfolding changed_keys
export_changes json before after daily_before daily_after =
    let i = changes json before after daily_before daily_after in
    if is_nothing i then none else some i

abbrev merged : {V : Type 0} → (replace_existing : Bool) (existing imported : Dict V) → Dict V
merged replace_existing existing imported =
    if replace_existing then spread [] imported else spread existing imported

-- The state and the daily markets after an import. The daily markets are written only if some come.
unfoldable pub import_state :
    (replace_existing : Bool)
    → StateImport
    → OperatorState
    → Dict DailyMarket
    → OperatorState × Dict DailyMarket
unfolding spread
import_state replace_existing i state daily_markets = (
  record state {
    markets = merged replace_existing state.markets i.markets;
    market_meta = merged replace_existing state.market_meta i.market_meta;
    used_nonces = merged replace_existing state.used_nonces i.used_nonces;
  },
  if is_empty i.daily_markets
      then daily_markets
      else merged replace_existing daily_markets i.daily_markets,
)

-- What the server holds after the worker's request, or without one. The worker does not replace.
unfoldable pub receive_changes :
    Option StateImport → OperatorState → Dict DailyMarket → OperatorState × Dict DailyMarket
unfolding import_state
receive_changes none state daily_markets = (state, daily_markets)
receive_changes (some i) state daily_markets = import_state false i state daily_markets
