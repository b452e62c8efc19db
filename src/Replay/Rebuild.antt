-- ===== src/Replay/Rebuild.antt =====
-- The replay of the events of each call of the fast contract (src/recover-state-from-events.ts).
use perfect_weather_predicti.Prelude.{
  ℕ, ◌≡◌, sym, ap, ◌∙◌, subst, Bool, some, none, List, [], map, inl, inr,
}
use perfect_weather_predicti.O1js.{O1js, IsLawful, NumberText, IsLawfulText}
use perfect_weather_predicti.MarketTypes.{MarketLeaf, WeatherOracleStatement, hash_market}
use perfect_weather_predicti.Transaction.{ReceiptCommittedEvent, snapshot_event, resolved_event}
use perfect_weather_predicti.StateStore.{OperatorState, market_value, serialize_market_leaf}
use perfect_weather_predicti.FastContract.{
  FastState, FastEvent, market_created, market_updated, market_resolved, receipt_committed,
  receipt_claimed, FastOutcome, ReceiptClaimedEvent, configure_oracle_policy, create_market,
  place_receipt_bet, resolve_weather_market, claim_receipt_payout,
}
use perfect_weather_predicti.FastContract.Ledger.{Ledger}
use perfect_weather_predicti.FastContract.Simulation.{
  create_market_lem, place_receipt_bet_lem, resolve_weather_market_lem, claim_receipt_payout_lem,
}
use perfect_weather_predicti.FastContract.Calls.{configure-Represents}
use perfect_weather_predicti.Replay.{ParsedEvent, missing, replay}
use perfect_weather_predicti.Replay.Steps.{replayed_market, replayed_committed, replayed_claimed}
use perfect_weather_predicti.Replay.Mirror.{
  Mirrors, Keeps-put, Keeps-nonce, market_value-serialize, reads_one,
}
use perfect_weather_predicti.Replay.Events.{
  IsFetch, AreRanged, configure_oracle_policy-events, create_market-events,
  place_receipt_bet-events, resolve_weather_market-events, claim_receipt_payout-events,
}
use perfect_weather_predicti.Replay.Runs.{replay-one, replay-two, replay-none, no_nonce, read_nonce}

module _ (o : O1js) (l : IsLawful o) (x : NumberText) (tl : IsLawfulText x)
    (fetched : FastEvent → ParsedEvent) (fetch : IsFetch x fetched) where
  open o use {MerkleMapWitness, PublicKey, get_root, set}

  -- After a call, the state after its events is a mirror again.
  abbrev pub Follows : (d : OperatorState) (out : FastOutcome o) → Type 0
  Follows d out =
      (g : Ledger o) × Mirrors o l x tl out.state g (replay x (map fetched out.events) d)

  follows :
      (d d' : OperatorState) (out : FastOutcome o) (g : Ledger o) (es : List FastEvent)
      → out.events ≡ es
      → replay x (map fetched es) d ≡ d'
      → Mirrors o l x tl out.state g d'
      → Follows d out
  follows d d' out g es emitted replayed mirrors = (
    g,
    subst (Mirrors o l x tl out.state g)
        (sym (ap (λ q. replay x (map fetched q) d) emitted ∙ replayed)) mirrors,
  )

  module _ (s : FastState) (g : Ledger o) (d : OperatorState) (out : FastOutcome o)
      (h : Mirrors o l x tl s g d) where
    pub configured-Follows :
        (signed : Bool) (source path : ℕ)
        → configure_oracle_policy o signed source path s ≡ some out
        → Follows d out
    configured-Follows signed source path accepted =
        follows d d out g [] (configure_oracle_policy-events o signed source path s out accepted)
          (replay-none x d)
          (record {
            represents = configure-Represents o l signed source path s g out h.represents accepted;
            markets = h.markets;
            receipts = h.receipts;
            claimed = h.claimed;
            nonces = h.nonces;
          })

    pub created-Follows :
        (key : ℕ) (m : MarketLeaf) (w : MerkleMapWitness)
        → create_market o key m w s ≡ some out
        → AreRanged out.events
        → Follows d out
    created-Follows key m w accepted ranged =
        let emitted = create_market-events o key m w s out accepted in
        let facts = create_market_lem o l s g h.represents key m w out accepted in
        let (in_range, _) = subst AreRanged emitted ranged in
        let e = fetched (market_created (snapshot_event key m)) in
        follows d _ out _ _ emitted
          (replay-one x e d _ (
            replayed_market x tl d e key m missing none
              (inl (fetch.created_type (snapshot_event key m))) (fetch.created_data key m) in_range
              (no_nonce x)))
          (record {
            represents = facts.1;
            markets =
                Keeps-put o l x tl (market_value x o) key (hash_market o m)
                  (serialize_market_leaf x m) d.markets g.markets
                  (market_value-serialize o l x tl m in_range) h.markets;
            receipts = h.receipts;
            claimed = h.claimed;
            nonces = h.nonces;
          })

    pub bet-Follows :
        (key : ℕ) (old new : MarketLeaf) (w : MerkleMapWitness) (receipt commitment : ℕ)
        → (receipt_witness : MerkleMapWitness) (owner : ℕ)
        → place_receipt_bet o key old new w receipt commitment receipt_witness owner s ≡ some out
        → AreRanged out.events
        → Follows d out
    bet-Follows key old new w receipt commitment receipt_witness owner accepted ranged =
        let emitted =
          place_receipt_bet-events o key old new w receipt commitment receipt_witness owner s out
            accepted in
        let facts =
          place_receipt_bet_lem o l s g h.represents key old new w receipt commitment
            receipt_witness owner out accepted in
        let (in_range, _) = subst AreRanged emitted ranged in
        let e = fetched (market_updated (snapshot_event key new)) in
        let c : ReceiptCommittedEvent = record {
          receipt_key = receipt;
          market_key = key;
          owner_commitment = owner;
          receipt_commitment = commitment;
        } in
        let f = fetched (receipt_committed c) in
        follows d _ out _ _ emitted
          (replay-two x e f d _ _
            (replayed_market x tl d e key new missing none
              (inr (inl (fetch.updated_type (snapshot_event key new)))) (fetch.updated_data key new)
              in_range (no_nonce x))
            (replayed_committed x tl _ f receipt commitment (fetch.committed_type c)
              (fetch.committed_key c) (fetch.committed_value c)))
          (record {
            represents = facts.1;
            markets =
                Keeps-put o l x tl (market_value x o) key (hash_market o new)
                  (serialize_market_leaf x new) d.markets g.markets
                  (market_value-serialize o l x tl new in_range) h.markets;
            receipts =
                Keeps-put o l x tl x.field_of receipt commitment (x.to_string commitment) d.receipts
                  g.receipts (tl.field_of-to_string commitment) h.receipts;
            claimed = h.claimed;
            nonces = h.nonces;
          })

    pub resolved-Follows :
        (key : ℕ) (old new : MarketLeaf) (w : MerkleMapWitness) (oracle : WeatherOracleStatement)
        → (nonce_witness : MerkleMapWitness)
        → resolve_weather_market o key old new w oracle nonce_witness s ≡ some out
        → AreRanged out.events
        → Follows d out
    resolved-Follows key old new w oracle nonce_witness accepted ranged =
        let emitted =
          resolve_weather_market-events o key old new w oracle nonce_witness s out accepted in
        let facts =
          resolve_weather_market_lem o l s g h.represents key old new w oracle nonce_witness out
            accepted in
        let (in_range, _) = subst AreRanged emitted ranged in
        let e = fetched (market_resolved (resolved_event key new oracle.nonce)) in
        follows d _ out _ _ emitted
          (replay-one x e d _ (
            replayed_market x tl d e key new _ _
              (inr (inr (fetch.resolved_type (resolved_event key new oracle.nonce))))
              (fetch.resolved_data key new oracle.nonce) in_range (read_nonce x tl oracle.nonce)))
          (record {
            represents = facts.1;
            markets =
                Keeps-put o l x tl (market_value x o) key (hash_market o new)
                  (serialize_market_leaf x new) d.markets g.markets
                  (market_value-serialize o l x tl new in_range) h.markets;
            receipts = h.receipts;
            claimed = h.claimed;
            nonces = Keeps-nonce o l x tl oracle.nonce d.used_nonces g.nonces h.nonces;
          })

    pub claimed-Follows :
        (key : ℕ) (m : MarketLeaf) (w : MerkleMapWitness) (receipt commitment : ℕ)
        → (receipt_witness claimed_witness : MerkleMapWitness) (claimant : PublicKey)
        → (total_bet yes_bet owner salt : ℕ)
        → claim_receipt_payout o key m w receipt commitment receipt_witness claimed_witness claimant
            total_bet yes_bet owner salt s
          ≡ some out
        → Follows d out
    claimed-Follows key m w receipt commitment receipt_witness claimed_witness claimant total_bet
          yes_bet owner salt accepted =
        let (amount, emitted) =
          claim_receipt_payout-events o key m w receipt commitment receipt_witness claimed_witness
            claimant total_bet yes_bet owner salt s out accepted in
        let facts =
          claim_receipt_payout_lem o l s g h.represents key m w receipt commitment receipt_witness
            claimed_witness claimant total_bet yes_bet owner salt out accepted in
        let c : ReceiptClaimedEvent = record {
          receipt_key = receipt;
          market_key = key;
          owner_commitment = owner;
          amount = amount;
        } in
        let e = fetched (receipt_claimed c) in
        follows d _ out _ _ emitted
          (replay-one x e d _
            (replayed_claimed x tl d e receipt (fetch.claimed_type c) (fetch.claimed_key c)))
          (record {
            represents = facts.2;
            markets = h.markets;
            receipts = h.receipts;
            claimed =
                Keeps-put o l x tl x.field_of receipt 1 "1" d.claimed_receipts g.claimed
                  (reads_one o l x tl) h.claimed;
            nonces = h.nonces;
          })
