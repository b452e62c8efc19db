-- ===== src/Replay/Events.antt =====
-- How the events of the fast contract are fetched, and what its methods emit.
use perfect_weather_predicti.Prelude.{
  ℕ, ◌≡◌, Bool, some, List, [], ◌∷◌, arith, ◌==◌, Option-cases, inl, inr,
}
use perfect_weather_predicti.O1js.{O1js, NumberText}
use perfect_weather_predicti.MarketTypes.{MarketLeaf, WeatherOracleStatement}
use perfect_weather_predicti.Transaction.{
  MarketSnapshotEvent, MarketResolvedEvent, snapshot_event, resolved_event,
}
use perfect_weather_predicti.Payout.{payout_nanomina}
use perfect_weather_predicti.StateStore.Roundtrip.{IsRanged}
use perfect_weather_predicti.FastContract.{
  FastState, FastEvent, market_created, market_updated, market_resolved, receipt_committed,
  receipt_claimed, ReceiptClaimedEvent, FastOutcome, create_market, place_receipt_bet,
  resolve_weather_market, claim_receipt_payout, configure_oracle_policy,
}
use perfect_weather_predicti.Transaction.{ReceiptCommittedEvent}
use perfect_weather_predicti.Replay.{ParsedEvent, object, missing}
use perfect_weather_predicti.Replay.Steps.{Holds}

-- What `fetchEvents` of o1js promises: an event has the name under which it was emitted, and its
-- data has the emitted values, which print as `toString` does.
pub record IsFetch (x : NumberText) (fetched : FastEvent → ParsedEvent) : Type 0 where
  pub created_type :
      (e : MarketSnapshotEvent) → (fetched (market_created e)).event_type ≡ "marketCreated"
  pub created_data :
      (key : ℕ) (m : MarketLeaf)
      → Holds x (fetched (market_created (snapshot_event key m))) key m missing
  pub updated_type :
      (e : MarketSnapshotEvent) → (fetched (market_updated e)).event_type ≡ "marketUpdated"
  pub updated_data :
      (key : ℕ) (m : MarketLeaf)
      → Holds x (fetched (market_updated (snapshot_event key m))) key m missing
  pub resolved_type :
      (e : MarketResolvedEvent) → (fetched (market_resolved e)).event_type ≡ "marketResolved"
  pub resolved_data :
      (key : ℕ) (m : MarketLeaf) (nonce : ℕ)
      → Holds x
          (fetched (market_resolved (resolved_event key m nonce)))
          key
          m
          (object (x.to_string nonce))
  pub committed_type :
      (e : ReceiptCommittedEvent) → (fetched (receipt_committed e)).event_type ≡ "receiptCommitted"
  pub committed_key :
      (e : ReceiptCommittedEvent)
      → (fetched (receipt_committed e)).event_data "receiptKey" ≡ object (x.to_string e.receipt_key)
  pub committed_value :
      (e : ReceiptCommittedEvent)
      → (fetched (receipt_committed e)).event_data "receiptCommitment"
        ≡ object (x.to_string e.receipt_commitment)
  pub claimed_type :
      (e : ReceiptClaimedEvent) → (fetched (receipt_claimed e)).event_type ≡ "receiptClaimed"
  pub claimed_key :
      (e : ReceiptClaimedEvent)
      → (fetched (receipt_claimed e)).event_data "receiptKey" ≡ object (x.to_string e.receipt_key)

abbrev snapshot_leaf : MarketSnapshotEvent → MarketLeaf
snapshot_leaf e = record {
  config_hash = e.config_hash;
  close_slot = e.close_slot;
  expiry_slot = e.expiry_slot;
  threshold_value_tenth_c = e.threshold_value_tenth_c;
  total_position_bet = e.total_position_bet;
  total_yes_position_bet = e.total_yes_position_bet;
  resolved = e.resolved;
  outcome = e.outcome;
  oracle_statement_hash = e.oracle_statement_hash;
}

abbrev resolved_leaf : MarketResolvedEvent → MarketLeaf
resolved_leaf e = record {
  config_hash = e.config_hash;
  close_slot = e.close_slot;
  expiry_slot = e.expiry_slot;
  threshold_value_tenth_c = e.threshold_value_tenth_c;
  total_position_bet = e.total_position_bet;
  total_yes_position_bet = e.total_yes_position_bet;
  resolved = e.resolved;
  outcome = e.outcome;
  oracle_statement_hash = e.oracle_statement_hash;
}

-- The `UInt64` values of the event are in range, as those of a leaf are.
abbrev pub IsRangedEvent : FastEvent → Type 0
IsRangedEvent (market_created e) = IsRanged (snapshot_leaf e)
IsRangedEvent (market_updated e) = IsRanged (snapshot_leaf e)
IsRangedEvent (market_resolved e) = IsRanged (resolved_leaf e)
IsRangedEvent (receipt_committed e) = Unit {0}
IsRangedEvent (receipt_claimed e) = Unit {0}

abbrev pub AreRanged : List FastEvent → Type 0
AreRanged [] = Unit {0}
AreRanged (e ∷ es) = IsRangedEvent e × AreRanged es

module _ (o : O1js) where
  open o use {PublicKey, MerkleMapWitness}

  pub configure_oracle_policy-events :
      (signed : Bool) (source path : ℕ) (s : FastState) (out : FastOutcome o)
      → configure_oracle_policy o signed source path s ≡ some out
      → out.events ≡ []
  unfolding configure_oracle_policy
  configure_oracle_policy-events signed source path s out h = ground arith

  pub create_market-events :
      (key : ℕ) (m : MarketLeaf) (w : MerkleMapWitness) (s : FastState) (out : FastOutcome o)
      → create_market o key m w s ≡ some out
      → out.events ≡ market_created (snapshot_event key m) ∷ []
  unfolding create_market
  create_market-events key m w s out h = ground arith

  pub place_receipt_bet-events :
      (key : ℕ) (old new : MarketLeaf) (w : MerkleMapWitness) (receipt commitment : ℕ)
      → (receipt_witness : MerkleMapWitness) (owner : ℕ) (s : FastState) (out : FastOutcome o)
      → place_receipt_bet o key old new w receipt commitment receipt_witness owner s ≡ some out
      → out.events
        ≡ market_updated (snapshot_event key new)
          ∷ receipt_committed (record {
            receipt_key = receipt;
            market_key = key;
            owner_commitment = owner;
            receipt_commitment = commitment;
          })
          ∷ []
  unfolding place_receipt_bet
  place_receipt_bet-events key old new w receipt commitment receipt_witness owner s out h =
      ground arith

  pub resolve_weather_market-events :
      (key : ℕ) (old new : MarketLeaf) (w : MerkleMapWitness) (oracle : WeatherOracleStatement)
      → (nonce_witness : MerkleMapWitness) (s : FastState) (out : FastOutcome o)
      → resolve_weather_market o key old new w oracle nonce_witness s ≡ some out
      → out.events ≡ market_resolved (resolved_event key new oracle.nonce) ∷ []
  unfolding resolve_weather_market
  resolve_weather_market-events key old new w oracle nonce_witness s out h = ground arith

  pub claim_receipt_payout-events :
      (key : ℕ) (m : MarketLeaf) (w : MerkleMapWitness) (receipt commitment : ℕ)
      → (receipt_witness claimed_witness : MerkleMapWitness) (claimant : PublicKey)
      → (total_bet yes_bet owner salt : ℕ) (s : FastState) (out : FastOutcome o)
      → claim_receipt_payout o key m w receipt commitment receipt_witness claimed_witness claimant
          total_bet yes_bet owner salt s
        ≡ some out
      → (amount : ℕ) × (out.events
          ≡ receipt_claimed (record {
            receipt_key = receipt;
            market_key = key;
            owner_commitment = owner;
            amount = amount;
          })
            ∷ [])
  unfolding claim_receipt_payout
  claim_receipt_payout-events key m w receipt commitment receipt_witness claimed_witness claimant
        total_bet yes_bet owner salt s out h =
      elim (Option-cases (payout_nanomina o (yes_bet == total_bet) m total_bet)) [
        | inl no_payout ↦ absurd (ground arith)
        | inr (amount, e) ↦ (amount, ground arith)
      ]
