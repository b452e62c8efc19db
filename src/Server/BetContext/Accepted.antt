-- ===== src/Server/BetContext/Accepted.antt =====
-- The bets that the server builds, before the contract (src/marketplace-server.ts, lines 2198 to
-- 2374).
use perfect_weather_predicti.Prelude.{
  ℕ, ◌+◌, ◌*◌, ◌<◌, ◌≡◌, ◌⊎◌, ap, subst, ◌∙◌, false, Option, some, none, String, lookup, arith,
}
use perfect_weather_predicti.O1js.{O1js, IsLawful, NumberText, IsLawfulText, uint64_mod}
use perfect_weather_predicti.MarketTypes.{MarketLeaf}
use perfect_weather_predicti.MarketTypes.Facts.{IsWellFormed}
use perfect_weather_predicti.Payout.{nanomina_per_tmina}
use perfect_weather_predicti.FastContract.{
  FastState, FastOutcome, place_receipt_bet, receipt_commitment_of,
}
use perfect_weather_predicti.FastContract.Ledger.{Ledger}
use perfect_weather_predicti.FastContract.Acceptance.{with_bet, place_receipt_bet_accepts}
use perfect_weather_predicti.StateStore.{
  StoredMarketLeaf, OperatorState, deserialize_market_leaf, serialize_market_leaf,
  serialize_position_leaf, build_markets_merkle_map, build_receipts_merkle_map,
}
use perfect_weather_predicti.StateStore.Roundtrip.{IsRanged, deserialize_market_leaf-serialize}
use perfect_weather_predicti.Replay.Mirror.{Mirrors}
use perfect_weather_predicti.Replay.Built.{
  built_ledger, built-Represents, markets_built, receipts_built, listed_in_built, free_in_built,
}
use perfect_weather_predicti.Server.BetContext.{
  BetParams, BetContext, new_leaf, build_bet_context, build_receipt_bet_tx, add_from, bet_position,
}

new_leaf-eq :
    (old : MarketLeaf) (add_total add_yes : ℕ)
    → old.resolved ≡ false
    → old.outcome ≡ false
    → old.oracle_statement_hash ≡ 0
    → new_leaf old (old.total_position_bet + add_total) (old.total_yes_position_bet + add_yes)
      ≡ with_bet old add_total add_yes
new_leaf-eq old add_total add_yes open_market no_outcome no_statement = ground arith

with_bet-IsRanged :
    (old : MarketLeaf) (add_total add_yes : ℕ)
    → IsRanged old
    → old.total_position_bet + add_total < uint64_mod
    → old.total_yes_position_bet + add_yes < uint64_mod
    → IsRanged (with_bet old add_total add_yes)
unfolding IsRanged
with_bet-IsRanged old add_total add_yes (close, expiry, threshold, total, yes_total) room yes_room =
    (close, expiry, threshold, room, yes_room)

module _ (o : O1js) (l : IsLawful o) (x : NumberText) (tl : IsLawfulText x) where
  open o use {PublicKey, MerkleMap, empty_map, get, get_witness, hash, to_fields}

  module _ (public_key_of : String → Option PublicKey) where
    add_from-some : (a b : ℕ) → a + b < uint64_mod → add_from o x public_key_of a b ≡ some (a + b)
    add_from-some a b room = ground (arith, l.add_lem a b)

    abbrev owner_of : PublicKey → ℕ
    owner_of wallet = hash (to_fields wallet)

    abbrev commitment_of : BetParams → ℕ → PublicKey → ℕ
    commitment_of p key wallet =
        receipt_commitment_of o key p.add_total_bet p.add_yes_bet (owner_of wallet) p.salt_hash

    -- The context that is built.
    abbrev context_of :
        BetParams
        → ℕ
        → MarketLeaf
        → PublicKey
        → (markets receipts : MerkleMap) → BetContext o x public_key_of
    context_of p key old wallet markets receipts = record {
      market_key = p.market_key;
      add_total_bet = p.add_total_bet;
      receipt_key = x.to_string p.position_key;
      receipt_commitment = x.to_string (commitment_of p key wallet);
      owner_commitment = x.to_string (owner_of wallet);
      old_leaf = serialize_market_leaf x old;
      new_leaf = serialize_market_leaf x (with_bet old p.add_total_bet p.add_yes_bet);
      market_witness = get_witness markets key;
      receipt_witness = get_witness receipts p.position_key;
      new_position_leaf =
          serialize_position_leaf x (bet_position o x public_key_of key p (owner_of wallet));
    }

    builds_context :
        (d : OperatorState) (markets receipts : MerkleMap) (p : BetParams) (key : ℕ)
        → (stored : StoredMarketLeaf) (old : MarketLeaf) (wallet : PublicKey)
        → build_markets_merkle_map x o d ≡ some markets
        → build_receipts_merkle_map x o d ≡ some receipts
        → p.market_key ≡ x.to_string key
        → lookup p.market_key d.markets ≡ some stored
        → deserialize_market_leaf x stored ≡ some old
        → IsWellFormed old
        → old.resolved ≡ false
        → (p.add_yes_bet ≡ 0) ⊎ (p.add_yes_bet ≡ p.add_total_bet)
        → old.total_position_bet + p.add_total_bet < uint64_mod
        → lookup (x.to_string p.position_key) d.receipts ≡ none
        → public_key_of p.wallet_public_key ≡ some wallet
        → build_bet_context o x public_key_of p d
          ≡ some (context_of p key old wallet markets receipts)
    unfolding build_bet_context
    builds_context d markets receipts p key stored old wallet markets_built receipts_built named
          found read wf open_market side room free known =
        ground (
          arith,
          ap x.field_of named ∙ tl.field_of-to_string key,
          add_from-some old.total_position_bet p.add_total_bet room,
          add_from-some old.total_yes_position_bet p.add_yes_bet (ground (arith, wf.yes_within)),
          new_leaf-eq old p.add_total_bet p.add_yes_bet open_market
              (wf.no_early_outcome open_market) (wf.no_early_statement open_market),
        )

    builds_tx :
        (s : FastState) (p : BetParams) (key : ℕ) (old : MarketLeaf) (wallet : PublicKey)
        → (markets receipts : MerkleMap) (out : FastOutcome o) → p.market_key ≡ x.to_string key
        → IsRanged old
        → IsRanged (with_bet old p.add_total_bet p.add_yes_bet)
        → p.add_total_bet * nanomina_per_tmina < uint64_mod
        → place_receipt_bet o key old
            (with_bet old p.add_total_bet p.add_yes_bet)
            (get_witness markets key)
            p.position_key
            (commitment_of p key wallet)
            (get_witness receipts p.position_key)
            (owner_of wallet)
            s
          ≡ some out
        → build_receipt_bet_tx o x public_key_of (context_of p key old wallet markets receipts) s
          ≡ some (out, p.add_total_bet * nanomina_per_tmina)
    unfolding build_receipt_bet_tx
    builds_tx s p key old wallet markets receipts out named ranged new_ranged fits accepted =
        ground (
          arith,
          ap x.field_of named ∙ tl.field_of-to_string key,
          tl.field_of-to_string p.position_key,
          tl.field_of-to_string (commitment_of p key wallet),
          tl.field_of-to_string (owner_of wallet),
          deserialize_market_leaf-serialize x tl old ranged,
          deserialize_market_leaf-serialize x tl (with_bet old p.add_total_bet p.add_yes_bet)
              new_ranged,
        )

    -- What the server builds for a bet on an open market that it knows, with the stake on one side,
    -- a free receipt key and amounts that fit 64 bits, is accepted by the contract, and the bettor
    -- sends the contract exactly the stake. The operator's maps are those behind the contract's roots.
    pub built_bet_accepts :
        (s : FastState) (g : Ledger o) (d : OperatorState) (h : Mirrors o l x tl s g d)
        → (p : BetParams) (key : ℕ) (stored : StoredMarketLeaf) (old : MarketLeaf)
        → (wallet : PublicKey) → p.market_key ≡ x.to_string key
        → lookup p.market_key d.markets ≡ some stored
        → deserialize_market_leaf x stored ≡ some old
        → IsWellFormed old
        → IsRanged old
        → old.resolved ≡ false
        → (p.add_yes_bet ≡ 0) ⊎ (p.add_yes_bet ≡ p.add_total_bet)
        → old.total_position_bet + p.add_total_bet < uint64_mod
        → p.add_total_bet * nanomina_per_tmina < uint64_mod
        → lookup (x.to_string p.position_key) d.receipts ≡ none
        → public_key_of p.wallet_public_key ≡ some wallet
        → (c : BetContext o x public_key_of) × (out : FastOutcome o) × (build_bet_context o x
              public_key_of p d
            ≡ some c)
          × (build_receipt_bet_tx o x public_key_of c s
              ≡ some (out, p.add_total_bet * nanomina_per_tmina))
    built_bet_accepts s g d h p key stored old wallet named found read wf ranged open_market side
          room fits free known =
        let new_ranged =
          with_bet-IsRanged old p.add_total_bet p.add_yes_bet ranged room
            (ground (arith, wf.yes_within)) in
        let found' = subst (λ k. lookup k d.markets ≡ some stored) named found in
        let (out, accepted) =
          place_receipt_bet_accepts o l s (built_ledger o l x tl s g d h)
            (built-Represents o l x tl s g d h) key old p.add_total_bet p.add_yes_bet p.position_key
            (commitment_of p key wallet) (owner_of wallet)
            (listed_in_built o l x tl s g d h key stored old found' read) wf open_market
            (ground arith) (free_in_built o l x tl s g d h p.position_key free) in
        let builds =
          builds_context d h.markets.built h.receipts.built p key stored old wallet
            (markets_built o l x tl s g d h) (receipts_built o l x tl s g d h) named found read wf
            open_market side room free known in
        (
          context_of p key old wallet h.markets.built h.receipts.built,
          out,
          builds,
          builds_tx s p key old wallet h.markets.built h.receipts.built out named ranged new_ranged
              fits accepted,
        )
