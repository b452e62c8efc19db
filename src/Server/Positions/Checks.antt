-- ===== src/Server/Positions/Checks.antt =====
-- What the rows of `listResolvedWalletPositions` show of a position or a receipt, and the checks of a
-- claim (src/marketplace-server.ts, lines 2633 to 2718 and 3139 to 3164).
use perfect_weather_predicti.Prelude.{
  ℕ, lookup, none, if◌then◌else◌, str_eq, ◌≡◌, ◌≢◌, ◌⊎◌, true, false, Option, some, String,
}
use perfect_weather_predicti.O1js.{NumberText}
use perfect_weather_predicti.MarketTypes.{MarketLeaf}
use perfect_weather_predicti.Payout.{payout_nanomina_for_stake}
use perfect_weather_predicti.StateStore.{
  StoredPositionLeaf, StoredPositionMeta, StoredReceiptMeta, OperatorState, ClaimStatus, Side,
  deserialize_position_leaf,
}
use perfect_weather_predicti.Server.Receipts.{eq_claim_status, side_of}
use perfect_weather_predicti.Server.Finalize.{meta_matches_current_zkapp}
use perfect_weather_predicti.Contract.{PositionLeaf}
use perfect_weather_predicti.Server.ClaimContext.{eq_side}
use perfect_weather_predicti.Server.Positions.{ResolvedWalletPosition, resolved_market}
use perfect_weather_predicti.Server.Positions.Rows.{Has}

module _ (x : NumberText) (derived : String → Option Side) (s : OperatorState)
    (wallet owner_commitment : String) where
  -- The checks of a claim on the receipt that a row shows, and its payout.
  abbrev pub PassesChecks : StoredReceiptMeta → ResolvedWalletPosition → Type 0
  PassesChecks m r =
      (m.wallet_public_key ≡ wallet)
      × (m.market_key ≡ r.market_key)
      × (eq_side m.side r.resolved_outcome ≡ true)
      × (eq_claim_status m.claim_status ClaimStatus.submitted ≡ false)
      × (eq_claim_status m.claim_status ClaimStatus.confirmed ≡ false)
      × ((leaf : MarketLeaf) × (resolved_market x derived s m.market_key
            ≡ some (some (leaf, r.resolved_outcome)))
          × (r.payout_tmina
              ≡ payout_nanomina_for_stake leaf.total_position_bet leaf.total_yes_position_bet
                  leaf.outcome m.stake_tmina))

  -- The market of a row is resolved, and the row shows its outcome, its pot, the side and the stake, that
  -- it has won exactly if its side is the outcome, and the share of the stake if so, and otherwise 0.
  abbrev pub ShowsMarket : Side → (stake : ℕ) → ResolvedWalletPosition → Type 0
  ShowsMarket side stake r =
      (leaf : MarketLeaf) × (resolved_market x derived s r.market_key
        ≡ some (some (leaf, r.resolved_outcome)))
      × (r.total_pot_tmina ≡ leaf.total_position_bet)
      × (r.side ≡ side)
      × (r.stake_tmina ≡ stake)
      × (r.won ≡ eq_side side r.resolved_outcome)
      × (r.payout_tmina ≡ (
          if r.won
          then payout_nanomina_for_stake leaf.total_position_bet leaf.total_yes_position_bet
              leaf.outcome stake
          else 0))

  -- The position is the wallet's: by its entry, or by its owner. An entry is of the current zkApp, and its
  -- market goes before that of the position, where it has one.
  abbrev pub IsOwnPosition : (key : String) → PositionLeaf → (market_key : String) → Type 0
  IsOwnPosition key p market_key =
      ((lookup key s.position_meta ≡ none)
        × (x.to_string p.owner_commitment ≡ owner_commitment)
        × (market_key ≡ x.to_string p.market_key))
      ⊎ ((m : StoredPositionMeta) × (lookup key s.position_meta ≡ some m)
          × (meta_matches_current_zkapp m.zkapp_public_key s.zkapp_public_key ≡ true)
          × ((m.wallet_public_key ≡ wallet) ⊎ (x.to_string p.owner_commitment ≡ owner_commitment))
          × (market_key
              ≡ (if str_eq m.market_key "" then x.to_string p.market_key else m.market_key)))

  abbrev pub ShowsPosition : StoredPositionLeaf → ResolvedWalletPosition → Type 0
  ShowsPosition stored r =
      (p : PositionLeaf) × (deserialize_position_leaf x stored ≡ some p)
      × IsOwnPosition r.position_key p r.market_key
      × ShowsMarket (side_of p.side_over) p.stake r
      × (r.claimed ≡ p.claimed)
      × ((r.claim_status ≢ ClaimStatus.claimable) ⊎ ((r.won ≡ true) × (p.claimed ≡ false)))

  abbrev pub ShowsReceipt : StoredReceiptMeta → ResolvedWalletPosition → Type 0
  ShowsReceipt m r =
      (m.wallet_public_key ≡ wallet)
      × (meta_matches_current_zkapp m.zkapp_public_key s.zkapp_public_key ≡ true)
      × (r.market_key ≡ m.market_key)
      × ShowsMarket m.side m.stake_tmina r
      × (r.claimed ≡ eq_claim_status m.claim_status ClaimStatus.confirmed)
      × ((r.claim_status ≢ ClaimStatus.claimable) ⊎ PassesChecks m r)

  -- A row shows a position of the state, or a receipt of it.
  abbrev pub IsShownRight : ResolvedWalletPosition → Type 0
  IsShownRight r =
      ((stored : StoredPositionLeaf) × Has r.position_key stored s.positions
        × ShowsPosition stored r)
      ⊎ ((m : StoredReceiptMeta) × Has r.position_key m s.receipt_meta × ShowsReceipt m r)
