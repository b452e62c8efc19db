-- ===== src/Server/Positions.antt =====
-- src/marketplace-server.ts, lines 245 to 266 and 2633 to 2718: the resolved positions and receipts of a
-- wallet, as they are shown. The state and the derived outcomes are those after
-- `reconcileSubmittedPayoutClaims`. The order of dates, as texts, is a parameter.
pub mod Rows
pub mod Checks
pub mod Shown
mod Tests
use perfect_weather_predicti.Prelude.{
  ℕ, zero, suc, Bool, true, false, not, ◌&&◌, ◌||◌, Option, none, some, List, [], ◌∷◌, ◌++◌, String,
  str_eq, Dict, lookup, Nullish, undefined, null, value, if◌then◌else◌, ◌>>=◌,
}
use perfect_weather_predicti.Prelude.Sorting.{sort_by}
use perfect_weather_predicti.O1js.{NumberText}
use perfect_weather_predicti.MarketTypes.{MarketLeaf}
use perfect_weather_predicti.Payout.{payout_nanomina_for_stake}
use perfect_weather_predicti.Contract.{PositionLeaf}
use perfect_weather_predicti.StateStore.{
  StoredMarketLeaf, StoredPositionLeaf, StoredReceiptMeta, StoredPositionMeta, OperatorState,
  ClaimStatus, Side, over, under, deserialize_market_leaf, deserialize_position_leaf,
}
use perfect_weather_predicti.Server.Receipts.{
  eq_claim_status, side_of, get_effective_resolved_market_state,
}
use perfect_weather_predicti.Server.ClaimContext.{eq_side}
use perfect_weather_predicti.Server.Finalize.{truthy, meta_matches_current_zkapp}

pub record ResolvedWalletPosition : Type 0 where
  pub position_key : String
  pub market_key : String
  pub market_date : Option String
  pub side : Side
  pub stake_tmina : ℕ
  pub total_pot_tmina : ℕ
  pub payout_tmina : ℕ
  pub resolved_outcome : Side
  pub won : Bool
  pub claimed : Bool
  pub claim_status : ClaimStatus
  pub claim_tx_hash : Option String
  pub claim_submitted_at_unix_ms : Option ℕ
  pub claim_confirmed_at_unix_ms : Option ℕ

-- `v || null`
abbrev text_or_null : Nullish String → Option String
text_or_null (value t) = truthy (some t)
text_or_null null = none
text_or_null undefined = none

abbrev time_or_null : Nullish ℕ → Option ℕ
time_or_null (value zero) = none
time_or_null (value (suc n)) = some (suc n)
time_or_null null = none
time_or_null undefined = none

-- `won ? payoutNanominaForStake(…) : 0n`
abbrev pub payout_of : (won : Bool) → MarketLeaf → (stake : ℕ) → ℕ
payout_of won leaf stake =
    if won
    then payout_nanomina_for_stake leaf.total_position_bet leaf.total_yes_position_bet leaf.outcome
        stake
    else 0

-- The status of a position's claim.
abbrev pub position_status : (won claimed : Bool) → Nullish ClaimStatus → ClaimStatus
position_status false claimed status = ClaimStatus.not_applicable
position_status true true status = ClaimStatus.confirmed
position_status true false status =
    if eq_claim_status status ClaimStatus.submitted
    then ClaimStatus.submitted
    else ClaimStatus.claimable

-- `won ? (meta.claimStatus || 'claimable') : 'not-applicable'`
abbrev pub receipt_status : (won : Bool) → Nullish ClaimStatus → ClaimStatus
receipt_status false status = ClaimStatus.not_applicable
receipt_status true (value status) = status
receipt_status true null = ClaimStatus.claimable
receipt_status true undefined = ClaimStatus.claimable

-- A market, if it is there, and its outcome, if it is resolved.
abbrev pub Resolved : Type 0
Resolved = MarketLeaf × Side

module _ (x : NumberText) (derived : String → Option Side) (s : OperatorState) where
  -- `none` is a leaf that cannot be read, which throws; `some none` is an entry that is passed over.
  unfoldable pub resolved_market : String → Option (Option Resolved)
  resolved_market key = elim (lookup key s.markets) [
    | none ↦ some none
    | some stored ↦ do
      leaf ← deserialize_market_leaf x stored
      elim (get_effective_resolved_market_state (some leaf) key derived) [
        | none ↦ some none
        | some outcome ↦ some (some (leaf, outcome))
      ]
  ]

  module _ (wallet owner_commitment : String) where
    abbrev receipt_row : String → StoredReceiptMeta → Resolved → ResolvedWalletPosition
    receipt_row key m (leaf, outcome) =
        let won = eq_side m.side outcome in
        record {
          position_key = key;
          market_key = m.market_key;
          market_date = truthy m.market_date;
          side = m.side;
          stake_tmina = m.stake_tmina;
          total_pot_tmina = leaf.total_position_bet;
          payout_tmina = payout_of won leaf m.stake_tmina;
          resolved_outcome = outcome;
          won = won;
          claimed = eq_claim_status m.claim_status ClaimStatus.confirmed;
          claim_status = receipt_status won m.claim_status;
          claim_tx_hash = text_or_null m.claim_tx_hash;
          claim_submitted_at_unix_ms = time_or_null m.claim_submitted_at_unix_ms;
          claim_confirmed_at_unix_ms = time_or_null m.claim_confirmed_at_unix_ms;
        }

    -- The body of the loop over the receipts.
    unfoldable pub list_receipt :
        String → StoredReceiptMeta → Option (Option ResolvedWalletPosition)
    unfolding resolved_market
    list_receipt key m =
        if str_eq m.wallet_public_key wallet
          && meta_matches_current_zkapp m.zkapp_public_key s.zkapp_public_key
        then (do
          found ← resolved_market m.market_key
          elim found [ none ↦ some none | some r ↦ some (some (receipt_row key m r)) ])
        else some none

    abbrev position_row :
        String
        → PositionLeaf
        → (market_key : String) (market_date : Option String) → Nullish ClaimStatus
        → Nullish String
        → (submitted_at confirmed_at : Nullish ℕ) → Resolved
        → ResolvedWalletPosition
    position_row key p market_key market_date status hash submitted_at confirmed_at
          (leaf, outcome) =
        let side = side_of p.side_over in
        let won = eq_side side outcome in
        record {
          position_key = key;
          market_key = market_key;
          market_date = market_date;
          side = side;
          stake_tmina = p.stake;
          total_pot_tmina = leaf.total_position_bet;
          payout_tmina = payout_of won leaf p.stake;
          resolved_outcome = outcome;
          won = won;
          claimed = p.claimed;
          claim_status = position_status won p.claimed status;
          claim_tx_hash = text_or_null hash;
          claim_submitted_at_unix_ms = time_or_null submitted_at;
          claim_confirmed_at_unix_ms = time_or_null confirmed_at;
        }

    abbrev owns : PositionLeaf → Bool
    owns p = str_eq (x.to_string p.owner_commitment) owner_commitment

    -- A position without an entry.
    abbrev list_bare_position : String → PositionLeaf → Option (Option ResolvedWalletPosition)
    list_bare_position key p =
        if owns p
        then (do
          let market_key = x.to_string p.market_key
          found ← resolved_market market_key
          elim found [
            | none ↦ some none
            | some r ↦ some (
                some (position_row key p market_key none undefined undefined undefined undefined r))
          ])
        else some none

    -- `meta?.marketKey || positionLeaf.marketKey.toString()`
    abbrev market_key_of : StoredPositionMeta → PositionLeaf → String
    market_key_of m p = if str_eq m.market_key "" then x.to_string p.market_key else m.market_key

    abbrev list_known_position :
        String → StoredPositionMeta → PositionLeaf → Option (Option ResolvedWalletPosition)
    list_known_position key m p =
        if str_eq m.wallet_public_key wallet || owns p
        then (do
          found ← resolved_market (market_key_of m p)
          elim found [
            | none ↦ some none
            | some r ↦ some (
                some (
                  position_row key p (market_key_of m p) (truthy m.market_date) m.claim_status
                    m.claim_tx_hash m.claim_submitted_at_unix_ms m.claim_confirmed_at_unix_ms r))
          ])
        else some none

    -- The body of the loop over the positions.
    unfoldable pub list_position :
        String → StoredPositionLeaf → Option (Option ResolvedWalletPosition)
    unfolding resolved_market
    list_position key stored = elim (lookup key s.position_meta) [
      | none ↦ do p ← deserialize_position_leaf x stored; list_bare_position key p
      | some m ↦
          if meta_matches_current_zkapp m.zkapp_public_key s.zkapp_public_key
          then (do p ← deserialize_position_leaf x stored; list_known_position key m p)
          else some none
    ]

-- `for (const [key, v] of Object.entries(d)) …`, where the body may add a row.
unfoldable pub rows_of :
    {V : Type 0}
    → (String → V → Option (Option ResolvedWalletPosition))
    → Dict V
    → Option (List ResolvedWalletPosition)
rows_of body [] = some []
rows_of body ((key, v) ∷ d) =
    let rest = rows_of body d in
    do row ← body key v; rows ← rest; some (elim row [ none ↦ rows | some r ↦ r ∷ rows ])

-- `a.marketDate || ''`
abbrev date_of : ResolvedWalletPosition → String
date_of r = elim r.market_date [ none ↦ "" | some date ↦ date ]

module _ (less : String → String → Bool) where
  -- The latest dates stand first.
  abbrev pub by_date : ResolvedWalletPosition → ResolvedWalletPosition → Bool
  by_date a b = less (date_of b) (date_of a)

  -- `listResolvedWalletPositions`
  unfoldable pub list_resolved_wallet_positions :
      NumberText
      → (derived : String → Option Side) → (wallet owner_commitment : String) → OperatorState
      → Option (List ResolvedWalletPosition)
  unfolding rows_of
  list_resolved_wallet_positions x derived wallet owner s = do
    positions ← rows_of (list_position x derived s wallet owner) s.positions
    receipts ← rows_of (list_receipt x derived s wallet owner) s.receipt_meta
    some (sort_by by_date (positions ++ receipts))
