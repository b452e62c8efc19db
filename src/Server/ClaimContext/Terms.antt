-- ===== src/Server/ClaimContext/Terms.antt =====
-- The terms of a claim that the server builds (src/marketplace-server.ts, lines 3133 to 3164): the
-- entry of its receipt, and its amounts.
use perfect_weather_predicti.Prelude.{
  ℕ, ◌*◌, ◌≤◌, ◌<◌, ◌≡◌, ◌≢◌, ◌⊎◌, inl, inr, refl, Bool, true, false, some, eq_iff, value, arith,
  ◌==◌,
}
use perfect_weather_predicti.O1js.{uint64_mod}
use perfect_weather_predicti.MarketTypes.{MarketLeaf}
use perfect_weather_predicti.Payout.{nanomina_per_tmina}
use perfect_weather_predicti.StateStore.{StoredReceiptMeta, ClaimStatus, Side, over, under}
use perfect_weather_predicti.Server.Receipts.{side_of}
use perfect_weather_predicti.Server.ClaimContext.{ClaimParams, yes_bet_of, assert_claimable}

-- The receipt's entry in the operator's state: it is of the market and of the wallet, on the side that
-- has won, with a salt, and no claim of it is under way.
pub record IsClaimable (p : ClaimParams) (m : StoredReceiptMeta) (leaf : MarketLeaf) : Type 0 where
  pub of_wallet : m.wallet_public_key ≡ p.fee_payer_public_key
  pub of_market : m.market_key ≡ p.market_key
  pub resolved : leaf.resolved ≡ true
  pub won : m.side ≡ side_of leaf.outcome
  pub not_submitted : m.claim_status ≢ value ClaimStatus.submitted
  pub not_confirmed : m.claim_status ≢ value ClaimStatus.confirmed
  pub salted : m.receipt_salt ≢ ""

-- The amounts: the payout that the server shows is positive, and the products fit 64 bits.
pub record FitsPayout (leaf : MarketLeaf) (stake payout : ℕ) : Type 0 where
  pub yes_within : leaf.total_yes_position_bet ≤ leaf.total_position_bet
  pub stake_pos : 0 < stake
  pub stake_fits : stake < uint64_mod
  pub product_fits : leaf.total_position_bet * stake < uint64_mod
  pub payout_pos : 0 < payout
  pub amount_fits : payout * nanomina_per_tmina < uint64_mod

pub claimable_passes :
    (p : ClaimParams) (m : StoredReceiptMeta) (leaf : MarketLeaf)
    → IsClaimable p m leaf
    → assert_claimable p m (side_of leaf.outcome) ≡ some tt
unfolding assert_claimable
claimable_passes p m leaf c =
    ground (arith, c.won, c.not_submitted, c.not_confirmed, c.salted, eq_iff m.receipt_salt "")

pub one_sided :
    (side : Side) (stake : ℕ) → (yes_bet_of side stake ≡ stake) ⊎ (yes_bet_of side stake ≡ 0)
one_sided over stake = inl refl
one_sided under stake = inr refl

pub side_is_outcome :
    (side : Side) (stake : ℕ) (outcome : Bool)
    → 0 < stake
    → side ≡ side_of outcome
    → (yes_bet_of side stake == stake) ≡ outcome
side_is_outcome over stake true positive e = ground arith
side_is_outcome under stake false positive e = ground arith
side_is_outcome over stake false positive e = ground arith
side_is_outcome under stake true positive e = ground arith
