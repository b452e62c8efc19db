-- ===== src/Payout.antt =====
-- The payout of a winning stake, as `claimPayout` (src/contract.ts) and `claimReceiptPayout`
-- (src/fast-contract.ts) compute it alike in `UInt64`, and as the server computes it in `bigint`
-- (src/marketplace-server.ts).
mod Division
pub mod Bounds
pub mod Solvency
mod Tests
use perfect_weather_predicti.Prelude.{
  ℕ, zero, suc, ◌*◌, ◌/◌, Bool, Option, some, ltb, if◌then◌else◌, assert, ◌>>=◌, ◌>>◌, ℤ, pos,
  negsuc, sub_ℕ,
}
use perfect_weather_predicti.O1js.{O1js}
use perfect_weather_predicti.MarketTypes.{MarketLeaf}

abbrev pub nanomina_per_tmina : ℕ
nanomina_per_tmina = 1_000_000_000

module _ (o : O1js) where
  -- `Provable.if` computes both branches, so the range check of `sub` is made on either side.
  unfoldable pub winning_pool : Bool → MarketLeaf → Option ℕ
  winning_pool side_over m = do
    losers ← o.sub m.total_position_bet m.total_yes_position_bet
    some (if side_over then m.total_yes_position_bet else losers)

  unfoldable pub payout_tmina : Bool → MarketLeaf → ℕ → Option ℕ
  payout_tmina side_over m stake = do
    assert (ltb 0 m.total_position_bet)
    pool ← winning_pool side_over m
    assert (ltb 0 pool)
    product ← o.mul m.total_position_bet stake
    payout ← o.div product pool
    assert (ltb 0 payout)
    some payout

  unfoldable pub payout_nanomina : Bool → MarketLeaf → ℕ → Option ℕ
  payout_nanomina side_over m stake = do
    payout ← payout_tmina side_over m stake
    o.mul payout nanomina_per_tmina

-- `winningPoolNanomina` of the server: a `bigint` that may be negative.
unfoldable pub winning_pool_nanomina : ℕ → ℕ → Bool → ℤ
winning_pool_nanomina total yes_bet outcome_over =
    if outcome_over then pos yes_bet else sub_ℕ total yes_bet

-- `if (pool <= 0n) return 0n; return product / pool`
abbrev pub share_of : ℕ → ℤ → ℕ
share_of product (pos zero) = 0
share_of product (pos (suc n)) = product / suc n
share_of product (negsuc _) = 0

-- `payoutNanominaForStake` of the server, on the amounts of market leaves and stakes, which are not
-- negative.
unfoldable pub payout_nanomina_for_stake : ℕ → ℕ → Bool → ℕ → ℕ
unfolding winning_pool_nanomina
payout_nanomina_for_stake total yes_bet outcome_over stake =
    share_of (total * stake) (winning_pool_nanomina total yes_bet outcome_over)
