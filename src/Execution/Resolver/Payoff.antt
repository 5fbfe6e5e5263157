-- ===== src/Execution/Resolver/Payoff.antt =====
-- execution/resolver.py: who wins, and how much.
use poly_market_prediction_b.Base.{String, ◌==◌, not, ◌≡◌, string_eq, if◌then◌else◌, arith}
use poly_market_prediction_b.Core.Types.{Signal, Outcome, is_yes}
use poly_market_prediction_b.Number.{Number, zero_f, one_f}
use poly_market_prediction_b.Number.Order.{◌≼◌, IsOrdered, IsRounded}
use poly_market_prediction_b.Execution.Resolver.{bet_won, calculate_pnl}

-- Of two opposite bets on one market, exactly one wins, whatever text the resolution is.
pub bet_won_opposite :
    (resolution : String)
    → bet_won Signal.buy_yes resolution ≡ not (bet_won Signal.buy_no resolution)
unfolding bet_won
bet_won_opposite resolution = ground arith

module _ {F : Type 0} ⦃num : Number F⦄ where
  open num use {add, sub, mul, neg}

  -- What a bet pays: a bet on the side that wins, which is yes for "1" and no for any other text, gains
  -- the difference between one and the price for each share, less the fee; any other loses its cost.
  abbrev pub payoff : F → Signal → F → F → String → Outcome × F
  payoff fee signal price size resolution =
      let gross = mul (sub one_f price) size in
      if (if resolution == "1" then is_yes signal else not (is_yes signal))
      then (Outcome.win, sub gross (mul gross fee))
      else (Outcome.loss, mul (neg price) size)

  pub calculate_pnl-payoff :
      (fee : F) (signal : Signal) (price size : F) (resolution : String)
      → calculate_pnl fee signal price size resolution ≡ payoff fee signal price size resolution
  unfolding calculate_pnl bet_won
  calculate_pnl-payoff fee signal price size resolution = ground arith

  module _ (laws : IsOrdered F) (rounded : IsRounded F) where
    -- A loss costs the stake, and a win pays at most the difference between one and the entry price
    -- for each share, where the fee rate and that difference are not negative.
    pub calculate_pnl_bounds :
        (fee : F) (signal : Signal) (price size : F) (resolution : String)
        → zero_f ≼ fee
        → zero_f ≼ size
        → zero_f ≼ sub one_f price
        → let (outcome, pnl) = calculate_pnl fee signal price size resolution in
          if bet_won signal resolution
          then (outcome ≡ Outcome.win) × (pnl ≼ mul (sub one_f price) size)
          else (outcome ≡ Outcome.loss) × (pnl ≡ neg (mul price size))
    unfolding calculate_pnl
    calculate_pnl_bounds fee signal price size resolution h l m =
        let gross = mul (sub one_f price) size in
        ground (
          arith,
          rounded.mul_neg price size,
          rounded.mul_nonneg (sub one_f price) size m l,
          rounded.mul_nonneg gross fee (rounded.mul_nonneg (sub one_f price) size m l) h,
          rounded.sub_le gross (mul gross fee),
        )
