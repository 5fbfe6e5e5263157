-- ===== src/Backtest/Engine/Bets.antt =====
-- backtest/engine.py: prices and bets stay in their bounds, and no division is by zero.
use poly_market_prediction_b.Base.{
  true, false, ◌≡◌, some, arith, Option-cases, inl, inr, length, is_some,
}
use poly_market_prediction_b.Number.{Number, zero_f, one_f, of_ℕ}
use poly_market_prediction_b.Number.Order.{◌≼◌, IsOrdered, IsRounded, clamp_bounds, fmin-le_right}
use poly_market_prediction_b.Backtest.Models.{ExitOutcome, BacktestConfig}
use poly_market_prediction_b.Backtest.Engine.{
  Replay, sized_bet, apply_slippage, kelly_bet_size, compute_pnl, bet_of, wins_of,
}

module _ {F : Type 0} ⦃num : Number F⦄ where
  open num use {dec, div, lt, le, eq}

  -- A price between 0.001 and 0.999.
  pub record IsPrice (price : F) : Type 0 where
    pub lower : dec 1 3 ≼ price
    pub upper : price ≼ dec 999 3

  module _ (laws : IsOrdered F) where
    open laws use {dec_mono}

    pub apply_slippage-IsPrice : (price bps : F) → IsPrice (apply_slippage price bps)
    unfolding apply_slippage
    apply_slippage-IsPrice price bps =
        let (l, h) = clamp_bounds laws (dec 1 3) (dec 999 3) _ (dec_mono 1 999 3 (ground arith)) in
        record { lower = l; upper = h }

    pub bet_of-le :
        (config : BacktestConfig F) (s : Replay F) (price bet : F)
        → bet_of config s price ≡ some bet
        → bet ≼ s.bankroll
    unfolding bet_of
    bet_of-le config s price bet h = elim (Option-cases (sized_bet config s price)) [
      | inl e ↦ absurd (ground arith)
      | inr (size, e) ↦ ground (arith, fmin-le_right laws size s.bankroll)
    ]

    price-not-zero : (price : F) → IsPrice price → eq price zero_f ≡ false
    price-not-zero price h = ground (
      arith,
      h.lower,
      laws.zero-lt-mill,
      laws.eq-eq-le price zero_f,
      laws.lt-eq-not-le zero_f (dec 1 3),
      laws.le_trans (dec 1 3) price zero_f,
    )

    price-below-one : (price : F) → IsPrice price → le one_f price ≡ false
    price-below-one price h = ground (
      arith,
      h.upper,
      laws.mills-lt-one,
      laws.lt-eq-not-le (dec 999 3) one_f,
      laws.le_trans one_f price (dec 999 3),
    )

    module _ (rounded : IsRounded F) where
      kelly_bet_size_some :
          (bankroll rate price fraction : F)
          → IsPrice price
          → is_some (kelly_bet_size bankroll rate price fraction) ≡ true
      unfolding kelly_bet_size
      kelly_bet_size_some bankroll rate price fraction h =
          let below = price-below-one price h in
          let apart : eq (num.sub one_f price) zero_f ≡ false =
            ground (arith, rounded.sub_zero one_f price, laws.eq-eq-le one_f price) in
          ground arith

      pub bet_of_some :
          (config : BacktestConfig F) (s : Replay F) (price : F)
          → IsPrice price
          → is_some (bet_of config s price) ≡ true
      unfolding bet_of sized_bet
      bet_of_some config s price h =
          let n = length s.recent_outcomes in
          let rate = div (of_ℕ (wins_of s.recent_outcomes)) (of_ℕ n) in
          ground (arith, kelly_bet_size_some s.bankroll rate price config.kelly_fraction h)

      pub compute_pnl_some :
          (outcome : ExitOutcome) (price bet commission gas : F)
          → IsPrice price
          → is_some (compute_pnl outcome price bet commission gas) ≡ true
      unfolding compute_pnl
      compute_pnl_some outcome price bet commission gas h = ground (arith, price-not-zero price h)
