-- ===== src/Strategies/Regime/Confidence.antt =====
-- strategies/regime.py: what a classification says.
use poly_market_prediction_b.Base.{List, arith}
use poly_market_prediction_b.Number.{Number, zero_f, one_f, of_ℕ, fmin, fmax}
use poly_market_prediction_b.Number.Order.{
  ◌≼◌, IsOrdered, IsRounded, le_of_lt, le_refl, le-fmin, le-fmax_left, fmin-le_left,
}
use poly_market_prediction_b.Strategies.Regime.{
  RegimeNumpy, classify, compute_adx, compute_bb_width, compute_ema_slope, compute_bb_width_median,
  determine_regime, adx_period, bb_period, slope_lookback,
}

module _ {F : Type 0} ⦃num : Number F⦄ (laws : IsOrdered F) (rounded : IsRounded F) where
  clamped :
      (x : F)
      → (zero_f ≼ num.round 4 (fmin one_f (fmax zero_f x)))
        × (num.round 4 (fmin one_f (fmax zero_f x)) ≼ one_f)
  clamped x =
      let c = fmin one_f (fmax zero_f x) in
      let low =
        le-fmin laws one_f (fmax zero_f x) zero_f (le_of_lt laws _ _ laws.zero-lt-one)
          (le-fmax_left laws zero_f x) in
      let high = fmin-le_left laws one_f (fmax zero_f x) in
      (
        rw (rounded.round_whole 0) at (rounded.round_mono 4 zero_f c low),
        rw (rounded.round_whole 1) at (rounded.round_mono 4 c one_f high),
      )

  -- The confidence of a classification is in [0, 1], whatever the prices and numpy's answers are.
  pub classify_confidence :
      (np : RegimeNumpy F) (prices : List F)
      → (zero_f ≼ (classify np prices).confidence) × ((classify np prices).confidence ≼ one_f)
  unfolding classify
  classify_confidence np prices =
      let adx = compute_adx np adx_period prices in
      let bb_width = compute_bb_width np bb_period (of_ℕ 2) prices in
      let slope = compute_ema_slope np bb_period slope_lookback prices in
      let median = compute_bb_width_median np bb_period (of_ℕ 2) prices in
      ground (
        arith,
        clamped (determine_regime adx bb_width median slope).1,
        le_refl laws zero_f,
        le_of_lt laws zero_f one_f laws.zero-lt-one,
      )
