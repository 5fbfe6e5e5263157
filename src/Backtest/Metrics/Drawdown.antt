-- ===== src/Backtest/Metrics/Drawdown.antt =====
-- backtest/metrics.py and monte_carlo.py: the loop of the Monte Carlo runs against the arrays of the
-- metrics, and what a maximal drawdown is.
use poly_market_prediction_b.Base.{List, [], ◌∷◌, ◌≡◌, refl, All, sym, ap, ◌∙◌, arith}
use poly_market_prediction_b.Number.{Number, zero_f, fmax}
use poly_market_prediction_b.Number.Order.{
  ◌≼◌, IsOrdered, IsRounded, le-fmax_left, le-fmax_right, le_refl,
}
use poly_market_prediction_b.Backtest.Metrics.{running, peaks, max_of, zip_with, max_drawdown}
use poly_market_prediction_b.Backtest.Metrics.Compute.{last_of}
use poly_market_prediction_b.Backtest.MonteCarlo.{Course, walk, walk_step, course}

module _ {F : Type 0} ⦃num : Number F⦄ where
  open num use {add, sub, lt}

  walk_lem :
      (c : Course F) (pnls : List F)
      → (walk c pnls).max_dd
        ≡ max_of c.max_dd
            (zip_with sub (peaks c.peak (running c.equity pnls)) (running c.equity pnls))
  unfolding walk walk_step max_of zip_with peaks running fmax
  walk_lem c [] = refl
  walk_lem c (p ∷ ps) = walk_lem (walk_step p c) ps

  walk_equity :
      (c : Course F) (pnls : List F) (x : F)
      → last_of x (c.equity ∷ running c.equity pnls) ≡ (walk c pnls).equity
  unfolding walk walk_step running last_of
  walk_equity c [] x = refl
  walk_equity c (p ∷ ps) x = walk_equity (walk_step p c) ps x

  -- A Monte Carlo run over some P&L values ends with the last value of the equity curve of the
  -- metrics, and its drawdown is the maximal drawdown of that curve.
  pub walk-max_drawdown :
      IsRounded F
      → (initial pnl : F) (pnls : List F)
      → let curve = initial ∷ running initial (pnl ∷ pnls) in
        let end = walk (course initial) (pnl ∷ pnls) in
        (end.equity ≡ last_of initial curve) × (end.max_dd ≡ (max_drawdown curve).0)
  unfolding max_drawdown running max_of peaks zip_with
  walk-max_drawdown rounded initial pnl pnls = (
    sym (walk_equity (course initial) (pnl ∷ pnls) initial),
    walk_lem (course initial) (pnl ∷ pnls)
        ∙ ap
            (λ z. max_of z (
              zip_with sub (peaks initial (running initial (pnl ∷ pnls)))
                (running initial (pnl ∷ pnls))))
            (sym (rounded.sub_self initial)),
  )

  -- No value of a curve is more than `d` below an earlier one.
  abbrev pub IsDrawdownBound : F → List F → Type 0
  IsDrawdownBound d [] = Unit
  IsDrawdownBound d (x ∷ xs) = All (λ y. sub x y ≼ d) xs × IsDrawdownBound d xs

  module _ (laws : IsOrdered F) where
    le-max_of : (x : F) (xs : List F) → x ≼ max_of x xs
    unfolding max_of
    le-max_of x [] = le_refl laws x
    le-max_of x (y ∷ ys) =
        laws.le_trans x (fmax x y) _ (le-fmax_left laws x y) (le-max_of (fmax x y) ys)

    module _ (rounded : IsRounded F) where
      -- The maximum `m` of the differences from a running peak.
      falls_below :
          (m peak x : F) (xs : List F)
          → x ≼ peak
          → All (λ y. sub x y ≼ max_of m (zip_with sub (peaks peak xs) xs)) xs
      unfolding max_of zip_with peaks
      falls_below m peak x [] h = tt
      falls_below m peak x (y ∷ ys) h =
          let peak' = fmax peak y in
          let up = laws.le_trans x peak peak' h (le-fmax_left laws peak y) in
          let first = rounded.sub_mono x peak' y up in
          let d = sub peak' y in
          (
            laws.le_trans (sub x y) d _ first (
                laws.le_trans d (fmax m d) _ (le-fmax_right laws m d)
                  (le-max_of (fmax m d) (zip_with sub (peaks peak' ys) ys))),
            falls_below (fmax m d) peak' x ys up,
          )

      falls_bound :
          (m peak : F) (xs : List F)
          → IsDrawdownBound (max_of m (zip_with sub (peaks peak xs) xs)) xs
      unfolding max_of zip_with peaks
      falls_bound m peak [] = tt
      falls_bound m peak (y ∷ ys) =
          let peak' = fmax peak y in
          (
            falls_below (fmax m (sub peak' y)) peak' y ys (le-fmax_right laws peak y),
            falls_bound (fmax m (sub peak' y)) peak' ys,
          )

      -- The maximal drawdown of a curve is not negative, and no value of the curve is further below
      -- an earlier one.
      pub max_drawdown-IsDrawdownBound :
          (curve : List F)
          → (zero_f ≼ (max_drawdown curve).0) × IsDrawdownBound (max_drawdown curve).0 curve
      unfolding max_drawdown
      max_drawdown-IsDrawdownBound [] = (le_refl laws zero_f, tt)
      max_drawdown-IsDrawdownBound (x ∷ []) = (le_refl laws zero_f, (tt, tt))
      max_drawdown-IsDrawdownBound (x ∷ y ∷ more) =
          let falls = zip_with sub (peaks x (y ∷ more)) (y ∷ more) in
          let start : zero_f ≼ max_of (sub x x) falls =
            ground (arith, rounded.sub_self x, le-max_of (sub x x) falls) in
          (
            start,
            (
              falls_below (sub x x) x x (y ∷ more) (le_refl laws x),
              falls_bound (sub x x) x (y ∷ more),
            ),
          )
