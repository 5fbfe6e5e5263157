-- ===== src/Backtest/Metrics.antt =====
-- backtest/metrics.py: streaks, equity curves and drawdowns of a list of trades.
pub mod Compute
pub mod Runs
pub mod Drawdown
use poly_market_prediction_b.Base.{
  ℕ, suc, ◌+◌, String, Bool, true, false, not, Option, none, some, List, [], ◌∷◌, ◌++◌, map, length,
  select, ltb, nat_beq, if◌then◌else◌,
}
use poly_market_prediction_b.Number.{Number, zero_f, one_f, of_ℕ, fmax, fabs}
use poly_market_prediction_b.Backtest.Models.{
  ExitOutcome, has_won, SimulatedTrade, PerformanceMetrics,
}

unfoldable pub nat_max : ℕ → ℕ → ℕ
nat_max m n = if ltb m n then n else m

-- The variables of `_consecutive_streaks`.
pub record Streaks : Type 0 where
  pub max_wins : ℕ
  pub max_losses : ℕ
  pub cur_wins : ℕ
  pub cur_losses : ℕ

module _ {F : Type 0} where
  unfoldable pub count_streak : Streaks → SimulatedTrade F → Streaks
  count_streak s t =
      if has_won t.exit_outcome
      then record s {
        cur_wins = s.cur_wins + 1;
        cur_losses = 0;
        max_wins = nat_max s.max_wins (s.cur_wins + 1);
      }
      else record s {
        cur_losses = s.cur_losses + 1;
        cur_wins = 0;
        max_losses = nat_max s.max_losses (s.cur_losses + 1);
      }

  unfoldable pub count_streaks : Streaks → List (SimulatedTrade F) → Streaks
  unfolding count_streak
  count_streaks s [] = s
  count_streaks s (t ∷ ts) = count_streaks (count_streak s t) ts

  unfoldable pub consecutive_streaks : List (SimulatedTrade F) → ℕ × ℕ
  unfolding count_streaks
  consecutive_streaks trades =
      let s =
        count_streaks (record { max_wins = 0; max_losses = 0; cur_wins = 0; cur_losses = 0 })
          trades in
      (s.max_wins, s.max_losses)

module _ {F : Type 0} ⦃num : Number F⦄ where
  open num use {dec, add, sub, mul, div, lt, eq, round}

  -- The equities after each P&L, and `np.maximum.accumulate` after the first peak.
  unfoldable pub running : F → List F → List F
  running equity [] = []
  running equity (pnl ∷ pnls) = add equity pnl ∷ running (add equity pnl) pnls

  unfoldable pub peaks : F → List F → List F
  peaks peak [] = []
  peaks peak (x ∷ xs) = fmax peak x ∷ peaks (fmax peak x) xs

  -- `np.max`, from the first element on.
  unfoldable pub max_of : F → List F → F
  max_of x [] = x
  max_of x (y ∷ ys) = max_of (fmax x y) ys

  -- An operation on two arrays, element by element.
  unfoldable pub zip_with : (F → F → F) → List F → List F → List F
  zip_with op (x ∷ xs) (y ∷ ys) = op x y ∷ zip_with op xs ys
  zip_with op _ _ = []

  unfoldable pub build_equity_curve : List (SimulatedTrade F) → F → List F
  unfolding running
  build_equity_curve trades initial_bankroll =
      initial_bankroll ∷ running initial_bankroll (map (λ (t : SimulatedTrade F). t.pnl) trades)

  -- `np.where(peak > 0, (peak - x) / peak, 0.0)`
  abbrev pub fall : F → F → F
  fall peak x = if lt zero_f peak then div (sub peak x) peak else zero_f

  unfoldable pub max_drawdown : List F → F × F
  unfolding max_of peaks zip_with
  max_drawdown (x ∷ y ∷ more) =
      let peak = peaks x (y ∷ more) in
      (
        max_of (sub x x) (zip_with sub peak (y ∷ more)),
        max_of (fall x x) (zip_with fall peak (y ∷ more)),
      )
  max_drawdown _ = (zero_f, zero_f)

  unfoldable pub build_drawdown_curve : List F → List F
  unfolding peaks zip_with
  build_drawdown_curve [] = []
  build_drawdown_curve (x ∷ more) = map (round 6) (fall x x ∷ zip_with fall (peaks x more) more)
