-- ===== src/Execution/Risk/Exposure.antt =====
-- execution/risk.py: what the exposure check counts.
use poly_market_prediction_b.Base.{
  ℕ, ◌+◌, ◌≤◌, String, true, ◌≡◌, List, [], ◌∷◌, ◌==◌, string_eq, ◌&&◌, length, select, arith,
}
use poly_market_prediction_b.Core.Types.{RiskConfig, is_yes, is_no}
use poly_market_prediction_b.Number.{Number}
use poly_market_prediction_b.Storage.{Database, Trade, is_open}
use poly_market_prediction_b.Storage.Trades.{count_open_by_direction}
use poly_market_prediction_b.Execution.Risk.{check_correlation}

module _ {F : Type 0} ⦃num : Number F⦄ where
  directions-le :
      (ts : List (Trade F))
      → length (select (λ t. is_yes t.signal) ts) + length (select (λ t. is_no t.signal) ts)
        ≤ length ts
  directions-le [] = omega arith
  directions-le (t ∷ ts) = ground (arith, directions-le ts)

  -- With at most two open trades on an asset the check allows the next one, whatever the limit of
  -- trades in the same direction is.
  pub check_correlation_few :
      (cfg : RiskConfig F) (now : ℕ) (asset : String) (db : Database F)
      → length (select (λ (t : Trade F). t.asset == asset && is_open t) db.trades) ≤ 2
      → check_correlation cfg now asset db ≡ (true, db)
  unfolding check_correlation count_open_by_direction
  check_correlation_few cfg now asset db h =
      ground
        (arith, directions-le (select (λ (t : Trade F). t.asset == asset && is_open t) db.trades))
