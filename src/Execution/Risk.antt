-- ===== src/Execution/Risk.antt =====
-- execution/risk.py: drawdown, one-sided exposure and the circuit breaker.
-- A check returns whether the trade is allowed, and the state that it leaves.
pub mod Breaker
pub mod Exposure
use poly_market_prediction_b.Base.{
  ℕ, ◌+◌, ◌*◌, String, Bool, true, false, not, Option, none, some, List, [], ◌∷◌, ◌==◌, string_eq,
  pair_eq, ◌&&◌, if◌then◌else◌, ltb, leb, length, all, select,
}
use mathlib.Core.List.{foldl}
use poly_market_prediction_b.Base.Dict.{Dict, lookup, insert, erase}
use poly_market_prediction_b.Core.Types.{RiskConfig, Outcome, is_loss}
use poly_market_prediction_b.Number.{Number, zero_f, of_ℕ}
use poly_market_prediction_b.Storage.{Database, Bankroll, RiskKind}
use poly_market_prediction_b.Storage.Accounts.{get_bankroll, get_bankroll_peak, get_all_bankrolls}
use poly_market_prediction_b.Storage.Trades.{count_open_by_direction, get_recent_outcomes}
use poly_market_prediction_b.Storage.History.{log_risk_event}

-- `_cb_cooldown`: the time at which a strategy and asset may trade again.
abbrev pub Cooldown : Type 0
Cooldown = Dict (String × String) ℕ

abbrev pub second : ℕ
second = 1_000_000

-- Seconds of a window: `{"BTC": 300, "ETH": 300, "SOL": 900}.get(asset, 300)`.
abbrev pub window_seconds : String → ℕ
window_seconds asset = if asset == "SOL" then 900 else 300

abbrev pub dominant : ℕ × ℕ → ℕ
dominant (yeses, noes) = if ltb yeses noes then noes else yeses

abbrev pub is_losing : Option Outcome → Bool
is_losing o = elim o [ none ↦ false | some r ↦ is_loss r ]

module _ {F : Type 0} ⦃num : Number F⦄ where
  open num use {add, sub, mul, div, lt, le}

  abbrev pub sum_rows : (Bankroll F → F) → List (Bankroll F) → F
  sum_rows f rows = foldl (λ acc r. add acc (f r)) zero_f rows

  -- `(peak - current) / peak`, where the peak is positive.
  abbrev pub drawdown : F → F → F
  drawdown peak current = div (sub peak current) peak

  unfoldable pub exceeds_drawdown : F → F → F → Bool
  exceeds_drawdown limit peak current = lt zero_f peak && le limit (drawdown peak current)

  unfoldable pub check_drawdown :
      RiskConfig F → ℕ → String → String → Database F → Bool × Database F
  check_drawdown cfg now strategy asset db =
      let current = get_bankroll strategy asset db in
      let peak = get_bankroll_peak strategy asset db in
      let rows = select (λ (r : Bankroll F). r.asset == asset) (get_all_bankrolls db) in
      let all_current = sum_rows (λ r. r.current) rows in
      let all_peak = sum_rows (λ r. r.peak) rows in
      if exceeds_drawdown cfg.strategy_drawdown_disable peak current
      then (
        false,
        log_risk_event now RiskKind.drawdown_disable (some strategy) (some asset)
            (drawdown peak current ∷ peak ∷ current ∷ []) db,
      )
      else if exceeds_drawdown cfg.portfolio_drawdown_pause all_peak all_current
      then (
        false,
        log_risk_event now RiskKind.portfolio_drawdown_pause none (some asset)
            (drawdown all_peak all_current ∷ all_peak ∷ all_current ∷ []) db,
      )
      else (true, db)

  -- `dominant / total_open`, where there is an open trade.
  abbrev pub one_sided : ℕ × ℕ → F
  one_sided counts = div (of_ℕ (dominant counts)) (of_ℕ (counts.0 + counts.1))

  unfoldable pub check_correlation : RiskConfig F → ℕ → String → Database F → Bool × Database F
  check_correlation cfg now asset db =
      let counts = count_open_by_direction asset db in
      let total_open = counts.0 + counts.1 in
      if ltb 0 total_open
        && (lt cfg.max_unidirectional_exposure_pct (one_sided counts) && leb 3 total_open)
      then (
        false,
        log_risk_event now RiskKind.correlation_block none (some asset)
            (of_ℕ counts.0 ∷ of_ℕ counts.1 ∷ one_sided counts ∷ []) db,
      )
      else (true, db)

  -- `len(outcomes) >= limit and all(o == "LOSS" for o in outcomes)`
  unfoldable pub is_losing_streak : RiskConfig F → String → String → Database F → Bool
  is_losing_streak cfg strategy asset db =
      let limit = cfg.circuit_breaker_consecutive_losses in
      let outcomes = get_recent_outcomes strategy asset limit db in
      leb limit (length outcomes) && all is_losing outcomes

  abbrev pub cooldown_time : RiskConfig F → String → ℕ
  cooldown_time cfg asset = cfg.circuit_breaker_cooldown_windows * window_seconds asset

  -- The part after the cooldown has been looked at; `now` is the time of the trigger.
  unfoldable pub check_streak :
      RiskConfig F → ℕ → String → String → Cooldown × Database F → Bool × Cooldown × Database F
  check_streak cfg now strategy asset (cooldown, db) =
      if is_losing_streak cfg strategy asset db
      then (
        false,
        insert (strategy, asset) (now + cooldown_time cfg asset * second) cooldown,
        log_risk_event now RiskKind.circuit_breaker (some strategy) (some asset)
            (of_ℕ cfg.circuit_breaker_consecutive_losses ∷ of_ℕ (cooldown_time cfg asset) ∷ []) db,
      )
      else (true, cooldown, db)

  -- The clock is read twice: at the comparison, and at the trigger.
  unfoldable pub check_circuit_breaker :
      RiskConfig F → ℕ → ℕ → String → String → Cooldown × Database F → Bool × Cooldown × Database F
  unfolding check_streak
  check_circuit_breaker cfg now trigger_at strategy asset (cooldown, db) =
      elim (lookup (strategy, asset) cooldown) [
        | none ↦ check_streak cfg trigger_at strategy asset (cooldown, db)
        | some resume_ts ↦
            if ltb now resume_ts
            then (false, cooldown, db)
            else check_streak cfg trigger_at strategy asset (erase (strategy, asset) cooldown, db)
      ]

  unfoldable pub check_all :
      RiskConfig F → ℕ → ℕ → String → String → Cooldown × Database F → Bool × Cooldown × Database F
  check_all cfg now trigger_at strategy asset (cooldown, db) =
      let (calm, db') = check_drawdown cfg now strategy asset db in
      let (mixed, db'') = check_correlation cfg now asset db' in
      if not calm
      then (false, cooldown, db')
      else if not mixed
      then (false, cooldown, db'')
      else check_circuit_breaker cfg now trigger_at strategy asset (cooldown, db'')
