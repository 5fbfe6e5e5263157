-- ===== src/Backtest/Engine/Loops.antt =====
-- backtest/engine.py: the loops `_replay_snapshots` and `_simulate_from_db_records`.
use poly_market_prediction_b.Base.{
  ℕ, String, Bool, not, Option, none, some, List, [], ◌∷◌, map, ◌==◌, string_eq, if◌then◌else◌,
}
use poly_market_prediction_b.Core.Types.{Signal, is_skip, SignalResult, Indicators}
use poly_market_prediction_b.Number.{Number, zero_f}
use poly_market_prediction_b.Backtest.Models.{ExitOutcome, BacktestConfig, SimulatedTrade}
use poly_market_prediction_b.Backtest.Engine.{
  BaseStrategy, Bar, Replay, apply_slippage, determine_outcome, simulate,
}

-- A resolved trade of the database, with the defaults of `rec.get` filled in. `timestamp` is `none`
-- where `datetime.fromisoformat` raises, and `signal` is the text in upper case.
pub record DbRecord (F : Type 0) : Type 0 where
  pub timestamp : Option ℕ
  pub signal : String
  pub entry_price : F
  pub outcome : String
  pub confidence : F
  pub indicators : Indicators F

-- `str(...).upper()`, where the text is that of the column `outcome`, in upper case.
abbrev pub outcome_of : String → ExitOutcome
outcome_of text = if text == "WIN" then ExitOutcome.win else ExitOutcome.loss

-- A text that is neither of the two signals is BUY_YES.
abbrev pub signal_of : String → Signal
signal_of text = if text == "BUY_NO" then Signal.buy_no else Signal.buy_yes

-- `utcnow` stands for a timestamp that is no ISO text.
abbrev pub time_of : {F : Type 0} → ℕ → DbRecord F → ℕ
time_of utcnow rec = elim rec.timestamp [ none ↦ utcnow | some ts ↦ ts ]

abbrev pub start : {F : Type 0} → BacktestConfig F → Replay F
start config = record { bankroll = config.initial_bankroll; recent_outcomes = []; trades = [] }

module _ {F : Type 0} ⦃num : Number F⦄ where
  open num use {dec, mul, lt, round}

  abbrev pub round_indicator : String × Option F → String × Option F
  round_indicator (k, none) = (k, none)
  round_indicator (k, some v) = (k, some (round 6 v))

  -- The ask as a probability, one half where it is none.
  unfoldable pub raw_entry : F → F
  raw_entry ask =
      let entry = if lt zero_f ask then ask else dec 50 2 in
      if lt (dec 1 0) entry then dec 50 2 else entry

  -- `bankroll < config.initial_bankroll * _MIN_BANKROLL_FRACTION`
  abbrev pub is_low : BacktestConfig F → F → Bool
  is_low config bankroll = lt bankroll (mul config.initial_bankroll (dec 1 2))

  -- What a round does with the signal of the strategy.
  unfoldable pub act :
      BacktestConfig F
      → BaseStrategy F
      → Bar F
      → Bar F
      → SignalResult F
      → Replay F
      → Option (Replay F)
  act config strategy bar next result s =
      let entry_price = apply_slippage (raw_entry bar.snap.ask) config.slippage_bps in
      if is_skip result.signal
      then some s
      else if is_low config s.bankroll
      then some s
      else if not (strategy.entry_ok config.asset result.signal entry_price)
      then some s
      else simulate config bar.ts result.signal (round 4 result.confidence)
          (map round_indicator result.indicators) entry_price
          (determine_outcome result.signal bar.snap.last_price next.snap.last_price) s

  unfoldable pub replay_bar :
      BacktestConfig F → BaseStrategy F → Bar F → Bar F → Replay F → Option (Replay F)
  unfolding act
  replay_bar config strategy bar next s =
      elim (strategy.evaluate config.asset bar.snap bar.rsi bar.bb) [
        | none ↦ none
        | some result ↦ act config strategy bar next result s
      ]

  -- `for i, (ts, snap) in enumerate(snapshots)`, which ends at the last bar: it has no next price.
  unfoldable pub replay_bars :
      BacktestConfig F → BaseStrategy F → List (Bar F) → Replay F → Option (Replay F)
  unfolding replay_bar
  replay_bars config strategy [] s = some s
  replay_bars config strategy (bar ∷ []) s = some s
  replay_bars config strategy (bar ∷ next ∷ bars) s = elim (replay_bar config strategy bar next s) [
    | none ↦ none
    | some s' ↦ replay_bars config strategy (next ∷ bars) s'
  ]

  unfoldable pub replay_snapshots :
      BacktestConfig F → BaseStrategy F → List (Bar F) → Option (List (SimulatedTrade F))
  unfolding replay_bars
  replay_snapshots config strategy bars = elim (replay_bars config strategy bars (start config)) [
    | none ↦ none
    | some s ↦ some s.trades
  ]

  unfoldable pub simulate_record : BacktestConfig F → ℕ → DbRecord F → Replay F → Option (Replay F)
  simulate_record config utcnow rec s =
      simulate config (time_of utcnow rec) (signal_of rec.signal) rec.confidence rec.indicators
        (apply_slippage rec.entry_price config.slippage_bps) (outcome_of rec.outcome) s

  unfoldable pub simulate_records :
      BacktestConfig F → ℕ → List (DbRecord F) → Replay F → Option (Replay F)
  unfolding simulate_record
  simulate_records config utcnow [] s = some s
  simulate_records config utcnow (rec ∷ more) s = elim (simulate_record config utcnow rec s) [
    | none ↦ none
    | some s' ↦ simulate_records config utcnow more s'
  ]

  unfoldable pub simulate_from_db_records :
      BacktestConfig F → ℕ → List (DbRecord F) → Option (List (SimulatedTrade F))
  unfolding simulate_records
  simulate_from_db_records config utcnow records =
      elim (simulate_records config utcnow records (start config)) [
        | none ↦ none
        | some s ↦ some s.trades
      ]
