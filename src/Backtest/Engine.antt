-- ===== src/Backtest/Engine.antt =====
-- backtest/engine.py: the replay of a strategy over a series of snapshots, and of the trades of the
-- database, with the bets, fees and bankroll of the backtest. `none` is the exception of a division
-- by zero, or of the strategy.
pub mod Loops
pub mod Bets
pub mod Safe
use poly_market_prediction_b.Base.{
  ℕ, String, Bool, true, false, Option, none, some, List, [], ◌∷◌, ◌++◌, map, ◌==◌, string_eq, ◌&&◌,
  ◌||◌, length, drop, select, ltb, leb, if◌then◌else◌,
}
use poly_market_prediction_b.Core.Types.{
  Signal, is_yes, is_skip, FeedSnapshot, SignalResult, Indicators,
}
use poly_market_prediction_b.Number.{Number, zero_f, one_f, of_ℕ, fmax, fmin, divide}
use poly_market_prediction_b.Strategies.Signals.{Band}
use poly_market_prediction_b.Backtest.Models.{ExitOutcome, has_won, BacktestConfig, SimulatedTrade}

-- `_KELLY_WARMUP`
abbrev pub kelly_warmup : ℕ
kelly_warmup = 20

-- The rolling window keeps at most so many outcomes.
abbrev pub max_outcomes : ℕ
max_outcomes = 50

-- `recent_outcomes.append(...)`, and `pop(0)` from a list that is too long.
unfoldable pub remember : Bool → List Bool → List Bool
remember won recent =
    let longer = recent ++ (won ∷ []) in
    if ltb max_outcomes (length longer) then drop 1 longer else longer

-- `sum(recent_outcomes)`
abbrev pub wins_of : List Bool → ℕ
wins_of recent = length (select (λ won. won) recent)

-- A strategy, as the engine calls it.
pub record BaseStrategy (F : Type 0) : Type 0 where
  pub evaluate : String → FeedSnapshot F → Option F → Option (Band F) → Option (SignalResult F)
  pub entry_ok : String → Signal → F → Bool

-- The elements of the series `snapshots`, `rsi_series` and `bb_series` at one index.
pub record Bar (F : Type 0) : Type 0 where
  pub ts : ℕ
  pub snap : FeedSnapshot F
  pub rsi : Option F
  pub bb : Option (Band F)

-- The variables of the two loops.
pub record Replay (F : Type 0) : Type 0 where
  pub bankroll : F
  pub recent_outcomes : List Bool
  pub trades : List (SimulatedTrade F)

module _ {F : Type 0} ⦃num : Number F⦄ where
  open num use {dec, add, sub, mul, div, neg, lt, le, round}

  unfoldable pub apply_slippage : F → F → F
  apply_slippage price slippage_bps =
      let adjusted = mul price (add one_f (div slippage_bps (of_ℕ 10_000))) in
      fmax (dec 1 3) (fmin (dec 999 3) adjusted)

  unfoldable pub kelly_bet_size : F → F → F → F → Option F
  kelly_bet_size bankroll win_rate entry_price kelly_fraction =
      if le one_f entry_price
      then some (mul bankroll (dec 1 2))
      else elim (divide entry_price (sub one_f entry_price)) [
        | none ↦ none
        | some odds ↦
            let full_kelly = sub win_rate (mul (sub one_f win_rate) odds) in
            let frac_kelly = mul full_kelly kelly_fraction in
            let min_bet = fmax (mul bankroll (dec 1 2)) (dec 10 2) in
            let max_bet = mul bankroll (dec 10 2) in
            let raw = mul bankroll frac_kelly in
            if le frac_kelly zero_f
            then some (mul bankroll (dec 1 2))
            else some (round 4 (fmax min_bet (fmin max_bet raw)))
      ]

  unfoldable pub fixed_bet_size : F → F
  fixed_bet_size bankroll = round 4 (fmax (mul bankroll (dec 3 2)) (dec 10 2))

  unfoldable pub determine_outcome : Signal → F → F → ExitOutcome
  determine_outcome signal current_price next_price =
      if is_yes signal
      then if lt current_price next_price then ExitOutcome.win else ExitOutcome.loss
      else if lt next_price current_price
      then ExitOutcome.win
      else ExitOutcome.loss

  unfoldable pub compute_pnl : ExitOutcome → F → F → F → F → Option F
  compute_pnl outcome entry_price bet_size commission_pct gas_per_trade =
      elim (divide bet_size entry_price) [
        | none ↦ none
        | some shares ↦
            let gross_profit = mul (sub one_f entry_price) shares in
            let net_profit = mul gross_profit (sub one_f commission_pct) in
            if has_won outcome
            then some (round 6 (sub net_profit gas_per_trade))
            else some (round 6 (neg (add bet_size gas_per_trade)))
      ]

  -- The bet by Kelly after the warmup.
  unfoldable pub sized_bet : BacktestConfig F → Replay F → F → Option F
  sized_bet config s entry_price =
      let n = length s.recent_outcomes in
      let estimated_wr = div (of_ℕ (wins_of s.recent_outcomes)) (of_ℕ n) in
      if config.use_kelly && leb kelly_warmup n
      then kelly_bet_size s.bankroll estimated_wr entry_price config.kelly_fraction
      else some (fixed_bet_size s.bankroll)

  -- `min(bet_size, bankroll)`
  unfoldable pub bet_of : BacktestConfig F → Replay F → F → Option F
  unfolding sized_bet
  bet_of config s entry_price = elim (sized_bet config s entry_price) [
    | none ↦ none
    | some bet_size ↦ some (fmin bet_size s.bankroll)
  ]

  -- The trade, the new bankroll and the outcomes, once price, bet, outcome and P&L are known.
  unfoldable pub record_trade :
      ℕ → Signal → F → Indicators F → F → F → ExitOutcome → F → Replay F → Replay F
  unfolding remember
  record_trade ts signal confidence indicators entry_price bet_size outcome pnl s =
      let bankroll = round 6 (add s.bankroll pnl) in
      record s {
        bankroll = bankroll;
        recent_outcomes = remember (has_won outcome) s.recent_outcomes;
        trades =
            s.trades
            ++ (record {
              timestamp = ts;
              signal = signal;
              entry_price = round 6 entry_price;
              exit_outcome = outcome;
              bet_size = round 6 bet_size;
              pnl = pnl;
              confidence = confidence;
              bankroll_after = round 4 bankroll;
              indicators = indicators;
            }
                ∷ []);
      }

  -- The rest of a round of either loop, from the price and the outcome on.
  unfoldable pub simulate :
      BacktestConfig F
      → ℕ
      → Signal
      → F
      → Indicators F
      → F
      → ExitOutcome
      → Replay F
      → Option (Replay F)
  unfolding bet_of compute_pnl record_trade
  simulate config ts signal confidence indicators entry_price outcome s =
      elim (bet_of config s entry_price) [
        | none ↦ none
        | some bet_size ↦
            elim (compute_pnl outcome entry_price bet_size config.commission_pct
              config.gas_per_trade) [
                | none ↦ none
                | some pnl ↦ some (
                    record_trade ts signal confidence indicators entry_price bet_size outcome pnl s)
              ]
      ]
