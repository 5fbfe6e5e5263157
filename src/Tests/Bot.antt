-- ===== src/Tests/Bot.antt =====
-- The bot's loop and the regime filter at concrete inputs.
use poly_market_prediction_b.Base.{true, false, ◌≡◌, refl, none, some, [], ◌∷◌}
use poly_market_prediction_b.Core.Types.{Signal, SignalResult, FeedSnapshot}
use poly_market_prediction_b.Market.{window_elapsed_pct, elapsed_seconds, get_entry_price}
use poly_market_prediction_b.Number.{fmin, fmax}
use poly_market_prediction_b.Number.Fixed.{round_to, over, units, times}
use poly_market_prediction_b.Number.Integer.{◌+ℤ◌}
use poly_market_prediction_b.Storage.Accounts.{
  deduct_fee, get_bankroll, get_all_bankrolls, get_bankroll_peak,
}
use poly_market_prediction_b.Storage.History.{save_signal_state}
use poly_market_prediction_b.Storage.Trades.{
  resolved_trades, get_open_trades, get_rolling_stats, count_open_by_direction, get_recent_outcomes,
  reserve_and_insert_trade,
}
use poly_market_prediction_b.Strategies.Selector
use poly_market_prediction_b.Strategies.Selector.{default_rules}
use poly_market_prediction_b.Strategies.Trend
use poly_market_prediction_b.Strategies.Trend.{is_confirmed}
use poly_market_prediction_b.Strategies.Correlation
use poly_market_prediction_b.Execution.Window.{cleanup, window_key, count, can_place, record_order}
use poly_market_prediction_b.Execution.Executor.{has_open_on, slipped_price, execute}
use poly_market_prediction_b.Execution.Risk.{
  check_all, check_streak, check_circuit_breaker, check_correlation, check_drawdown,
  is_losing_streak, exceeds_drawdown,
}
use poly_market_prediction_b.Execution.Sizer.{kelly_size}
use poly_market_prediction_b.Number.Integer.{pos}
use poly_market_prediction_b.Number.Fixed.{Fixed, fixed_number}
use poly_market_prediction_b.Strategies.Composite.{CompositeConfig}
use poly_market_prediction_b.Strategies.Regime.{RegimeNumpy, classify}
use poly_market_prediction_b.Strategies.Selector.{new_selector}
use poly_market_prediction_b.Execution.State.{go}
use poly_market_prediction_b.Bot.{Bot, BotSettings, Reads, Strategy, bot_round, run_bot}
use poly_market_prediction_b.Bot.Gates.{HasPlaced, bot_round_places}
use poly_market_prediction_b.Bot.Composite.{IsIdle, run_bot-IsIdle}
use poly_market_prediction_b.Tests.Data.{snapshot, settings, strategy_config, signal, inputs, world}

abbrev regime_np : RegimeNumpy Fixed
regime_np = record { mean = λ xs. pos 0; std = λ xs. pos 0; median = λ xs. pos 0 }

abbrev composite : CompositeConfig Fixed
composite = record {
  min_confidence = pos 400_000;
  w_rsi = pos 200_000;
  w_bb = pos 150_000;
  w_funding = pos 150_000;
  w_oi = pos 150_000;
  w_ls_ratio = pos 100_000;
  w_volume = pos 150_000;
  w_regime = pos 100_000;
}

abbrev unscored : BotSettings Fixed
unscored = record {
  regime_selector_enabled = true;
  composite_enabled = false;
  composite = none;
  multi_tf_enabled = true;
  correlation_enabled = true;
  execution = settings;
  regime_np = regime_np;
  correlation_np = record { std = λ xs. pos 0; corrcoef = λ xs ys. pos 0 };
}

abbrev scored : BotSettings Fixed
scored = record unscored { composite_enabled = true; composite = some composite }

abbrev reads : Reads Fixed
reads = record {
  snapshot = some snapshot;
  rsi = none;
  bb = none;
  selector = some new_selector;
  adaptive_at = 0;
  now = 0;
  saved_at = 0;
  execution = inputs;
}

abbrev strategy : Strategy Fixed
strategy = record {
  name = "MOMENTUM";
  cfg = strategy_config;
  is_scaling = true;
  evaluate = λ adaptive asset snap rsi bb. some (signal Signal.buy_yes);
}

abbrev bot : Bot Fixed
bot = record {
  world = world;
  adaptive = none;
  multi_tf = some [];
  correlation = some (record {
    cfg = record {
      btc_drop_threshold_pct = pos 1_000_000;
      btc_drop_window_seconds = 300;
      correlation_threshold = pos 700_000;
      correlation_window_seconds = 1800;
    };
    prices = [];
  });
  price_buf = [];
  updates = [];
}

bot_round_placed : (bot_round unscored reads strategy "BTC" bot).0 ≡ go (some 1)
unfolding bot_round Selector.is_allowed new_selector default_rules classify units is_confirmed
    Trend.update Correlation.is_allowed execute get_bankroll save_signal_state can_place count
    window_key window_elapsed_pct elapsed_seconds over check_all check_drawdown exceeds_drawdown
    get_bankroll_peak ◌+ℤ◌ get_all_bankrolls check_correlation count_open_by_direction
    check_circuit_breaker check_streak is_losing_streak get_recent_outcomes resolved_trades
    has_open_on get_open_trades slipped_price get_entry_price times kelly_size get_rolling_stats
    fmin fmax round_to reserve_and_insert_trade deduct_fee record_order cleanup
    Selector.get_size_multiplier
bot_round_placed = refl

bot_round_places_example :
    (snap : FeedSnapshot Fixed) × (r : SignalResult Fixed) × (told : Bot Fixed) × HasPlaced unscored
      reads strategy "BTC" bot 1 snap r told
bot_round_places_example = bot_round_places unscored reads strategy "BTC" bot 1 bot_round_placed

run_bot-IsIdle_example : IsIdle world (run_bot scored strategy "BTC" (reads ∷ reads ∷ []) bot).world
run_bot-IsIdle_example =
    run_bot-IsIdle scored composite refl refl strategy "BTC" (reads ∷ reads ∷ []) bot
