-- ===== src/Tests/Data.antt =====
-- Test data over the fixed-point numbers: one millionth is `pos 1`.
use poly_market_prediction_b.Base.{ℕ, ◌*◌, String, true, none, some, List, [], ◌∷◌}
use poly_market_prediction_b.Core.Types.{
  Signal, Outcome, SignalResult, FeedSnapshot, MarketInfo, StrategyConfig, RiskConfig, SizerConfig,
}
use poly_market_prediction_b.Number.Integer.{pos}
use poly_market_prediction_b.Number.Fixed.{Fixed, fixed_number, unit}
use poly_market_prediction_b.Storage.{Database, Trade, Bankroll}
use poly_market_prediction_b.Storage.Trades.{Order}
use poly_market_prediction_b.Execution.State.{Inputs, Settings, World}

abbrev pub snapshot : FeedSnapshot Fixed
snapshot = record {
  last_price = pos 65_000_000_000;
  price_2min_ago = pos 64_900_000_000;
  vwap_change = pos 2_000;
  cvd_2min = pos 3_000_000_000_000;
  funding_rate = pos 100;
  liq_long_2min = pos 0;
  liq_short_2min = pos 0;
  bid = pos 64_999_000_000;
  ask = pos 65_001_000_000;
  book_imbalance = pos 500_000;
  open_interest = pos 0;
  long_short_ratio = pos 1_000_000;
  connected = true;
  last_update = pos 1_000_000;
}

abbrev pub order : Order Fixed
order = record {
  strategy = "MOMENTUM";
  asset = "BTC";
  market_id = some "m1";
  signal = Signal.buy_yes;
  entry_price = pos 500_000;
  bet_size = pos 10_000_000;
  confidence = pos 800_000;
  regime = "UNKNOWN";
  snapshot = snapshot;
  rsi = none;
  bb_pct = none;
  indicators_json = some "{}";
}

abbrev pub account : String → String → ℕ → Bankroll Fixed
account strategy asset dollars = record {
  strategy = strategy;
  asset = asset;
  current = pos (dollars * unit);
  peak = pos (dollars * unit);
  updated_at = 0;
}

abbrev pub past_trade : ℕ → Outcome → Trade Fixed
past_trade i outcome = record {
  id = i;
  timestamp = 0;
  strategy = "MOMENTUM";
  asset = "BTC";
  market_id = some "m0";
  signal = Signal.buy_yes;
  entry_price = pos 500_000;
  bet_size = pos 10_000_000;
  confidence = pos 800_000;
  regime = "UNKNOWN";
  outcome = some outcome;
  pnl = some (pos 0);
  cvd_at_signal = none;
  funding_at_signal = none;
  liq_long_at_signal = none;
  liq_short_at_signal = none;
  vwap_change_at_signal = none;
  rsi_at_signal = none;
  bb_pct_at_signal = none;
  indicators_json = none;
}

abbrev pub with_trades : List (Trade Fixed) → Database Fixed
with_trades trades = record {
  trades = trades;
  bankroll = account "MOMENTUM" "BTC" 100 ∷ account "BOLLINGER" "BTC" 100 ∷ [];
  signal_state = [];
  price_history = [];
  risk_events = [];
  regime_history = [];
  equity_snapshots = [];
  dead_letter_trades = [];
}

-- Two accounts with a balance of 100, and no trade.
abbrev pub funded : Database Fixed
funded = with_trades []

abbrev pub three_losses : Database Fixed
three_losses =
    with_trades
      (past_trade 1 Outcome.loss ∷ past_trade 2 Outcome.loss ∷ past_trade 3 Outcome.loss ∷ [])

abbrev pub risk_config : RiskConfig Fixed
risk_config = record {
  strategy_drawdown_disable = pos 250_000;
  portfolio_drawdown_pause = pos 200_000;
  max_same_direction_per_asset = 2;
  max_unidirectional_exposure_pct = pos 800_000;
  circuit_breaker_consecutive_losses = 3;
  circuit_breaker_cooldown_windows = 3;
}

abbrev pub sizer_config : SizerConfig Fixed
sizer_config = record {
  min_pct = pos 10_000;
  max_pct = pos 50_000;
  default_pct = pos 20_000;
  min_sample = 20;
  kelly_fraction = pos 250_000;
  rolling_window = 50;
}

abbrev pub settings : Settings Fixed
settings = record {
  fees = record {
    gas_per_trade = pos 2_000;
    taker_fee_pct = pos 20_000;
    slippage_bps = pos 10_000_000;
  };
  risk = risk_config;
  sizer = sizer_config;
}

abbrev pub strategy_config : StrategyConfig Fixed
strategy_config = record {
  max_orders_per_window = 2;
  signal_interval = 30;
  max_elapsed_pct = pos 850_000;
  max_entry_buy_yes = none;
  max_entry_buy_no = none;
}

abbrev pub market : MarketInfo Fixed
market = record {
  asset = "BTC";
  market_id = "m1";
  event_title = "Bitcoin Up or Down";
  up_token_id = some "up";
  down_token_id = some "down";
  up_price = pos 500_000;
  down_price = pos 500_000;
  window_start = 0;
  interval = 300;
}

abbrev pub signal : Signal → SignalResult Fixed
signal side = record {
  signal = side;
  confidence = pos 800_000;
  strategy = "MOMENTUM";
  asset = "BTC";
  snapshot = snapshot;
  indicators = [];
}

abbrev pub inputs : Inputs Fixed
inputs = record {
  vpn_active = true;
  vpn_at = 0;
  placed_at = 0;
  elapsed_at = 0;
  risk_at = 0;
  trigger_at = 0;
  market = some market;
  get_best_ask = λ token. none;
  inserted_at = 0;
  recorded_at = 0;
  cleaned_at = 0;
  dumps = λ snap ind confidence. "{}";
  text_of = λ x. "";
}

abbrev pub world : World Fixed
world = record { db = funded; cooldown = []; counts = []; published = [] }
