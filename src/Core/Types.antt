-- ===== src/Core/Types.antt =====
-- core/types.py and the configuration records of config.py, over a number type `F`.
use poly_market_prediction_b.Base.{ℕ, String, Bool, true, false, Option, List, [], ◌∷◌}
use poly_market_prediction_b.Base.Dict.{Dict}

pub data Signal : Type 0 where
  buy_yes buy_no skip : Signal

-- `signal == Signal.BUY_YES`, and so for the others.
abbrev pub is_yes : Signal → Bool
is_yes Signal.buy_yes = true
is_yes _ = false

abbrev pub is_no : Signal → Bool
is_no Signal.buy_no = true
is_no _ = false

abbrev pub is_skip : Signal → Bool
is_skip Signal.skip = true
is_skip _ = false

pub data RegimeType : Type 0 where
  trending ranging volatile unknown : RegimeType

pub data Outcome : Type 0 where
  win loss void : Outcome

abbrev pub is_win : Outcome → Bool
is_win Outcome.win = true
is_win _ = false

abbrev pub is_loss : Outcome → Bool
is_loss Outcome.loss = true
is_loss _ = false

pub record RegimeResult (F : Type 0) : Type 0 where
  pub regime : RegimeType
  pub adx : F
  pub bb_width : F
  pub ema_slope : F
  pub confidence : F

pub record FeedSnapshot (F : Type 0) : Type 0 where
  pub last_price : F
  pub price_2min_ago : F
  pub vwap_change : F
  pub cvd_2min : F
  pub funding_rate : F
  pub liq_long_2min : F
  pub liq_short_2min : F
  pub bid : F
  pub ask : F
  pub book_imbalance : F
  pub open_interest : F
  pub long_short_ratio : F
  pub connected : Bool
  pub last_update : F

-- The indicators of a signal: values that may be missing, by name.
abbrev pub Indicators : Type 0 → Type 0
Indicators F = Dict String (Option F)

pub record SignalResult (F : Type 0) : Type 0 where
  pub signal : Signal
  pub confidence : F
  pub strategy : String
  pub asset : String
  pub snapshot : FeedSnapshot F
  pub indicators : Indicators F

pub record MarketInfo (F : Type 0) : Type 0 where
  pub asset : String
  pub market_id : String
  pub event_title : String
  pub up_token_id : Option String
  pub down_token_id : Option String
  pub up_price : F
  pub down_price : F
  pub window_start : ℕ
  pub interval : ℕ

-- The strategy and asset pairs that the bot runs.
abbrev pub active_bots : List (String × String)
active_bots =
    ("TURBO_CVD", "ETH")
    ∷ ("TURBO_VWAP", "ETH")
    ∷ ("MOMENTUM", "BTC")
    ∷ ("MOMENTUM", "SOL")
    ∷ ("BOLLINGER", "BTC")
    ∷ []

-- The entry guards are fields of the momentum configuration alone; `none` is a configuration that
-- has no such field.
pub record StrategyConfig (F : Type 0) : Type 0 where
  pub max_orders_per_window : ℕ
  pub signal_interval : ℕ
  pub max_elapsed_pct : F
  pub max_entry_buy_yes : Option F
  pub max_entry_buy_no : Option F

pub record FeeConfig (F : Type 0) : Type 0 where
  pub gas_per_trade : F
  pub taker_fee_pct : F
  pub slippage_bps : F

pub record RiskConfig (F : Type 0) : Type 0 where
  pub strategy_drawdown_disable : F
  pub portfolio_drawdown_pause : F
  pub max_same_direction_per_asset : ℕ
  pub max_unidirectional_exposure_pct : F
  pub circuit_breaker_consecutive_losses : ℕ
  pub circuit_breaker_cooldown_windows : ℕ

pub record SizerConfig (F : Type 0) : Type 0 where
  pub min_pct : F
  pub max_pct : F
  pub default_pct : F
  pub min_sample : ℕ
  pub kelly_fraction : F
  pub rolling_window : ℕ
