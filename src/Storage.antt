-- ===== src/Storage.antt =====
-- storage/database.py: the tables of the database as lists of rows, in the order of their ids.
-- Times are microseconds since the epoch: `_now()` writes them as ISO texts of one time zone, whose
-- order is the order of the times. The text of `details` is left as the values that it shows.
pub mod Accounts
pub mod Trades
pub mod History
pub mod Equity
pub mod Queue
pub mod Invariant
pub mod Ledger
pub mod Interleave
pub mod Postgres
use poly_market_prediction_b.Base.{
  ℕ, String, Bool, ◌&&◌, Option, List, [], ◌==◌, string_eq, nat_eq, not, is_some,
}
use poly_market_prediction_b.Core.Types.{Signal, Outcome}

pub record Trade (F : Type 0) : Type 0 where
  pub id : ℕ
  pub timestamp : ℕ
  pub strategy : String
  pub asset : String
  pub market_id : Option String
  pub signal : Signal
  pub entry_price : F
  pub bet_size : F
  pub confidence : F
  pub regime : String
  pub outcome : Option Outcome
  pub pnl : Option F
  pub cvd_at_signal : Option F
  pub funding_at_signal : Option F
  pub liq_long_at_signal : Option F
  pub liq_short_at_signal : Option F
  pub vwap_change_at_signal : Option F
  pub rsi_at_signal : Option F
  pub bb_pct_at_signal : Option F
  pub indicators_json : Option String

pub record Bankroll (F : Type 0) : Type 0 where
  pub strategy : String
  pub asset : String
  pub current : F
  pub peak : F
  pub updated_at : ℕ

pub record SignalState (F : Type 0) : Type 0 where
  pub strategy : String
  pub asset : String
  pub signal : Signal
  pub confidence : F
  pub price : F
  pub cvd : F
  pub vwap_change : F
  pub funding_rate : F
  pub liq_long : F
  pub liq_short : F
  pub rsi : Option F
  pub bb_pct : Option F
  pub regime : String
  pub market_title : Option String
  pub market_up_price : Option F
  pub updated_at : ℕ

pub record PricePoint (F : Type 0) : Type 0 where
  pub id : ℕ
  pub timestamp : ℕ
  pub asset : String
  pub price : F

pub data RiskKind : Type 0 where
  vpn_blocked drawdown_disable portfolio_drawdown_pause correlation_block circuit_breaker : RiskKind

pub record RiskEvent (F : Type 0) : Type 0 where
  pub timestamp : ℕ
  pub event_type : RiskKind
  pub strategy : Option String
  pub asset : Option String
  pub details : List F

pub record RegimeRow (F : Type 0) : Type 0 where
  pub timestamp : ℕ
  pub asset : String
  pub regime : String
  pub adx : Option F
  pub bb_width : Option F
  pub ema_slope : Option F

pub record EquitySnapshot (F : Type 0) : Type 0 where
  pub timestamp : ℕ
  pub strategy : String
  pub asset : String
  pub bankroll : F
  pub total_pnl : F
  pub open_trades : ℕ

-- The column `created_at`, which the database fills and nothing reads, is left out.
pub record DeadLetter (F : Type 0) : Type 0 where
  pub id : ℕ
  pub original_trade_id : ℕ
  pub timestamp : ℕ
  pub strategy : String
  pub asset : String
  pub market_id : Option String
  pub signal : Signal
  pub entry_price : F
  pub bet_size : F
  pub reason : String
  pub resolved_outcome : Option Outcome
  pub resolved_at : Option ℕ

pub record Database (F : Type 0) : Type 0 where
  pub trades : List (Trade F)
  pub bankroll : List (Bankroll F)
  pub signal_state : List (SignalState F)
  pub price_history : List (PricePoint F)
  pub risk_events : List (RiskEvent F)
  pub regime_history : List (RegimeRow F)
  pub equity_snapshots : List (EquitySnapshot F)
  pub dead_letter_trades : List (DeadLetter F)

-- The tables that `_init_schema` creates.
abbrev pub empty_tables : {F : Type 0} → Database F
empty_tables = record {
  trades = [];
  bankroll = [];
  signal_state = [];
  price_history = [];
  risk_events = [];
  regime_history = [];
  equity_snapshots = [];
  dead_letter_trades = [];
}

-- The tests that the WHERE clauses are made of.
module _ {F : Type 0} where
  -- `strategy=? AND asset=?`
  abbrev pub is_row_of : String → String → Bankroll F → Bool
  is_row_of strategy asset r = r.strategy == strategy && r.asset == asset

  abbrev pub is_trade_of : String → String → Trade F → Bool
  is_trade_of strategy asset t = t.strategy == strategy && t.asset == asset

  -- `id=?`
  abbrev pub has_id : ℕ → Trade F → Bool
  has_id i t = t.id == i

  -- `outcome IS NULL`
  abbrev pub is_open : Trade F → Bool
  is_open t = not (is_some t.outcome)
