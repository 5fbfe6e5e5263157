-- ===== src/Execution/Executor.antt =====
-- `Executor.execute` of execution/executor.py, check by check.
-- One call runs from start to end with no other task writing in between. What it reads of its
-- surroundings is an `Inputs`: the VPN guard, the clock at each place that reads it, the market and
-- the order book, and the library functions that turn values into text.
-- Logging and the Prometheus metrics are left out.
pub mod Gate
pub mod Skip
pub mod Limits
use poly_market_prediction_b.Base.{
  ℕ, String, Bool, false, not, Option, none, some, [], ◌∷◌, ◌++◌, ◌==◌, string_eq, ◌||◌,
  if◌then◌else◌, any, get_or,
}
use poly_market_prediction_b.Base.Dict.{lookup}
use poly_market_prediction_b.Core.Types.{
  Signal, SignalResult, MarketInfo, Indicators, StrategyConfig, is_yes, is_skip,
}
use poly_market_prediction_b.Market.{window_elapsed_pct, get_entry_price}
use poly_market_prediction_b.Number.{Number, zero_f, one_f, of_ℕ, fmax}
use poly_market_prediction_b.Storage.{Trade, RiskKind}
use poly_market_prediction_b.Storage.Accounts.{get_bankroll, deduct_fee}
use poly_market_prediction_b.Storage.History.{log_risk_event}
use poly_market_prediction_b.Storage.Trades.{Order, reserve_and_insert_trade, get_open_trades}
use poly_market_prediction_b.Execution.Risk.{check_all}
use poly_market_prediction_b.Execution.Sizer.{kelly_size}
use poly_market_prediction_b.Execution.Window.{can_place, record_order}
use poly_market_prediction_b.Execution.State.{
  Inputs, Settings, Placed, World, go, skipped, raised, Step, ◌>>=◌, ◌>>◌, require, or_raise,
  or_skip,
}

module _ {F : Type 0} ⦃num : Number F⦄ where
  open num use {dec, add, mul, div, lt, le, eq}

  -- `t["market_id"] == market.market_id`
  abbrev pub is_on : String → Trade F → Bool
  is_on market_id t = elim t.market_id [ none ↦ false | some m ↦ m == market_id ]

  unfoldable pub has_open_on : String → String → String → World F → Bool
  has_open_on strategy asset market_id w =
      any (is_on market_id) (get_open_trades (some strategy) (some asset) w.db)

  -- 0. The VPN guard.
  unfoldable pub check_vpn : Inputs F → SignalResult F → Step F (Unit {0})
  check_vpn i r w = if i.vpn_active then (go tt, w) else (
    skipped,
    record w {
      db = log_risk_event i.vpn_at RiskKind.vpn_blocked (some r.strategy) (some r.asset) [] w.db;
    },
  )

  -- 4. The risk checks.
  unfoldable pub check_risk : Settings F → Inputs F → SignalResult F → Step F (Unit {0})
  check_risk s i r w =
      let (allowed, cooldown, db) =
        check_all s.risk i.risk_at i.trigger_at r.strategy r.asset (w.cooldown, w.db) in
      (if allowed then go tt else skipped, record w { cooldown = cooldown; db = db })

  -- 7. The ask with the slippage on top.
  unfoldable pub slipped_price : Settings F → Inputs F → SignalResult F → MarketInfo F → F
  slipped_price s i r market =
      mul (get_entry_price i.get_best_ask market r.signal)
        (add one_f (div s.fees.slippage_bps (of_ℕ 10_000)))

  -- 7b. The guard of the strategy's configuration, 1.0 where it has none.
  abbrev pub max_entry : StrategyConfig F → Signal → F
  max_entry cfg signal =
      get_or (if is_yes signal then cfg.max_entry_buy_yes else cfg.max_entry_buy_no) one_f

  -- 8. The size, with the multiplier of the regime.
  unfoldable pub scaled_size : F → F → F
  scaled_size multiplier size =
      if eq multiplier one_f then size else fmax one_f (mul size multiplier)

  -- `result.indicators.get("regime", "UNKNOWN") or "UNKNOWN"`
  abbrev pub regime_of : (F → String) → Indicators F → String
  regime_of text_of indicators = elim (get_or (lookup "regime" indicators) none) [
    | none ↦ "UNKNOWN"
    | some v ↦ if eq v zero_f then "UNKNOWN" else text_of v
  ]

  abbrev pub indicator : String → Indicators F → Option F
  indicator name indicators = get_or (lookup name indicators) none

  -- 10. The arguments of the insertion.
  abbrev pub order_of : Inputs F → SignalResult F → MarketInfo F → F → F → Order F
  order_of i r market price size = record {
    strategy = r.strategy;
    asset = r.asset;
    market_id = some market.market_id;
    signal = r.signal;
    entry_price = price;
    bet_size = size;
    confidence = r.confidence;
    regime = regime_of i.text_of r.indicators;
    snapshot = r.snapshot;
    rsi = indicator "rsi" r.indicators;
    bb_pct = indicator "bb_pct" r.indicators;
    indicators_json = some (i.dumps r.snapshot r.indicators r.confidence);
  }

  unfoldable pub insert_trade : Inputs F → Order F → Step F ℕ
  insert_trade i o w =
      let (trade_id, db) = reserve_and_insert_trade i.inserted_at o w.db in
      (elim trade_id [ none ↦ skipped | some t ↦ go t ], record w { db = db })

  -- 10 and 11. The gas, and the count of the window.
  unfoldable pub pay_gas : Settings F → SignalResult F → Step F (Unit {0})
  pay_gas s r w = (go tt, record w { db = deduct_fee r.strategy r.asset s.fees.gas_per_trade w.db })

  unfoldable pub track : Inputs F → SignalResult F → Step F ℕ
  track i r w =
      let (n, counts) = record_order i.recorded_at i.cleaned_at r.strategy r.asset w.counts in
      (elim n [ none ↦ raised | some k ↦ go k ], record w { counts = counts })

  -- 13. The event.
  unfoldable pub publish : Placed F → Step F (Unit {0})
  publish e w = (go tt, record w { published = w.published ++ (e ∷ []) })

  -- 0 to 4: what is checked before a market is looked for; the balance is passed on.
  unfoldable pub pre_checks : Settings F → Inputs F → StrategyConfig F → SignalResult F → Step F F
  unfolding check_vpn check_risk
  pre_checks s i cfg r = do
    require (not (is_skip r.signal))
    check_vpn i r
    bankroll ← λ w. (go (get_bankroll r.strategy r.asset w.db), w)
    require (not (lt bankroll one_f))
    λ w. require (can_place i.placed_at r.strategy r.asset cfg.max_orders_per_window w.counts) w
    require (not (lt cfg.max_elapsed_pct (window_elapsed_pct i.elapsed_at r.asset)))
    check_risk s i r
    λ w. (go bankroll, w)

  -- 5 to 7b: the market and the entry price.
  unfoldable pub find_entry :
      Settings F → Inputs F → StrategyConfig F → Bool → SignalResult F → Step F (MarketInfo F × F)
  unfolding slipped_price
  find_entry s i cfg scaling r = do
    market ← or_skip i.market
    λ w. require (scaling || not (has_open_on r.strategy r.asset market.market_id w)) w
    let price = slipped_price s i r market
    require (not (le price zero_f || le one_f price))
    require (not (lt (max_entry cfg r.signal) price))
    λ w. (go (market, price), w)

  -- 10 to 13: the trade is placed.
  unfoldable pub place : Settings F → Inputs F → SignalResult F → MarketInfo F → F → F → Step F ℕ
  unfolding insert_trade pay_gas track publish
  place s i r market price size = do
    trade_id ← insert_trade i (order_of i r market price size)
    pay_gas s r
    order_num ← track i r
    publish (record {
      trade_id = trade_id;
      strategy = r.strategy;
      asset = r.asset;
      signal = r.signal;
      entry_price = price;
      bet_size = size;
      market_id = market.market_id;
      confidence = r.confidence;
    })
    λ w. (go trade_id, w)

  -- 8 to 13, at the market and price found.
  unfoldable pub size_and_place :
      Settings F → Inputs F → F → SignalResult F → F → MarketInfo F × F → Step F ℕ
  unfolding place scaled_size
  size_and_place s i multiplier r bankroll (market, price) = do
    size ← λ w. or_raise (kelly_size s.sizer r.strategy r.asset bankroll w.db) w
    place s i r market price (scaled_size multiplier size)

  -- `execute(result, strategy_cfg, scaling, size_multiplier)`
  unfoldable pub execute :
      Settings F → Inputs F → StrategyConfig F → Bool → F → SignalResult F → Step F ℕ
  unfolding pre_checks find_entry size_and_place
  execute s i cfg scaling multiplier r = do
    bankroll ← pre_checks s i cfg r
    entry ← find_entry s i cfg scaling r
    size_and_place s i multiplier r bankroll entry
