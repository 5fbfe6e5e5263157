-- ===== src/Tests/Feeds.antt =====
-- The feeds, and the recorder of their prices, at concrete inputs.
use poly_market_prediction_b.Bot.Recorder.{record_prices, record_prices-get_snapshot}
use poly_market_prediction_b.Storage.History.{get_price_history}
use poly_market_prediction_b.Tests.Data.{funded}
use poly_market_prediction_b.Feeds.Binance
use poly_market_prediction_b.Base.Dict.{insert}
use poly_market_prediction_b.Base.{
  ◌++◌, ℕ, ◌*◌, ◌≡◌, refl, true, false, Bool, none, some, List, [], ◌∷◌, arith, select, String,
  string_eq, last_n,
}
use poly_market_prediction_b.Base.Dict.{lookup}
use poly_market_prediction_b.Number.{zero_f, of_ℕ}
use poly_market_prediction_b.Number.Order.{◌≼◌}
use poly_market_prediction_b.Number.Integer.{pos, ◌+ℤ◌}
use poly_market_prediction_b.Number.Fixed.{Fixed, fixed_number, units, times}
use poly_market_prediction_b.Number.Fixed.Laws.{Fixed-IsOrdered, Fixed-IsRounded}
use poly_market_prediction_b.Feeds.Rsi
use poly_market_prediction_b.Feeds.Rsi.{
  RsiFeed, get_rsi, deltas, rsi_of, max_candles, update, tick_of, tick, close_candle,
}
use poly_market_prediction_b.Feeds.Rsi.Candles.{Tick}
use poly_market_prediction_b.Feeds.Rsi.Closes.{finished}
use poly_market_prediction_b.Feeds.Rsi.Updates.{updates, ticks_of, updates-closes}
use poly_market_prediction_b.Feeds.Rsi.Range.{get_rsi-range}
use poly_market_prediction_b.Feeds.Exchanges.{
  ExchangeAdapter, ExchangeManager, get_median_price, get_all_ticks, new_manager,
}
use poly_market_prediction_b.Feeds.Exchanges.Robust.{get_median_price-robust}
use poly_market_prediction_b.Feeds.Exchanges.Adapters.{add_all, first_primary, add_all_lem}
use poly_market_prediction_b.Feeds.Binance.{
  Message, agg_trade, mark_price, empty_feed, sum_window, handle, handle_agg_trade,
  handle_mark_price, trim,
}
use poly_market_prediction_b.Feeds.Binance.Window.{is_recent}
use poly_market_prediction_b.Feeds.Binance.Trades.{handle_all, nets, last_trade, handle_all-cvd}
use poly_market_prediction_b.Feeds.Binance.Backoff.{sleeps, first_retry, pass}

abbrev dollars : ℕ → Fixed
dollars n = pos (n * 1_000_000)

-- Four closes, and the RSI of the last three changes.
abbrev four_closes : List Fixed
four_closes = dollars 10 ∷ dollars 12 ∷ dollars 11 ∷ dollars 12 ∷ []

abbrev closed_feed : RsiFeed Fixed
closed_feed = record { closes = ("BTC", four_closes) ∷ []; current_candle = [] }

get_rsi-range_example :
    (rsi : Fixed) × (get_rsi "BTC" 3 closed_feed ≡ some (some rsi))
    × (zero_f ≼ rsi)
    × (rsi ≼ of_ℕ 100)
get_rsi-range_example =
    get_rsi-range Fixed-IsOrdered Fixed-IsRounded "BTC" 3 closed_feed four_closes (omega arith) refl
      (omega arith)

-- Two minutes of BTC, with a tick of ETH and a bad price in between.
abbrev five_updates : List (Tick Fixed)
five_updates =
    (61_000_000, "BTC", dollars 10)
    ∷ (62_000_000, "ETH", dollars 3)
    ∷ (100_000_000, "BTC", dollars 11)
    ∷ (110_000_000, "BTC", pos 0)
    ∷ (121_000_000, "BTC", dollars 12)
    ∷ []

updates-closes_example :
    (feed : RsiFeed Fixed) × (updates five_updates Rsi.new_feed ≡ some feed)
    × (lookup "BTC" feed.closes
        ≡ some (last_n max_candles (finished "BTC" (ticks_of five_updates))))
updates-closes_example = updates-closes "BTC" five_updates refl (ground arith)

finished_run : finished "BTC" (ticks_of five_updates) ≡ dollars 11 ∷ []
unfolding units
finished_run = refl

abbrev priced : String → Bool → ℕ → ExchangeAdapter Fixed
priced name is_primary n = record {
  name = name;
  is_primary = is_primary;
  get_tick = λ asset. some (record {
    exchange = name;
    asset = asset;
    price = dollars n;
    volume = pos 0;
    bid = pos 0;
    ask = pos 0;
    timestamp = pos 0;
  });
  is_healthy = true;
  get_full_snapshot = λ asset. none;
}

-- Two agree, and one is far off.
abbrev three_exchanges : List (ExchangeAdapter Fixed)
three_exchanges =
    priced "binance" true 100 ∷ priced "kraken" false 7 ∷ priced "coinbase" true 101 ∷ []

abbrev manager : ExchangeManager Fixed
manager = record { adapters = three_exchanges; primary = none }

get_median_price-robust_example :
    (price : Fixed) × (get_median_price "BTC" manager ≡ some price)
    × (dollars 100 ≼ price)
    × (price ≼ dollars 101)
unfolding get_all_ticks units
get_median_price-robust_example =
    get_median_price-robust Fixed-IsOrdered Fixed-IsRounded (dollars 100) (dollars 101) "BTC"
      manager (omega arith)

add_all_lem_example :
    add_all three_exchanges new_manager
    ≡ record { adapters = three_exchanges; primary = first_primary three_exchanges }
add_all_lem_example = add_all_lem three_exchanges

sleeps_run : sleeps (false ∷ false ∷ true ∷ false ∷ []) first_retry ≡ 1 ∷ 2 ∷ 1 ∷ 2 ∷ []
unfolding sleeps pass
sleeps_run = refl

-- A sale, and two minutes and a second later a purchase.
abbrev two_trades : List (ℕ × Message Fixed)
two_trades =
    (1_000_000, agg_trade (dollars 10) (dollars 2) true)
    ∷ (5_000_000, mark_price (pos 100))
    ∷ (122_000_000, agg_trade (dollars 11) (dollars 1) false)
    ∷ []

handle_all-cvd_example :
    let feed = handle_all two_trades empty_feed in
    let recent = select (is_recent (last_trade 0 two_trades)) (nets two_trades) in
    (feed.trade ≡ recent) × (feed.state.cvd_2min ≡ sum_window recent)
handle_all-cvd_example = handle_all-cvd two_trades (ground arith)

cvd_run : (handle_all two_trades empty_feed).state.cvd_2min ≡ dollars 11
unfolding handle_all handle handle_agg_trade handle_mark_price trim times units ◌+ℤ◌
cvd_run = refl

-- A trade of BTC, and the recorder after it.
abbrev traded : Binance.BinanceFeed Fixed
traded =
    insert "BTC" (handle_agg_trade 1_000_000 (dollars 10) (dollars 2) true empty_feed)
      Binance.new_feed

record_prices-get_snapshot_example :
    get_price_history "BTC" 1 (record_prices (λ a. 60) traded ([] ++ ("BTC" ∷ "ETH" ∷ [])) funded)
    ≡ (60, (Binance.get_snapshot "BTC" traded).last_price) ∷ []
unfolding Binance.get_snapshot handle_agg_trade trim units
record_prices-get_snapshot_example =
    record_prices-get_snapshot (λ a. 60) traded "BTC" [] ("ETH" ∷ []) funded (refl, tt) refl
