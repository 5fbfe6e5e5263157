-- ===== src/Lib.antt =====
-- A trading bot for the Up/Down markets of Polymarket: strategies turn a snapshot of the exchange
-- feeds into a signal, the executor checks it and places a paper trade, and the resolver settles the
-- trade when its market has an outcome. The database keeps balances, trades and history.
--
-- Parts, by file, with the code under src/bot:
--   Core/Types: core/types.py and the configuration records of config.py.
--   Core/Events, Core/Retry: core/events.py (`EventBus`) and core/retry.py (`with_retry`).
--   Storage: storage/database.py (`Database`). The tables are lists of rows. Accounts, Trades,
--     History, Equity and Queue hold the operations under the names of the methods. Invariant and
--     Ledger are proofs.
--   Market: market/finder.py (`MarketFinder`), the windows, the entry price and `find_market`, and
--     market/orderbook.py (`OrderbookFetcher`) in OrderBook and OrderBook/Tokens.
--   Execution/Window, Execution/Executor: execution/executor.py (`_WindowTracker`, `Executor.execute`).
--     `execute` is a sequence of the steps `pre_checks`, `find_entry` and `size_and_place` over a
--     `World`: the database, the cooldowns, the window counts and the events published. A step ends
--     with a value, with `return None` (`skipped`), or with an exception (`raised`).
--   Execution/Risk, Execution/Sizer: execution/risk.py (`RiskManager`), execution/sizer.py (`Sizer`).
--   Execution/Resolver: execution/resolver.py (`Resolver`), without the polling and the metrics.
--     Groups, Once, Cycle and Settled are the proof that a cycle does to each trade what it should.
--   Storage/Postgres: storage/postgres.py (`PostgresDatabase`), over the same rows. Mirror and Answers
--     compare it with the SQLite database, and Schema is about the tables that its own schema makes.
--   Storage/Interleave: `reserve_and_insert_trade` as two steps, with other tasks between them.
--   Strategies: strategies/base.py, momentum.py, turbo_cvd.py, turbo_vwap.py and bollinger.py are in
--     Base and Signals, selector.py in Selector, adaptive.py in Adaptive, multi_tf.py in Trend,
--     composite.py in Composite, regime.py in Regime, and correlation.py in Correlation.
--   Feeds/Rsi: feeds/rsi_feed.py (`RSIFeed`). Candles, Closes and Updates are about the closes, and
--     Range about the RSI.
--   Feeds/Exchanges: feeds/exchange_manager.py (`ExchangeManager`) over the interface of
--     feeds/exchange_adapter.py, its median in Robust.
--   Feeds/Binance: feeds/binance_ws.py (`BinanceFeed`), its windows in Window and Trades, and the
--     backoff of its loop in Backoff.
--   Bot: main.py, `run_bot`. A round (`bot_round`) is a sequence of steps over a `Bot`: the `World` of
--     the executor, the trackers and the price buffer. `run_bot` runs round after round.
--     Bot/Recorder: `price_recorder`, which composes the Binance feed with the price
--     history. Bot/Equity: `equity_snapshot_task`, over the statistics of Storage/Equity.
--   Backtest: backtest/models.py in Models, engine.py in Engine and Engine/Loops, metrics.py in Metrics
--     and Metrics/Compute, monte_carlo.py in MonteCarlo, walk_forward.py in WalkForward, and
--     comparison.py in Comparison and Comparison/Statistics.
--   Dashboard/Broker: dashboard/ws_broker.py (`WSBroker`), with its proofs in Queues, Delivery, Sound
--     and Stream.
--   Dashboard/Security: dashboard/security.py, the token bucket and the middleware.
--   Dashboard/Logs: dashboard/log_buffer.py (`LogBuffer`).
--   Network/VpnGuard: network/vpn_guard.py, the cached check.
--   Notifications/Telegram: notifications/telegram.py (`TelegramNotifier`), its rate limit in Rate.
--   Base, Number: shared helpers, and Python's floats. Tests: concrete inputs.
--
-- Numbers. The float type is a parameter `F` with an instance `Number F`, and theorems name the laws
-- that they need: an order (`IsOrdered`), rounding (`IsRounded`), or exact sums (`IsExact`), which no
-- double has and which only the theorems on accounts and on the token bucket take. The fixed-point
-- numbers of Number/Fixed meet all of them, and the tests run over them. Overflow and NaN are left out.
-- Times are microseconds since the epoch; counts are natural numbers. No definition uses fuel: the
-- loops go over lists, and the attempts of `with_retry` and `find_market` over their number.
--
-- Parameters stand for what is outside the code: the clock, the answers of the Gamma API, the CLOB API
-- and the Telegram API, the order of rows that no ORDER BY settles in PostgreSQL and the text that its
-- column for the indicators keeps (a JSONB in docker/postgres/init.sql), the reading of JSON and of
-- headers, event handlers, the functions that `with_retry` wraps, the rest of the application behind
-- the middleware, the shuffles of `random`, Python's `int` of a float in WalkForward, the square root,
-- and numpy's mean, std, median, percentile and corrcoef. A round of the bot also takes as inputs the
-- snapshot of the feeds, the RSI, the Bollinger band, and the answers of the VPN guard and of the
-- order book. But for Storage/Interleave, every call of the database and of the executor is one step
-- with no other task in between.
--
-- Not modelled: the adapters of the other exchanges, the publisher of metrics in main.py and its
-- wiring, the data provider and the reports of the backtests, the handlers of the dashboard, the
-- choice of the database, monitoring, logging, and reads that serve the dashboard alone.
pub mod Base
pub mod Number
pub mod Core
pub mod Storage
pub mod Market
pub mod Execution
pub mod Strategies
pub mod Bot
pub mod Backtest
pub mod Feeds
pub mod Dashboard
pub mod Notifications
pub mod Network
pub mod Tests
