-- ===== src/Bot.antt =====
-- main.py: `run_bot`, one round of a bot's loop from the snapshot of the feed to the executor. What a
-- round reads of the feeds and of the clock is an input; all parts that `main` creates are there where
-- their setting is on. A round ends by `continue` (`skipped`), by an exception that is logged
-- (`raised`), or at its end, with the trade that was placed. Metrics of Prometheus are left out.
pub mod Gates
pub mod Composite
pub mod Recorder
pub mod Equity
use poly_market_prediction_b.Base.{
  ℕ, String, Bool, true, false, not, Option, none, some, List, [], ◌∷◌, ◌++◌, ◌&&◌, ◌||◌, is_some,
  length, drop, ltb, if◌then◌else◌,
}
use poly_market_prediction_b.Core.Types.{
  Signal, is_skip, RegimeType, RegimeResult, FeedSnapshot, SignalResult, StrategyConfig,
}
use poly_market_prediction_b.Number.{Number, zero_f, one_f}
use poly_market_prediction_b.Storage.{Database}
use poly_market_prediction_b.Storage.History.{save_signal_state}
use poly_market_prediction_b.Strategies.Base.{result}
use poly_market_prediction_b.Strategies.Signals.{Band}
use poly_market_prediction_b.Strategies.Selector.{Selector, get_size_multiplier}
use poly_market_prediction_b.Strategies.Selector
use poly_market_prediction_b.Strategies.Adaptive.{AdaptiveThreshold}
use poly_market_prediction_b.Strategies.Adaptive
use poly_market_prediction_b.Strategies.Trend.{Trends, is_confirmed}
use poly_market_prediction_b.Strategies.Trend
use poly_market_prediction_b.Strategies.Composite.{CompositeConfig, score}
use poly_market_prediction_b.Strategies.Regime.{RegimeNumpy, classify}
use poly_market_prediction_b.Strategies.Correlation.{CorrelationFilter, CorrelationNumpy}
use poly_market_prediction_b.Strategies.Correlation
use poly_market_prediction_b.Execution.State.{
  Inputs, Settings, World, Exit, go, skipped, raised, Act, ◌>>=◌, ◌>>◌, require, or_raise, or_skip,
}
use poly_market_prediction_b.Execution.Executor.{execute}

-- The events "price.updated" and "signal.evaluated".
pub data Update (F : Type 0) : Type 0 where
  price_updated : String → F → F → F → Update F
  signal_evaluated : String → String → Signal → F → Update F

-- A strategy of the bot: `evaluate` reads the adaptive thresholds that it may share.
pub record Strategy (F : Type 0) : Type 0 where
  pub name : String
  pub cfg : StrategyConfig F
  pub is_scaling : Bool
  pub evaluate :
      Option (AdaptiveThreshold F)
      → String
      → FeedSnapshot F
      → Option F
      → Option (Band F)
      → Option (SignalResult F)

-- The settings that the loop reads; `composite` is the scorer's configuration, where there is one.
pub record BotSettings (F : Type 0) : Type 0 where
  pub regime_selector_enabled : Bool
  pub composite_enabled : Bool
  pub composite : Option (CompositeConfig F)
  pub multi_tf_enabled : Bool
  pub correlation_enabled : Bool
  pub execution : Settings F
  pub regime_np : RegimeNumpy F
  pub correlation_np : CorrelationNumpy F

-- What a round reads: the snapshot, `none` while the feed is not healthy, the RSI and the band with
-- its `pct`, the selector, and the times.
pub record Reads (F : Type 0) : Type 0 where
  pub snapshot : Option (FeedSnapshot F)
  pub rsi : Option F
  pub bb : Option (Band F × F)
  pub selector : Option Selector
  pub adaptive_at : ℕ
  pub now : ℕ
  pub saved_at : ℕ
  pub execution : Inputs F

-- What the bot and the parts that it shares keep.
pub record Bot (F : Type 0) : Type 0 where
  pub world : World F
  pub adaptive : Option (AdaptiveThreshold F)
  pub multi_tf : Option (Trends F)
  pub correlation : Option (CorrelationFilter F)
  pub price_buf : List F
  pub updates : List (Update F)

-- `regime.value`
abbrev pub regime_label : RegimeType → String
regime_label RegimeType.trending = "TRENDING"
regime_label RegimeType.ranging = "RANGING"
regime_label RegimeType.volatile = "VOLATILE"
regime_label RegimeType.unknown = "UNKNOWN"

abbrev pub max_prices : ℕ
max_prices = 200

-- `_price_buf.append(...)`, and `pop(0)` from a buffer that is too long.
unfoldable pub push_price : {F : Type 0} → F → List F → List F
push_price price buf =
    let longer = buf ++ (price ∷ []) in
    if ltb max_prices (length longer) then drop 1 longer else longer

-- `map` on what may be missing.
abbrev pub on_some : {A : Type 0} → (A → A) → Option A → Option A
on_some f none = none
on_some f (some a) = some (f a)

module _ {F : Type 0} ⦃num : Number F⦄ where
  open num use {lt}

  -- The trackers are fed with a positive price.
  unfoldable pub feed : Reads F → String → FeedSnapshot F → Bot F → Bot F
  unfolding push_price
  feed i asset snap b =
      let price = snap.last_price in
      if lt zero_f price
      then record b {
        adaptive =
            on_some (Adaptive.update i.adaptive_at asset snap.cvd_2min snap.vwap_change) b.adaptive;
        multi_tf = on_some (Trend.update asset price i.now) b.multi_tf;
        correlation = on_some (Correlation.update asset price i.now) b.correlation;
        price_buf = push_price price b.price_buf;
      }
      else b

  -- Whether the regime selector lets the strategy trade; `none` is its KeyError.
  unfoldable pub regime_allows : BotSettings F → Reads F → String → RegimeType → Option Bool
  regime_allows st i name regime = elim i.selector [
    | none ↦ some true
    | some sel ↦
        if st.regime_selector_enabled then Selector.is_allowed name regime sel else some true
  ]

  -- `strategy._result(Signal.SKIP, 0.0, ...)`
  abbrev pub skip_of : String → String → FeedSnapshot F → SignalResult F → SignalResult F
  skip_of name asset snap r = result name Signal.skip zero_f asset snap r.indicators

  -- Phase 12.4: a low score turns the signal into SKIP. Any other raises: `SignalResult`, of which
  -- the code makes a new one there, is no name of main.py, so that this is a NameError.
  unfoldable pub composite_filter :
      BotSettings F
      → Reads F
      → String
      → String
      → FeedSnapshot F
      → RegimeResult F
      → SignalResult F
      → Act (Bot F) (SignalResult F)
  composite_filter st i name asset snap regime r b = (
    elim st.composite [
      | none ↦ go r
      | some cfg ↦
          let bb_pct : Option (Option F) = elim i.bb [ none ↦ none | some x ↦ some (some x.1) ] in
          if not st.composite_enabled || is_skip r.signal
          then go r
          else if lt (score cfg snap i.rsi bb_pct (some regime)) cfg.min_confidence
          then go (skip_of name asset snap r)
          else raised
    ],
    b,
  )

  -- Phase 12.2
  unfoldable pub confirm_filter :
      BotSettings F
      → String
      → String
      → FeedSnapshot F
      → SignalResult F
      → Act (Bot F) (SignalResult F)
  confirm_filter st name asset snap r b = elim b.multi_tf [
    | none ↦ (go r, b)
    | some trends ↦
        let (confirmed, trends') = is_confirmed asset r.signal trends in
        if not st.multi_tf_enabled || is_skip r.signal then (go r, b) else (
          elim confirmed [
            | none ↦ raised
            | some confirms ↦ if confirms then go r else go (skip_of name asset snap r)
          ],
          record b { multi_tf = some trends' },
        )
  ]

  -- Phase 12.5
  unfoldable pub correlation_filter :
      BotSettings F
      → String
      → String
      → FeedSnapshot F
      → SignalResult F
      → Act (Bot F) (SignalResult F)
  correlation_filter st name asset snap r b = (
    elim b.correlation [
      | none ↦ go r
      | some filter ↦
          if not st.correlation_enabled || is_skip r.signal
          then go r
          else if Correlation.is_allowed st.correlation_np asset r.signal filter
          then go r
          else go (skip_of name asset snap r)
    ],
    b,
  )

  -- From the evaluation to the last filter.
  unfoldable pub decide :
      BotSettings F
      → Reads F
      → Strategy F
      → String
      → FeedSnapshot F
      → RegimeResult F
      → Act (Bot F) (SignalResult F)
  unfolding composite_filter confirm_filter correlation_filter
  decide st i strategy asset snap regime = do
    r ← λ b.
        or_raise
          (strategy.evaluate b.adaptive asset snap i.rsi
            (elim i.bb [ none ↦ none | some x ↦ some x.0 ]))
          b
    r1 ← composite_filter st i strategy.name asset snap regime r
    r2 ← confirm_filter st strategy.name asset snap r1
    correlation_filter st strategy.name asset snap r2

  -- The signal state for the dashboard, and the two events.
  unfoldable pub tell :
      Reads F
      → Strategy F
      → String
      → FeedSnapshot F
      → RegimeResult F
      → SignalResult F
      → Bot F
      → Bot F
  tell i strategy asset snap regime r b =
      let bb_pct : Option F = elim i.bb [ none ↦ none | some x ↦ some x.1 ] in
      record b {
        world = record b.world {
          db =
              save_signal_state i.saved_at strategy.name asset r.signal r.confidence snap i.rsi
                bb_pct (regime_label regime.regime) (some "", none) b.world.db;
        };
        updates =
            b.updates
            ++ (price_updated asset snap.last_price snap.bid snap.ask
                ∷ signal_evaluated strategy.name asset r.signal r.confidence
                ∷ []);
      }

  abbrev pub multiplier_of : BotSettings F → Reads F → String → RegimeType → F
  multiplier_of st i name regime =
      if is_some i.selector && st.regime_selector_enabled
      then get_size_multiplier name regime
      else one_f

  -- The executor, for a signal that is no SKIP; it returns the trade, or None.
  unfoldable pub trade :
      BotSettings F
      → Reads F
      → Strategy F
      → RegimeResult F
      → SignalResult F
      → Act (Bot F) (Option ℕ)
  trade st i strategy regime r b =
      let (exit, world) =
        execute st.execution i.execution strategy.cfg strategy.is_scaling
          (multiplier_of st i strategy.name regime.regime) r b.world in
      if is_skip r.signal then (go none, b) else (
        elim exit [ go id ↦ go (some id) | skipped ↦ go none | raised ↦ raised ],
        record b { world = world },
      )

  -- The regime of the prices so far, and whether the strategy may trade in it.
  unfoldable pub regime_gate : BotSettings F → Reads F → Strategy F → Act (Bot F) (RegimeResult F)
  unfolding regime_allows
  regime_gate st i strategy b =
      let regime = classify st.regime_np b.price_buf in
      (
        elim (regime_allows st i strategy.name regime.regime) [
          | none ↦ raised
          | some allowed ↦ if allowed then go regime else skipped
        ],
        b,
      )

  -- What a round does with its snapshot, once the regime allows the strategy.
  unfoldable pub act_on :
      BotSettings F
      → Reads F
      → Strategy F
      → String
      → FeedSnapshot F
      → RegimeResult F
      → Act (Bot F) (Option ℕ)
  unfolding decide tell trade
  act_on st i strategy asset snap regime = do
    r ← decide st i strategy asset snap regime
    λ b. (go tt, tell i strategy asset snap regime r b)
    trade st i strategy regime r

  unfoldable pub bot_round : BotSettings F → Reads F → Strategy F → String → Act (Bot F) (Option ℕ)
  unfolding feed regime_gate act_on
  bot_round st i strategy asset = do
    snap ← or_skip i.snapshot
    λ b. (go tt, feed i asset snap b)
    regime ← regime_gate st i strategy
    act_on st i strategy asset snap regime

  -- `while True`: the rounds one after the other, whatever way each ends.
  unfoldable pub run_bot : BotSettings F → Strategy F → String → List (Reads F) → Bot F → Bot F
  unfolding bot_round
  run_bot st strategy asset [] b = b
  run_bot st strategy asset (i ∷ is) b =
      run_bot st strategy asset is (bot_round st i strategy asset b).1
