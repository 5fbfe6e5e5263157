-- ===== src/Bot/Gates.antt =====
-- main.py: `run_bot`, what holds when a round places a trade.
use poly_market_prediction_b.Base.{
  ℕ, String, Bool, true, false, not, ◌≡◌, Option, none, some, ◌||◌, arith, Option-cases, inl, inr,
}
use poly_market_prediction_b.Core.Types.{Signal, is_skip, RegimeResult, FeedSnapshot, SignalResult}
use poly_market_prediction_b.Number.{Number}
use poly_market_prediction_b.Storage.History.{save_signal_state}
use poly_market_prediction_b.Strategies.Base.{result}
use poly_market_prediction_b.Strategies.Regime.{classify}
use poly_market_prediction_b.Strategies.Trend.{Trends, is_confirmed}
use poly_market_prediction_b.Strategies.Correlation.{CorrelationFilter}
use poly_market_prediction_b.Strategies.Correlation
use poly_market_prediction_b.Execution.State.{go, Exit-cases}
use poly_market_prediction_b.Execution.Executor.{execute}
use poly_market_prediction_b.Bot.{
  Bot, BotSettings, Reads, Strategy, feed, regime_allows, regime_gate, composite_filter,
  confirm_filter, correlation_filter, decide, tell, trade, act_on, bot_round, multiplier_of,
}

module _ {F : Type 0} ⦃num : Number F⦄ where
  -- The composite scorer is off.
  abbrev pub is_unscored : BotSettings F → Bool
  is_unscored st = elim st.composite [ none ↦ true | some _ ↦ not st.composite_enabled ]

  -- The two trackers, where they are on, have nothing against the signal.
  abbrev pub confirms : BotSettings F → String → Signal → Option (Trends F) → Bool
  confirms st asset direction multi_tf = elim multi_tf [
    | none ↦ true
    | some trends ↦
        not st.multi_tf_enabled
        || elim (is_confirmed asset direction trends).0 [ none ↦ false | some c ↦ c ]
  ]

  abbrev pub permits : BotSettings F → String → Signal → Option (CorrelationFilter F) → Bool
  permits st asset direction correlation = elim correlation [
    | none ↦ true
    | some filter ↦
        not st.correlation_enabled
        || Correlation.is_allowed st.correlation_np asset direction filter
  ]

  -- A round has placed the trade `id`, from the bot `b` on: `fed` is the bot once it has taken in the
  -- snapshot, and `told` once it has told its signal.
  pub record HasPlaced (st : BotSettings F) (i : Reads F) (s : Strategy F) (asset : String)
      (b : Bot F) (id : ℕ) (snap : FeedSnapshot F) (r : SignalResult F) (told : Bot F)
      : Type 0 where
    pub healthy : i.snapshot ≡ some snap
    pub allowed :
        regime_allows st i s.name (classify st.regime_np (feed i asset snap b).price_buf).regime
        ≡ some true
    pub evaluated :
        s.evaluate
          (feed i asset snap b).adaptive
          asset
          snap
          i.rsi
          (elim i.bb [ none ↦ none | some x ↦ some x.0 ])
        ≡ some r
    pub signalled : is_skip r.signal ≡ false
    pub unscored : is_unscored st ≡ true
    pub confirmed : confirms st asset r.signal (feed i asset snap b).multi_tf ≡ true
    pub permitted : permits st asset r.signal (feed i asset snap b).correlation ≡ true
    pub trades : told.world.db.trades ≡ b.world.db.trades
    pub bankroll : told.world.db.bankroll ≡ b.world.db.bankroll
    pub counts : told.world.counts ≡ b.world.counts
    pub executed :
        (execute st.execution i.execution s.cfg s.is_scaling
          (multiplier_of st i s.name (classify st.regime_np (feed i asset snap b).price_buf).regime)
          r
          told.world).0
        ≡ go id

  pub feed_world :
      (i : Reads F) (asset : String) (snap : FeedSnapshot F) (b : Bot F)
      → (feed i asset snap b).world ≡ b.world
  unfolding feed
  feed_world i asset snap b = ground arith

  pub decide_world :
      (st : BotSettings F) (i : Reads F) (s : Strategy F) (asset : String) (snap : FeedSnapshot F)
      (regime : RegimeResult F) (b : Bot F)
      → (decide st i s asset snap regime b).1.world ≡ b.world
  unfolding decide composite_filter confirm_filter correlation_filter
  decide_world st i s asset snap regime b = ground arith

  decide_signal :
      (st : BotSettings F) (i : Reads F) (s : Strategy F) (asset : String) (snap : FeedSnapshot F)
      (regime : RegimeResult F) (r : SignalResult F) (b : Bot F)
      → (decide st i s asset snap regime b).0 ≡ go r
      → is_skip r.signal ≡ false
      → (s.evaluate b.adaptive asset snap i.rsi (elim i.bb [ none ↦ none | some x ↦ some x.0 ])
          ≡ some r)
        × (is_unscored st ≡ true)
        × (confirms st asset r.signal b.multi_tf ≡ true)
        × (permits st asset r.signal b.correlation ≡ true)
  unfolding decide composite_filter confirm_filter correlation_filter result
  decide_signal st i s asset snap regime r b h k = ground arith

  act_on_placed :
      (st : BotSettings F) (i : Reads F) (s : Strategy F) (asset : String) (snap : FeedSnapshot F)
      (regime : RegimeResult F) (b : Bot F) (id : ℕ)
      → (act_on st i s asset snap regime b).0 ≡ go (some id)
      → (r : SignalResult F) × (told : Bot F) × ((decide st i s asset snap regime b).0 ≡ go r)
        × (is_skip r.signal ≡ false)
        × (told.world.db.trades ≡ b.world.db.trades)
        × (told.world.db.bankroll ≡ b.world.db.bankroll)
        × (told.world.counts ≡ b.world.counts)
        × ((execute st.execution i.execution s.cfg s.is_scaling
              (multiplier_of st i s.name regime.regime)
              r
              told.world).0
            ≡ go id)
  unfolding act_on trade tell save_signal_state
  act_on_placed st i s asset snap regime b id h =
      elim (Exit-cases (decide st i s asset snap regime b).0) [
        | inl (r, e) ↦
            let told = tell i s asset snap regime r (decide st i s asset snap regime b).1 in
            let kept = decide_world st i s asset snap regime b in
            (r, told, e, ground arith, ground arith, ground arith, ground arith, ground arith)
        | inr (inl e) ↦ absurd (ground arith)
        | inr (inr e) ↦ absurd (ground arith)
      ]

  -- A round that places a trade had a healthy feed, a regime that its strategy may trade in, and a
  -- signal that the strategy gave itself, with the composite scorer off. Multi-timeframe trend and
  -- correlation, where they are on, have let it pass, and the executor has placed it, with the size
  -- multiplier of the regime.
  pub bot_round_places :
      (st : BotSettings F) (i : Reads F) (s : Strategy F) (asset : String) (b : Bot F) (id : ℕ)
      → (bot_round st i s asset b).0 ≡ go (some id)
      → (snap : FeedSnapshot F) × (r : SignalResult F) × (told : Bot F) × HasPlaced st i s asset b
          id snap r told
  unfolding bot_round regime_gate
  bot_round_places st i s asset b id h = elim (Option-cases i.snapshot) [
    | inl e ↦ absurd (ground arith)
    | inr (snap, e) ↦
        let fed = feed i asset snap b in
        let regime = classify st.regime_np fed.price_buf in
        let allowed : regime_allows st i s.name regime.regime ≡ some true = ground arith in
        let same = feed_world i asset snap b in
        let (r, told, d, k, t, a, n, x) =
          act_on_placed st i s asset snap regime fed id (ground arith) in
        let (v, u, c, p) = decide_signal st i s asset snap regime r fed d k in
        (
          snap,
          r,
          told,
          record {
            healthy = e;
            allowed = allowed;
            evaluated = v;
            signalled = k;
            unscored = u;
            confirmed = c;
            permitted = p;
            trades = ground arith;
            bankroll = ground arith;
            counts = ground arith;
            executed = x;
          },
        )
  ]
