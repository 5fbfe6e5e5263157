-- ===== src/Bot/Composite.antt =====
-- main.py: `run_bot` with the composite scorer, as `main` runs it by default.
use poly_market_prediction_b.Base.{
  String, true, ◌≡◌, ◌∙◌, refl, ap, some, List, [], ◌∷◌, arith, Option-cases, inl, inr,
}
use poly_market_prediction_b.Core.Types.{is_skip, RegimeResult, FeedSnapshot, SignalResult}
use poly_market_prediction_b.Number.{Number}
use poly_market_prediction_b.Storage.History.{save_signal_state}
use poly_market_prediction_b.Strategies.Base.{result}
use poly_market_prediction_b.Strategies.Composite.{CompositeConfig}
use poly_market_prediction_b.Execution.State.{World, go, Exit-cases}
use poly_market_prediction_b.Bot.{
  Bot, BotSettings, Reads, Strategy, feed, regime_gate, composite_filter, confirm_filter,
  correlation_filter, decide, tell, trade, act_on, bot_round, run_bot,
}
use poly_market_prediction_b.Bot.Gates.{feed_world, decide_world}

module _ {F : Type 0} ⦃num : Number F⦄ where
  -- Trades, balances, cooldowns, window counts and trade events are as they were.
  pub record IsIdle (w w' : World F) : Type 0 where
    pub trades : w'.db.trades ≡ w.db.trades
    pub bankroll : w'.db.bankroll ≡ w.db.bankroll
    pub cooldown : w'.cooldown ≡ w.cooldown
    pub counts : w'.counts ≡ w.counts
    pub published : w'.published ≡ w.published

  IsIdle-trans : (u v w : World F) → IsIdle u v → IsIdle v w → IsIdle u w
  IsIdle-trans u v w h k = record {
    trades = k.trades ∙ h.trades;
    bankroll = k.bankroll ∙ h.bankroll;
    cooldown = k.cooldown ∙ h.cooldown;
    counts = k.counts ∙ h.counts;
    published = k.published ∙ h.published;
  }

  IsIdle-eq : (w w' : World F) → w' ≡ w → IsIdle w w'
  IsIdle-eq w w' e = record {
    trades = ap (λ (u : World F). u.db.trades) e;
    bankroll = ap (λ (u : World F). u.db.bankroll) e;
    cooldown = ap (λ (u : World F). u.cooldown) e;
    counts = ap (λ (u : World F). u.counts) e;
    published = ap (λ (u : World F). u.published) e;
  }

  module _ (st : BotSettings F) (cfg : CompositeConfig F) (scored : st.composite ≡ some cfg)
      (enabled : st.composite_enabled ≡ true) where
    decide_go :
        (i : Reads F) (s : Strategy F) (asset : String) (snap : FeedSnapshot F)
        (regime : RegimeResult F) (r : SignalResult F) (b : Bot F)
        → (decide st i s asset snap regime b).0 ≡ go r
        → is_skip r.signal ≡ true
    unfolding decide composite_filter confirm_filter correlation_filter result
    decide_go i s asset snap regime r b h = ground arith

    act_on-IsIdle :
        (i : Reads F) (s : Strategy F) (asset : String) (snap : FeedSnapshot F)
        (regime : RegimeResult F) (b : Bot F)
        → IsIdle b.world (act_on st i s asset snap regime b).1.world
    unfolding act_on tell trade save_signal_state
    act_on-IsIdle i s asset snap regime b =
        let kept = decide_world st i s asset snap regime b in
        elim (Exit-cases (decide st i s asset snap regime b).0) [
          | inl (r, e) ↦
              let skip = decide_go i s asset snap regime r b e in
              record {
                trades = ground arith;
                bankroll = ground arith;
                cooldown = ground arith;
                counts = ground arith;
                published = ground arith;
              }
          | inr (inl e) ↦ ground arith
          | inr (inr e) ↦ ground arith
        ]

    -- A round places no trade, and changes nothing of the world but the signal state.
    bot_round-IsIdle :
        (i : Reads F) (s : Strategy F) (asset : String) (b : Bot F)
        → IsIdle b.world (bot_round st i s asset b).1.world
    unfolding bot_round regime_gate
    bot_round-IsIdle i s asset b = elim (Option-cases i.snapshot) [
      | inl e ↦ IsIdle-eq _ _ (ground arith)
      | inr (snap, e) ↦
          let fed = feed i asset snap b in
          let same = feed_world i asset snap b in
          elim (Exit-cases (regime_gate st i s fed).0) [
            | inl (regime, d) ↦
                let acted = act_on-IsIdle i s asset snap regime fed in
                record {
                  trades = ground (arith, acted.trades);
                  bankroll = ground (arith, acted.bankroll);
                  cooldown = ground (arith, acted.cooldown);
                  counts = ground (arith, acted.counts);
                  published = ground (arith, acted.published);
                }
            | inr (inl d) ↦ IsIdle-eq _ _ (ground arith)
            | inr (inr d) ↦ IsIdle-eq _ _ (ground arith)
          ]
    ]

    -- However long a bot runs with the composite scorer enabled, it places no trade: trades,
    -- balances, cooldowns, window counts and trade events stay as they are.
    pub run_bot-IsIdle :
        (s : Strategy F) (asset : String) (reads : List (Reads F)) (b : Bot F)
        → IsIdle b.world (run_bot st s asset reads b).world
    unfolding run_bot
    run_bot-IsIdle s asset [] b = IsIdle-eq _ _ refl
    run_bot-IsIdle s asset (i ∷ is) b =
        let b' = (bot_round st i s asset b).1 in
        IsIdle-trans b.world b'.world _ (bot_round-IsIdle i s asset b)
          (run_bot-IsIdle s asset is b')
