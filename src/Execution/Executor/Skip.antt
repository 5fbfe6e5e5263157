-- ===== src/Execution/Executor/Skip.antt =====
-- `Executor.execute`: a call that returns no trade leaves the trades, balances, counts and events.
use poly_market_prediction_b.Base.{
  ℕ, String, Bool, ◌≡◌, refl, ◌∙◌, arith, Option-cases, inl, inr, ◌⊎◌,
}
use poly_market_prediction_b.Core.Types.{SignalResult, MarketInfo, StrategyConfig, RiskConfig}
use poly_market_prediction_b.Number.{Number}
use poly_market_prediction_b.Storage.{Database}
use poly_market_prediction_b.Storage.History.{log_risk_event}
use poly_market_prediction_b.Storage.Ledger.{reserve_refused}
use poly_market_prediction_b.Execution.Risk.{
  Cooldown, check_all, check_drawdown, check_correlation, check_circuit_breaker, check_streak,
}
use poly_market_prediction_b.Execution.State.{
  Inputs, Settings, World, Exit, go, skipped, raised, Step, ◌>>=◌,
}
use poly_market_prediction_b.Execution.Sizer.{kelly_size}
use poly_market_prediction_b.Execution.Executor.{
  scaled_size, order_of, pre_checks, find_entry, place, execute, size_and_place,
}

module _ {F : Type 0} ⦃num : Number F⦄ where
  -- Nothing has changed but the risk events and the cooldowns.
  pub record IsUntouched (w w' : World F) : Type 0 where
    pub trades : w'.db.trades ≡ w.db.trades
    pub bankroll : w'.db.bankroll ≡ w.db.bankroll
    pub counts : w'.counts ≡ w.counts
    pub published : w'.published ≡ w.published

  check_all_keeps :
      (cfg : RiskConfig F) (now trigger_at : ℕ) (s a : String) (c : Cooldown) (db : Database F)
      → let db' = (check_all cfg now trigger_at s a (c, db)).2 in
        (db'.trades ≡ db.trades) × (db'.bankroll ≡ db.bankroll)
  unfolding check_all check_drawdown check_correlation check_circuit_breaker check_streak
      log_risk_event
  check_all_keeps cfg now trigger_at s a c db = ground arith

  pre_checks_keeps :
      (s : Settings F) (i : Inputs F) (cfg : StrategyConfig F) (r : SignalResult F) (w : World F)
      → IsUntouched w (pre_checks s i cfg r w).1
  unfolding pre_checks log_risk_event
  pre_checks_keeps s i cfg r w =
      ground
        (arith, check_all_keeps s.risk i.risk_at i.trigger_at r.strategy r.asset w.cooldown w.db)

  find_entry_keeps :
      (s : Settings F) (i : Inputs F) (cfg : StrategyConfig F) (scaling : Bool) (r : SignalResult F)
      (w : World F)
      → (find_entry s i cfg scaling r w).1 ≡ w
  unfolding find_entry
  find_entry_keeps s i cfg scaling r w = ground arith

  place_keeps :
      (s : Settings F) (i : Inputs F) (r : SignalResult F) (market : MarketInfo F) (price size : F)
      (w w' : World F)
      → place s i r market price size w ≡ (skipped, w')
      → IsUntouched w w'
  unfolding place
  place_keeps s i r market price size w w' h =
      ground (arith, reserve_refused i.inserted_at (order_of i r market price size) w.db)

  size_and_place_keeps :
      (s : Settings F) (i : Inputs F) (multiplier : F) (r : SignalResult F) (bankroll : F)
      (entry : MarketInfo F × F) (w w' : World F)
      → size_and_place s i multiplier r bankroll entry w ≡ (skipped, w')
      → IsUntouched w w'
  unfolding size_and_place
  size_and_place_keeps s i multiplier r bankroll (market, price) w w' h =
      elim (Option-cases (kelly_size s.sizer r.strategy r.asset bankroll w.db)) [
        | inl e ↦ absurd (ground arith)
        | inr (size, e) ↦
            place_keeps s i r market price (scaled_size multiplier size) w w' (ground arith)
      ]

  -- Inversion of a sequence that is skipped.
  >>=-eq-skipped :
      {A B : Type 0} (m : Step F A) (f : A → Step F B) (w w' : World F)
      → (m >>= f) w ≡ (skipped, w')
      → (w' ≡ (m w).1) ⊎ ((a : A) × (f a (m w).1 ≡ (skipped, w')))
  >>=-eq-skipped m f w w' h = by_exit (m w) refl
    where
      by_exit :
          (o : Exit _ × World F)
          → m w ≡ o
          → (w' ≡ (m w).1) ⊎ ((a : _) × (f a (m w).1 ≡ (skipped, w')))
      by_exit (go a, v) e = inr (a, ground arith)
      by_exit (skipped, v) e = inl (ground arith)
      by_exit (raised, v) e = absurd (ground arith)

  IsUntouched-trans : (a b c : World F) → IsUntouched a b → IsUntouched b c → IsUntouched a c
  IsUntouched-trans a b c h k = ground arith

  -- A call that returns `None` leaves the trades, the balances, the window counts and the published
  -- events as they were.
  pub execute_skips :
      (s : Settings F) (i : Inputs F) (cfg : StrategyConfig F) (scaling : Bool) (multiplier : F)
      (r : SignalResult F) (w w' : World F)
      → execute s i cfg scaling multiplier r w ≡ (skipped, w')
      → IsUntouched w w'
  unfolding execute
  execute_skips s i cfg scaling multiplier r w w' h =
      let first = pre_checks_keeps s i cfg r w in
      let v = (pre_checks s i cfg r w).1 in
      elim (>>=-eq-skipped (pre_checks s i cfg r)
        (λ b. find_entry s i cfg scaling r >>= size_and_place s i multiplier r b) w w' h) [
          | inl e ↦ rw (← e) at first
          | inr (b, k) ↦
              elim (>>=-eq-skipped (find_entry s i cfg scaling r)
                (size_and_place s i multiplier r b) v w' k) [
                  | inl e ↦ rw (← (e ∙ find_entry_keeps s i cfg scaling r v)) at first
                  | inr (entry, l) ↦ IsUntouched-trans w v w' first (
                      size_and_place_keeps s i multiplier r b entry v w'
                        (rw (find_entry_keeps s i cfg scaling r v) at l))
                ]
        ]
