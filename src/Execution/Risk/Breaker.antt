-- ===== src/Execution/Risk/Breaker.antt =====
-- execution/risk.py: the circuit breaker over time.
use poly_market_prediction_b.Base.{
  ℕ, ◌+◌, ◌*◌, ◌<◌, ◌==◌, leb, all, select, String, Bool, true, false, not, ◌≡◌, refl, ◌∙◌, Option,
  none, some, List, [], ◌∷◌, string_eq, pair_eq, ◌&&◌, ◌||◌, if◌then◌else◌, ltb, length, arith, All,
  length-append,
}
use poly_market_prediction_b.Base.Dict.{lookup, erase, lookup-insert, beq_self}
use poly_market_prediction_b.Core.Types.{RiskConfig, Outcome, Signal, is_yes, is_no}
use poly_market_prediction_b.Number.{Number, zero_f, of_ℕ}
use poly_market_prediction_b.Storage.{Database, Bankroll, Trade, is_open, RiskKind}
use poly_market_prediction_b.Storage.Trades.{
  get_recent_outcomes, resolved_trades, count_open_by_direction,
}
use poly_market_prediction_b.Storage.Accounts.{get_bankroll, get_bankroll_peak, get_all_bankrolls}
use mathlib.Core.List.{foldl}
use poly_market_prediction_b.Storage.History.{log_risk_event}
use poly_market_prediction_b.Execution.Risk.{
  Cooldown, second, cooldown_time, is_losing_streak, check_streak, check_circuit_breaker, check_all,
  check_drawdown, exceeds_drawdown, check_correlation,
}

abbrev pub is_cooling : ℕ → String → String → Cooldown → Bool
is_cooling now s a c = elim (lookup (s, a) c) [ none ↦ false | some t ↦ ltb now t ]

-- A trade that is recorded as lost.
abbrev pub is_lost : Option Outcome → Bool
is_lost (some Outcome.loss) = true
is_lost _ = false

refuses :
    (drawn mixed cooling losing : Bool)
    → losing ≡ true
    → ((not drawn && not mixed) && (not cooling && not losing)) ≡ false
refuses drawn mixed cooling losing h = ground arith

module _ {F : Type 0} ⦃num : Number F⦄ where
  open num use {add, sub, div, lt, le}

  -- Once the breaker has tripped, every check before the end of the cooldown refuses, whatever the
  -- database holds by then, and changes nothing.
  pub check_circuit_breaker_pauses :
      (cfg : RiskConfig F) (tripped_at now later : ℕ) (s a : String) (c : Cooldown)
      (db db' : Database F)
      → let (allowed, c', _) = check_streak cfg tripped_at s a (c, db) in
        allowed ≡ false
        → now < tripped_at + cooldown_time cfg a * second
        → check_circuit_breaker cfg now later s a (c', db') ≡ (false, c', db')
  unfolding check_streak check_circuit_breaker
  check_circuit_breaker_pauses cfg tripped_at now later s a c db db' h early = ground (
    arith,
    lookup-insert (s, a) (s, a) (tripped_at + cooldown_time cfg a * second) c,
    beq_self {K = String × String} (s, a),
  )

  -- What a check that answers `allowed` leaves: the trades, and one risk event more if it refuses.
  record IsLogged (allowed : Bool) (db db' : Database F) : Type 0 where
    trades : db'.trades ≡ db.trades
    events : length db'.risk_events ≡ length db.risk_events + (if allowed then 0 else 1)
    same : allowed ≡ true → db' ≡ db

  log_risk_event_lem :
      (now : ℕ) (kind : RiskKind) (s a : Option String) (details : List F) (db : Database F)
      → IsLogged false db (log_risk_event now kind s a details db)
  unfolding log_risk_event
  log_risk_event_lem now kind s a details db = record {
    trades = refl;
    events = length-append db.risk_events _;
    same = ground arith;
  }

  check_drawdown_logs :
      (cfg : RiskConfig F) (now : ℕ) (s a : String) (db : Database F)
      → let (allowed, db') = check_drawdown cfg now s a db in IsLogged allowed db db'
  unfolding check_drawdown
  check_drawdown_logs cfg now s a db = grind (arith, log_risk_event_lem)

  check_correlation_logs :
      (cfg : RiskConfig F) (now : ℕ) (a : String) (db : Database F)
      → let (allowed, db') = check_correlation cfg now a db in IsLogged allowed db db'
  unfolding check_correlation
  check_correlation_logs cfg now a db = grind (arith, log_risk_event_lem)

  check_streak_logs :
      (cfg : RiskConfig F) (now : ℕ) (s a : String) (c : Cooldown) (db : Database F)
      → let (allowed, _, db') = check_streak cfg now s a (c, db) in
        (allowed ≡ not (is_losing_streak cfg s a db)) × IsLogged allowed db db'
  unfolding check_streak
  check_streak_logs cfg now s a c db = grind (arith, log_risk_event_lem)

  -- The account, or the accounts of an asset taken together, have lost at least a share of their peak,
  -- which is positive.
  abbrev pub reaches : F → F → F → Bool
  reaches limit peak current = lt zero_f peak && le limit (div (sub peak current) peak)

  abbrev pub total_of : (Bankroll F → F) → String → Database F → F
  total_of f asset db =
      foldl (λ acc (r : Bankroll F). add acc (f r)) zero_f
        (select (λ (r : Bankroll F). r.asset == asset) db.bankroll)

  abbrev pub is_drawn_down : RiskConfig F → String → String → Database F → Bool
  is_drawn_down cfg s a db =
      reaches cfg.strategy_drawdown_disable (get_bankroll_peak s a db) (get_bankroll s a db)
      || reaches cfg.portfolio_drawdown_pause (total_of (λ r. r.peak) a db)
          (total_of (λ r. r.current) a db)

  abbrev pub open_on : (Signal → Bool) → String → Database F → ℕ
  open_on side a db = length (
      select (λ (t : Trade F). side t.signal)
        (select (λ (t : Trade F). t.asset == a && is_open t) db.trades))

  -- Three open trades on an asset or more, of which one side has more than the share.
  abbrev pub is_one_sided : RiskConfig F → String → Database F → Bool
  is_one_sided cfg a db =
      let yeses = open_on is_yes a db in
      let noes = open_on is_no a db in
      let more = if ltb yeses noes then noes else yeses in
      leb 3 (yeses + noes)
      && lt cfg.max_unidirectional_exposure_pct (div (of_ℕ more) (of_ℕ (yeses + noes)))

  -- As many last outcomes as the limit, all of them losses.
  abbrev pub losing_streak : RiskConfig F → String → String → Database F → Bool
  losing_streak cfg s a db =
      let limit = cfg.circuit_breaker_consecutive_losses in
      let last = get_recent_outcomes s a limit db in leb limit (length last) && all is_lost last

  check_drawdown-is_drawn_down :
      (cfg : RiskConfig F) (now : ℕ) (s a : String) (db : Database F)
      → (check_drawdown cfg now s a db).0 ≡ not (is_drawn_down cfg s a db)
  unfolding check_drawdown exceeds_drawdown get_all_bankrolls
  check_drawdown-is_drawn_down cfg now s a db = ground arith

  check_correlation-is_one_sided :
      (cfg : RiskConfig F) (now : ℕ) (a : String) (db : Database F)
      → (check_correlation cfg now a db).0 ≡ not (is_one_sided cfg a db)
  unfolding check_correlation count_open_by_direction
  check_correlation-is_one_sided cfg now a db = ground arith

  -- A trade is allowed exactly when all of this holds. Neither the account nor the sum of the
  -- accounts of the asset has a positive peak of which it has lost the limit or more. Of the open
  -- trades on the asset, where they are three or more, no side has more than the limit. The strategy
  -- and asset are in no cooldown, and their last outcomes are no losing streak: fewer than the limit,
  -- or not all of them losses. A refusal writes one risk event, but for one in a cooldown, which
  -- writes none. No trade is changed.
  pub check_all_lem :
      (cfg : RiskConfig F) (now trigger_at : ℕ) (s a : String) (c : Cooldown) (db : Database F)
      → let (allowed, _, db') = check_all cfg now trigger_at s a (c, db) in
        let sound = not (is_drawn_down cfg s a db) && not (is_one_sided cfg a db) in
        (allowed ≡ (sound && (not (is_cooling now s a c) && not (losing_streak cfg s a db))))
        × (length db'.risk_events
            ≡ length db.risk_events + (if allowed || (sound && is_cooling now s a c) then 0 else 1))
        × (db'.trades ≡ db.trades)
  unfolding check_all check_circuit_breaker is_losing_streak
  check_all_lem cfg now trigger_at s a c db =
      let db' = (check_drawdown cfg now s a db).1 in
      ground (
        arith,
        check_drawdown-is_drawn_down cfg now s a db,
        check_correlation-is_one_sided cfg now a db,
        check_correlation-is_one_sided cfg now a db',
        check_drawdown_logs cfg now s a db,
        check_correlation_logs cfg now a db,
        check_correlation_logs cfg now a db',
        check_streak_logs cfg trigger_at s a c db,
        check_streak_logs cfg trigger_at s a (erase (s, a) c) db,
      )

  check_all_refuses :
      (cfg : RiskConfig F) (now trigger_at : ℕ) (s a : String) (c : Cooldown) (db : Database F)
      → is_losing_streak cfg s a db ≡ true
      → let (allowed, _, db') = check_all cfg now trigger_at s a (c, db) in
        (allowed ≡ false) × (db'.trades ≡ db.trades)
  unfolding is_losing_streak
  check_all_refuses cfg now trigger_at s a c db h =
      let (allowed, _, trades) = check_all_lem cfg now trigger_at s a c db in
      let lost : losing_streak cfg s a db ≡ true = h in
      (
        allowed
            ∙ refuses (is_drawn_down cfg s a db) (is_one_sided cfg a db) (is_cooling now s a c) _
                lost,
        trades,
      )

  -- The answers of the checks at some times, with nothing else writing in between.
  unfoldable pub answers :
      RiskConfig F → String → String → List (ℕ × ℕ) → Cooldown × Database F → List Bool
  answers cfg s a [] st = []
  answers cfg s a ((now, trigger_at) ∷ times) st =
      let (allowed, c, db) = check_all cfg now trigger_at s a st in
      allowed ∷ answers cfg s a times (c, db)

  is_losing_streak_keeps :
      (cfg : RiskConfig F) (s a : String) (db db' : Database F)
      → db'.trades ≡ db.trades
      → is_losing_streak cfg s a db' ≡ is_losing_streak cfg s a db
  unfolding is_losing_streak get_recent_outcomes resolved_trades
  is_losing_streak_keeps cfg s a db db' h = ground arith

  -- While the last outcomes of a strategy and asset are a losing streak, every check refuses, at
  -- any time and however often it is made: a cooldown that ends is started again.
  pub answers_refuse :
      (cfg : RiskConfig F) (s a : String) (times : List (ℕ × ℕ)) (c : Cooldown) (db : Database F)
      → is_losing_streak cfg s a db ≡ true
      → All (λ b. b ≡ false) (answers cfg s a times (c, db))
  unfolding answers
  answers_refuse cfg s a [] c db h = tt
  answers_refuse cfg s a ((now, trigger_at) ∷ times) c db h =
      let (allowed, trades) = check_all_refuses cfg now trigger_at s a c db h in
      let (_, c', db') = check_all cfg now trigger_at s a (c, db) in
      (
        ground arith,
        answers_refuse cfg s a times c' db' (is_losing_streak_keeps cfg s a db db' trades ∙ h),
      )
