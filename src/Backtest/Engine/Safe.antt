-- ===== src/Backtest/Engine/Safe.antt =====
-- backtest/engine.py: both loops answer, and their trades are the entries of one account.
use poly_market_prediction_b.Base.{
  ℕ, ◌+◌, ◌-◌, ◌≤◌, true, false, Option, ◌≡◌, refl, sym, ap, ◌∙◌, some, List, [], ◌∷◌, ◌++◌, map,
  arith, Bool-cases, inl, inr, length, is_some, some_of, length-append, String, ◌==◌, string_eq,
}
use mathlib.Core.List.{map-append, append-nil, append_assoc}
use poly_market_prediction_b.Core.Types.{Signal, is_skip, FeedSnapshot, SignalResult, Indicators}
use poly_market_prediction_b.Number.{Number}
use poly_market_prediction_b.Number.Order.{◌≼◌, IsOrdered, IsRounded}
use poly_market_prediction_b.Strategies.Signals.{Band}
use poly_market_prediction_b.Backtest.Models.{ExitOutcome, BacktestConfig, SimulatedTrade}
use poly_market_prediction_b.Backtest.Engine.{
  BaseStrategy, Bar, Replay, simulate, record_trade, bet_of, compute_pnl, apply_slippage,
  determine_outcome,
}
use poly_market_prediction_b.Backtest.Engine.Loops.{
  DbRecord, outcome_of, signal_of, time_of, start, is_low, act, replay_bar, replay_bars,
  replay_snapshots, raw_entry, round_indicator, simulate_record, simulate_records,
  simulate_from_db_records,
}
use poly_market_prediction_b.Backtest.Engine.Bets.{
  IsPrice, apply_slippage-IsPrice, bet_of-le, bet_of_some, compute_pnl_some,
}

module _ {F : Type 0} ⦃num : Number F⦄ where
  open num use {dec, add, round}

  -- The bankroll that a trade leaves, and the one that a list of trades leaves.
  abbrev pub after : F → SimulatedTrade F → F
  after bankroll t = round 6 (add bankroll t.pnl)

  abbrev pub balance : F → List (SimulatedTrade F) → F
  balance bankroll [] = bankroll
  balance bankroll (t ∷ ts) = balance (after bankroll t) ts

  -- An entry of the account: no bet above the bankroll, a price between 0.001 and 0.999, and the
  -- bankroll that the P&L leaves.
  pub record IsEntry (bankroll : F) (t : SimulatedTrade F) : Type 0 where
    pub covered : t.bet_size ≼ round 6 bankroll
    pub lower : round 6 (dec 1 3) ≼ t.entry_price
    pub upper : t.entry_price ≼ round 6 (dec 999 3)
    pub told : t.bankroll_after ≡ round 4 (after bankroll t)

  -- Every trade is an entry, made at a bankroll that `Q` holds of.
  abbrev pub Books : (Q : F → Type 0) → F → List (SimulatedTrade F) → Type 0
  Books Q bankroll [] = Unit
  Books Q bankroll (t ∷ ts) = Q bankroll × IsEntry bankroll t × Books Q (after bankroll t) ts

  abbrev pub outcomes : List (SimulatedTrade F) → List ExitOutcome
  outcomes = map (λ (t : SimulatedTrade F). t.exit_outcome)

  -- The outcome of each trade, by the text of the record that it stands for.
  abbrev pub Replayed : List (DbRecord F) → List (SimulatedTrade F) → Type 0
  Replayed [] [] = Unit
  Replayed [] (t ∷ ts) = ⊥
  Replayed (r ∷ rs) [] = ⊥
  Replayed (r ∷ rs) (t ∷ ts) =
      (r.outcome ≡ "WIN" → t.exit_outcome ≡ ExitOutcome.win)
      × ((r.outcome ≡ "WIN" → ⊥) → t.exit_outcome ≡ ExitOutcome.loss)
      × Replayed rs ts

  outcomes-Replayed :
      (rs : List (DbRecord F)) (ts : List (SimulatedTrade F))
      → outcomes ts ≡ map (λ (r : DbRecord F). outcome_of r.outcome) rs
      → Replayed rs ts
  outcomes-Replayed [] [] h = tt
  outcomes-Replayed [] (t ∷ ts) h = absurd (ground arith)
  outcomes-Replayed (r ∷ rs) [] h = absurd (ground arith)
  outcomes-Replayed (r ∷ rs) (t ∷ ts) h =
      let won : t.exit_outcome ≡ outcome_of r.outcome = ground arith in
      let same = string_eq.beq_iff r.outcome "WIN" in
      elim (Bool-cases (r.outcome == "WIN")) [
        | inl e ↦ (
          λ _. ground arith,
          λ other. absurd (other (same.0 e)),
          outcomes-Replayed rs ts (ground arith),
        )
        | inr e ↦ (
          λ w. absurd (ground (arith, same.1 w)),
          λ _. ground arith,
          outcomes-Replayed rs ts (ground arith),
        )
      ]

  balance-append :
      (b : F) (ts : List (SimulatedTrade F)) (t : SimulatedTrade F)
      → balance b (ts ++ (t ∷ [])) ≡ after (balance b ts) t
  balance-append b [] t = refl
  balance-append b (u ∷ ts) t = balance-append (after b u) ts t

  Books-append :
      (Q : F → Type 0) (b : F) (ts : List (SimulatedTrade F)) (t : SimulatedTrade F)
      → Books Q b ts
      → Q (balance b ts)
      → IsEntry (balance b ts) t
      → Books Q b (ts ++ (t ∷ []))
  Books-append Q b [] t h q e = (q, e, tt)
  Books-append Q b (u ∷ ts) t (p, d, h) q e = (p, d, Books-append Q (after b u) ts t h q e)

  -- The state of a loop: its trades are the entries of an account that the bankroll is the balance of.
  abbrev Kept : (Q : F → Type 0) → F → Replay F → Type 0
  Kept Q b s = Books Q b s.trades × (s.bankroll ≡ balance b s.trades)

  -- A round of a loop has added one trade, with this outcome.
  abbrev Added : (Q : F → Type 0) → F → ExitOutcome → Replay F → Replay F → Type 0
  Added Q b outcome s s' =
      Kept Q b s'
      × (length s'.trades ≡ length s.trades + 1)
      × (outcomes s'.trades ≡ outcomes s.trades ++ (outcome ∷ []))

  module _ (laws : IsOrdered F) (rounded : IsRounded F) where
    record_trade-Added :
        (Q : F → Type 0) (b : F) (ts : ℕ) (signal : Signal) (confidence : F) (ind : Indicators F)
        (price bet : F) (outcome : ExitOutcome) (pnl : F) (s : Replay F)
        → Kept Q b s
        → Q s.bankroll
        → IsPrice price
        → bet ≼ s.bankroll
        → Added Q b outcome s (record_trade ts signal confidence ind price bet outcome pnl s)
    unfolding record_trade
    record_trade-Added Q b ts signal confidence ind price bet outcome pnl s (h, e) q p le =
        let t : SimulatedTrade F = record {
          timestamp = ts;
          signal = signal;
          entry_price = round 6 price;
          exit_outcome = outcome;
          bet_size = round 6 bet;
          pnl = pnl;
          confidence = confidence;
          bankroll_after = round 4 (round 6 (add s.bankroll pnl));
          indicators = ind;
        } in
        let entry : IsEntry (balance b s.trades) t = record {
          covered = rounded.round_mono 6 bet _ (rw e at le);
          lower = rounded.round_mono 6 (dec 1 3) price p.lower;
          upper = rounded.round_mono 6 price (dec 999 3) p.upper;
          told = ground arith;
        } in
        (
          (
            Books-append Q b s.trades t h (rw e at q) entry,
            ground (arith, balance-append b s.trades t),
          ),
          length-append s.trades _,
          map-append _ s.trades _,
        )

    simulate-Added :
        (Q : F → Type 0) (b : F) (config : BacktestConfig F) (ts : ℕ) (signal : Signal)
        (confidence : F) (ind : Indicators F) (price : F) (outcome : ExitOutcome) (s : Replay F)
        → Kept Q b s
        → Q s.bankroll
        → IsPrice price
        → (s' : Replay F) × (simulate config ts signal confidence ind price outcome s ≡ some s')
          × Added Q b outcome s s'
    unfolding simulate
    simulate-Added Q b config ts signal confidence ind price outcome s k q p =
        let (bet, e) =
          some_of (bet_of config s price) (bet_of_some laws rounded config s price p) in
        let (pnl, d) =
          some_of (compute_pnl outcome price bet config.commission_pct config.gas_per_trade)
            (compute_pnl_some laws rounded outcome price bet _ _ p) in
        (
          record_trade ts signal confidence ind price bet outcome pnl s,
          ground arith,
          record_trade-Added Q b ts signal confidence ind price bet outcome pnl s k q p
              (bet_of-le laws config s price bet e),
        )

    simulate_records_lem :
        (config : BacktestConfig F) (utcnow : ℕ) (records : List (DbRecord F)) (b : F)
        (s : Replay F)
        → Kept (λ _. Unit) b s
        → (s' : Replay F) × (simulate_records config utcnow records s ≡ some s')
          × Books (λ _. Unit) b s'.trades
          × (outcomes s'.trades
              ≡ outcomes s.trades ++ map (λ (r : DbRecord F). outcome_of r.outcome) records)
    unfolding simulate_records simulate_record
    simulate_records_lem config utcnow [] b s k =
        (s, refl, k.0, sym (append-nil (outcomes s.trades)))
    simulate_records_lem config utcnow (r ∷ more) b s k =
        let price = apply_slippage r.entry_price config.slippage_bps in
        let (s1, e, added) =
          simulate-Added (λ _. Unit) b config (time_of utcnow r) (signal_of r.signal) r.confidence
            r.indicators price (outcome_of r.outcome) s k tt
            (apply_slippage-IsPrice laws r.entry_price config.slippage_bps) in
        let (s2, e2, k2, o2) = simulate_records_lem config utcnow more b s1 added.0 in
        (
          s2,
          ground arith,
          k2,
          o2
              ∙ ap (λ l. l ++ map (λ (r : DbRecord F). outcome_of r.outcome) more) added.2
              ∙ append_assoc (outcomes s.trades) _ _,
        )

    -- The replay of resolved trades always answers, with one trade for each record, in order: a win
    -- where the outcome of the record reads WIN, and a loss where it reads anything else, VOID
    -- included. The trades are the entries of an account that opens with the initial bankroll.
    pub simulate_from_db_records-Books :
        (config : BacktestConfig F) (utcnow : ℕ) (records : List (DbRecord F))
        → (trades : List (SimulatedTrade F)) × (simulate_from_db_records config utcnow records
            ≡ some trades)
          × Books (λ _. Unit) config.initial_bankroll trades
          × Replayed records trades
    unfolding simulate_from_db_records
    simulate_from_db_records-Books config utcnow records =
        let (s, e, k, o) =
          simulate_records_lem config utcnow records config.initial_bankroll (start config)
            (tt, refl) in
        (s.trades, ground arith, k, outcomes-Replayed records s.trades o)

    -- A strategy that always returns a signal.
    abbrev pub Answers : BaseStrategy F → Type 0
    Answers strategy =
        (asset : String) (snap : FeedSnapshot F) (rsi : Option F) (bb : Option (Band F))
        → is_some (strategy.evaluate asset snap rsi bb) ≡ true

    abbrev Solvent : BacktestConfig F → F → Type 0
    Solvent config bankroll = is_low config bankroll ≡ false

    act_lem :
        (config : BacktestConfig F) (strategy : BaseStrategy F) (bar next : Bar F)
        (r : SignalResult F) (s : Replay F)
        → Kept (Solvent config) config.initial_bankroll s
        → (s' : Replay F) × (act config strategy bar next r s ≡ some s')
          × Kept (Solvent config) config.initial_bankroll s'
          × (length s'.trades ≤ length s.trades + 1)
    unfolding act
    act_lem config strategy bar next r s k =
        let price = apply_slippage (raw_entry bar.snap.ask) config.slippage_bps in
        elim (Bool-cases (is_low config s.bankroll)) [
          | inl low ↦ (s, ground arith, k, ground arith)
          | inr high ↦
              let (s1, e, added) =
                simulate-Added (Solvent config) config.initial_bankroll config bar.ts r.signal
                  (round 4 r.confidence) (map round_indicator r.indicators) price
                  (determine_outcome r.signal bar.snap.last_price next.snap.last_price) s k high
                  (apply_slippage-IsPrice laws _ _) in
              elim (Bool-cases (is_skip r.signal)) [
                | inl skip ↦ (s, ground arith, k, ground arith)
                | inr go ↦ elim (Bool-cases (strategy.entry_ok config.asset r.signal price)) [
                  | inl ok ↦ (s1, ground arith, added.0, ground (arith, added.1))
                  | inr refused ↦ (s, ground arith, k, ground arith)
                ]
              ]
        ]

    replay_bars_lem :
        (config : BacktestConfig F) (strategy : BaseStrategy F) (bars : List (Bar F)) (s : Replay F)
        → Answers strategy
        → Kept (Solvent config) config.initial_bankroll s
        → (s' : Replay F) × (replay_bars config strategy bars s ≡ some s')
          × Books (Solvent config) config.initial_bankroll s'.trades
          × (length s'.trades ≤ length s.trades + (length bars - 1))
    unfolding replay_bars replay_bar
    replay_bars_lem config strategy [] s answers k = (s, refl, k.0, ground arith)
    replay_bars_lem config strategy (bar ∷ []) s answers k = (s, refl, k.0, ground arith)
    replay_bars_lem config strategy (bar ∷ next ∷ bars) s answers k =
        let (r, d) =
          some_of (strategy.evaluate config.asset bar.snap bar.rsi bar.bb) (answers _ _ _ _) in
        let (s1, e1, k1, n1) = act_lem config strategy bar next r s k in
        let (s2, e2, k2, n2) = replay_bars_lem config strategy (next ∷ bars) s1 answers k1 in
        (s2, ground arith, k2, ground arith)

    -- A replay whose strategy always answers returns its trades, at most one for each bar but the
    -- last. The trades are the entries of an account that opens with the initial bankroll, and each is made
    -- while the bankroll is not below a hundredth of it.
    pub replay_snapshots-Books :
        (config : BacktestConfig F) (strategy : BaseStrategy F) (bars : List (Bar F))
        → Answers strategy
        → (trades : List (SimulatedTrade F)) × (replay_snapshots config strategy bars ≡ some trades)
          × Books (Solvent config) config.initial_bankroll trades
          × (length trades ≤ length bars - 1)
    unfolding replay_snapshots
    replay_snapshots-Books config strategy bars answers =
        let (s, e, k, n) = replay_bars_lem config strategy bars (start config) answers (tt, refl) in
        (s.trades, ground arith, k, ground arith)
