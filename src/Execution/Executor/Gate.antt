-- ===== src/Execution/Executor/Gate.antt =====
-- `Executor.execute`: what holds when a trade is placed.
use poly_market_prediction_b.Base.{
  ℕ, String, Bool, true, false, not, ◌≡◌, some, ◌||◌, arith, Option-cases, inl, inr,
}
use poly_market_prediction_b.Core.Types.{
  SignalResult, MarketInfo, StrategyConfig, RiskConfig, is_skip,
}
use poly_market_prediction_b.Market.{window_elapsed_pct}
use poly_market_prediction_b.Number.{Number, zero_f, one_f}
use poly_market_prediction_b.Storage.{Database}
use poly_market_prediction_b.Storage.Accounts.{get_bankroll, deduct_fee}
use poly_market_prediction_b.Storage.Trades.{reserve_and_insert_trade}
use poly_market_prediction_b.Execution.Risk.{
  Cooldown, check_all, check_drawdown, check_correlation, check_circuit_breaker, check_streak,
}
use poly_market_prediction_b.Execution.Sizer.{kelly_size}
use poly_market_prediction_b.Execution.State.{Inputs, Settings, World, go, ◌>>=◌, >>=-eq-go}
use poly_market_prediction_b.Execution.Window.{can_place, record_order}
use poly_market_prediction_b.Execution.Executor.{
  slipped_price, max_entry, scaled_size, order_of, pre_checks, find_entry, place, size_and_place,
  execute, has_open_on,
}

module _ {F : Type 0} ⦃num : Number F⦄ where
  open num use {lt, le}

  -- A trade that the risk checks allow leaves the database as it was.
  pub check_all_allowed :
      (cfg : RiskConfig F) (now trigger_at : ℕ) (s a : String) (c : Cooldown) (db : Database F)
      → (check_all cfg now trigger_at s a (c, db)).0 ≡ true
      → (check_all cfg now trigger_at s a (c, db)).2 ≡ db
  unfolding check_all check_drawdown check_correlation check_circuit_breaker check_streak
  check_all_allowed cfg now trigger_at s a c db h = ground arith

  pub record IsReady (s : Settings F) (i : Inputs F) (cfg : StrategyConfig F) (r : SignalResult F)
      (w : World F) : Type 0 where
    pub signalled : is_skip r.signal ≡ false
    pub vpn : i.vpn_active ≡ true
    pub funded : lt (get_bankroll r.strategy r.asset w.db) one_f ≡ false
    pub capacity :
        can_place i.placed_at r.strategy r.asset cfg.max_orders_per_window w.counts ≡ true
    pub early : lt cfg.max_elapsed_pct (window_elapsed_pct i.elapsed_at r.asset) ≡ false
    pub allowed :
        (check_all s.risk i.risk_at i.trigger_at r.strategy r.asset (w.cooldown, w.db)).0 ≡ true

  pre_checks_go :
      (s : Settings F) (i : Inputs F) (cfg : StrategyConfig F) (r : SignalResult F) (w w' : World F)
      (b : F)
      → pre_checks s i cfg r w ≡ (go b, w')
      → IsReady s i cfg r w
        × (b ≡ get_bankroll r.strategy r.asset w.db)
        × (w'.db ≡ w.db)
        × (w'.counts ≡ w.counts)
        × (w'.published ≡ w.published)
  unfolding pre_checks
  pre_checks_go s i cfg r w w' b h =
      ground
        (arith, check_all_allowed s.risk i.risk_at i.trigger_at r.strategy r.asset w.cooldown w.db)

  pub record IsPriced (s : Settings F) (i : Inputs F) (cfg : StrategyConfig F) (scaling : Bool)
      (r : SignalResult F) (w : World F) (market : MarketInfo F) (price : F) : Type 0 where
    pub found : i.market ≡ some market
    pub single : (scaling || not (has_open_on r.strategy r.asset market.market_id w)) ≡ true
    pub slipped : price ≡ slipped_price s i r market
    pub positive : le price zero_f ≡ false
    pub below_one : le one_f price ≡ false
    pub guarded : lt (max_entry cfg r.signal) price ≡ false

  find_entry_go :
      (s : Settings F) (i : Inputs F) (cfg : StrategyConfig F) (scaling : Bool) (r : SignalResult F)
      (w w' : World F) (market : MarketInfo F) (price : F)
      → find_entry s i cfg scaling r w ≡ (go (market, price), w')
      → IsPriced s i cfg scaling r w market price × (w' ≡ w)
  unfolding find_entry
  find_entry_go s i cfg scaling r w w' market price h = ground arith

  place_go :
      (s : Settings F) (i : Inputs F) (r : SignalResult F) (market : MarketInfo F) (price size : F)
      (w w' : World F) (id : ℕ)
      → place s i r market price size w ≡ (go id, w')
      → let (t, db) =
          reserve_and_insert_trade i.inserted_at (order_of i r market price size) w.db in
        (t ≡ some id)
        × (w'.db ≡ deduct_fee r.strategy r.asset s.fees.gas_per_trade db)
        × (w'.counts ≡ (record_order i.recorded_at i.cleaned_at r.strategy r.asset w.counts).1)
        × (w'.cooldown ≡ w.cooldown)
  unfolding place
  place_go s i r market price size w w' id h = ground arith

  -- The trade that a call has placed, from the world `w` to the world `w'`.
  pub record IsPlaced (s : Settings F) (i : Inputs F) (cfg : StrategyConfig F) (scaling : Bool)
      (multiplier : F) (r : SignalResult F) (w w' : World F) (id : ℕ) (market : MarketInfo F)
      (price size : F) : Type 0 where
    pub priced : IsPriced s i cfg scaling r w market price
    pub sized :
        kelly_size s.sizer r.strategy r.asset (get_bankroll r.strategy r.asset w.db) w.db
        ≡ some size
    pub inserted :
        (reserve_and_insert_trade i.inserted_at
          (order_of i r market price (scaled_size multiplier size))
          w.db).0
        ≡ some id
    pub charged :
        w'.db
        ≡ deduct_fee r.strategy r.asset s.fees.gas_per_trade
            (reserve_and_insert_trade i.inserted_at
              (order_of i r market price (scaled_size multiplier size))
              w.db).1
    pub counted :
        w'.counts ≡ (record_order i.recorded_at i.cleaned_at r.strategy r.asset w.counts).1

  size_and_place_go :
      (s : Settings F) (i : Inputs F) (multiplier : F) (r : SignalResult F) (bankroll : F)
      (market : MarketInfo F) (price : F) (w w' : World F) (id : ℕ)
      → size_and_place s i multiplier r bankroll (market, price) w ≡ (go id, w')
      → (size : F) × (kelly_size s.sizer r.strategy r.asset bankroll w.db ≡ some size)
        × (place s i r market price (scaled_size multiplier size) w ≡ (go id, w'))
  unfolding size_and_place
  size_and_place_go s i multiplier r bankroll market price w w' id h =
      elim (Option-cases (kelly_size s.sizer r.strategy r.asset bankroll w.db)) [
        | inl e ↦ absurd (ground arith)
        | inr (size, e) ↦ (size, e, ground arith)
      ]

  place-IsPlaced :
      (s : Settings F) (i : Inputs F) (cfg : StrategyConfig F) (scaling : Bool) (multiplier : F)
      (r : SignalResult F) (w v w' : World F) (id : ℕ) (market : MarketInfo F) (price size : F)
      → v.db ≡ w.db
      → v.counts ≡ w.counts
      → IsPriced s i cfg scaling r v market price
      → kelly_size s.sizer r.strategy r.asset (get_bankroll r.strategy r.asset w.db) v.db
        ≡ some size
      → place s i r market price (scaled_size multiplier size) v ≡ (go id, w')
      → IsPlaced s i cfg scaling multiplier r w w' id market price size
  unfolding has_open_on
  place-IsPlaced s i cfg scaling multiplier r w v w' id market price size db counts priced sized h =
      let (inserted, charged, counted, _) =
        place_go s i r market price (scaled_size multiplier size) v w' id h in
      record {
        priced = record {
          found = priced.found;
          single = rw db at priced.single;
          slipped = priced.slipped;
          positive = priced.positive;
          below_one = priced.below_one;
          guarded = priced.guarded;
        };
        sized = rw db at sized;
        inserted = rw db at inserted;
        charged = rw db at charged;
        counted = rw counts at counted;
      }

  -- A call that returns a trade id has passed every check, and has written nothing to the database
  -- but the reservation at the checked price and the computed size, and the gas; the window counts
  -- one order more.
  pub execute_places :
      (s : Settings F) (i : Inputs F) (cfg : StrategyConfig F) (scaling : Bool) (multiplier : F)
      (r : SignalResult F) (w w' : World F) (id : ℕ)
      → execute s i cfg scaling multiplier r w ≡ (go id, w')
      → IsReady s i cfg r w
        × ((market : MarketInfo F) × (price : F) × (size : F) × IsPlaced s i cfg scaling multiplier
              r w w' id market price size)
  unfolding execute
  execute_places s i cfg scaling multiplier r w w' id h =
      let (b, v, e, h') =
        >>=-eq-go (pre_checks s i cfg r)
          (λ b. find_entry s i cfg scaling r >>= size_and_place s i multiplier r b) w w' id h in
      let (ready, bal, db, counts, published) = pre_checks_go s i cfg r w v b e in
      let (found, v', e', h'') =
        >>=-eq-go (find_entry s i cfg scaling r) (size_and_place s i multiplier r b) v w' id h' in
      let (priced, same) = find_entry_go s i cfg scaling r v v' found.0 found.1 e' in
      let (size, sized, placed) =
        size_and_place_go s i multiplier r b found.0 found.1 v' w' id h'' in
      (
        ready,
        (
          found.0,
          found.1,
          size,
          place-IsPlaced s i cfg scaling multiplier r w v w' id found.0 found.1 size db counts
              priced (rw (← bal) (rw same at sized)) (rw same at placed),
        ),
      )
