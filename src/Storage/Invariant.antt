-- ===== src/Storage/Invariant.antt =====
-- storage/database.py: what holds of the balances and trades after any sequence of writes.
pub mod Preserved
use native.Mathlib.Nat.{le_refl as le_refl_nat}
use text.Mathlib.TextEquality.{eq_iff}
use poly_market_prediction_b.Base.{
  ℕ, ◌≤◌, String, Bool, true, false, ◌≡◌, refl, Option, none, some, List, [], ◌∷◌, ◌++◌, ◌==◌,
  string_eq, nat_eq, ◌&&◌, if◌then◌else◌, arith, any, All, All-append, nat_beq_iff, Option-cases,
  inl, inr, Bool-cases,
}
use poly_market_prediction_b.Base.Tables.{
  fetch_one, update_where, next_id, All-update_where, All-fetch_one, Distinct,
  Distinct-update_where, Distinct-append, any-lt-next_id, All-update_where_of, fetch_one_unique,
}
use poly_market_prediction_b.Core.Types.{Signal, Outcome, FeedSnapshot}
use poly_market_prediction_b.Number.{Number, zero_f, fmax}
use poly_market_prediction_b.Number.Order.{◌≼◌, IsOrdered, IsRounded, le_refl, le-fmax_right}
use poly_market_prediction_b.Storage.{Database, Trade, Bankroll, RiskKind, is_row_of, has_id}
use poly_market_prediction_b.Storage.Accounts.{
  seed_row, seed_assets, seed_rows, seed_bankroll, deduct_fee, charged,
}
use poly_market_prediction_b.Storage.Trades.{
  Order, reserve_and_insert_trade, resolve_trade, new_trade, reserved, resolved, set_current,
  set_balance, set_outcome, cost_of, trade_id_of, current_or, peak_or,
}
use poly_market_prediction_b.Storage.Queue.{move_to_dead_letter, resolve_dead_letter}
use poly_market_prediction_b.Storage.History.{
  save_signal_state, record_price, log_risk_event, save_regime, save_equity_snapshot,
}

module _ {F : Type 0} where
  abbrev pub same_account : Bankroll F → Bankroll F → Bool
  same_account r q = is_row_of r.strategy r.asset q

  abbrev pub same_trade : Trade F → Trade F → Bool
  same_trade t u = has_id t.id u

  pub same_account_swap : (r q : Bankroll F) → same_account r q ≡ same_account q r
  same_account_swap r q = ground (
    arith,
    eq_iff q.strategy r.strategy,
    eq_iff r.strategy q.strategy,
    eq_iff q.asset r.asset,
    eq_iff r.asset q.asset,
  )

  pub same_trade_swap : (t u : Trade F) → same_trade t u ≡ same_trade u t
  same_trade_swap t u = ground arith

-- A write of the database, with the time at which it runs.
pub data Write (F : Type 0) : Type 0 where
  seed : ℕ → List String → List String → F → Write F
  fee : String → String → F → Write F
  reserve : ℕ → Order F → Write F
  resolve : ℕ → ℕ → Outcome → F → Write F
  void : ℕ → String → Write F
  close_void : ℕ → ℕ → Outcome → Write F
  state :
      ℕ
      → String
      → String
      → Signal
      → F
      → FeedSnapshot F
      → Option F
      → Option F
      → String
      → Option String × Option F
      → Write F
  price : ℕ → String → F → Write F
  event : ℕ → RiskKind → Option String → Option String → List F → Write F
  regime : ℕ → String → String → Option F → Option F → Option F → Write F
  equity : ℕ → String → String → F → F → ℕ → Write F

module _ {F : Type 0} ⦃num : Number F⦄ where
  open num use {mul}

  unfoldable pub write : Write F → Database F → Database F
  write (seed now ss assets x) db = seed_bankroll now ss assets x db
  write (fee s a x) db = deduct_fee s a x db
  write (reserve now o) db = (reserve_and_insert_trade now o db).1
  write (resolve now i o p) db = resolve_trade now i o p db
  write (void i reason) db = move_to_dead_letter i reason db
  write (close_void now i o) db = resolve_dead_letter now i o db
  write (state now s a sig c snap rsi bb reg m) db =
      save_signal_state now s a sig c snap rsi bb reg m db
  write (price now a p) db = record_price now a p db
  write (event now k s a d) db = log_risk_event now k s a d db
  write (regime now a r x y z) db = save_regime now a r x y z db
  write (equity now s a b p n) db = save_equity_snapshot now s a b p n db

  unfoldable pub write_all : List (Write F) → Database F → Database F
  write_all [] db = db
  write_all (op ∷ ops) db = write_all ops (write op db)

  -- Fees and stakes are not negative.
  abbrev pub IsSane : Write F → Type 0
  IsSane (fee s a x) = zero_f ≼ x
  IsSane (reserve now o) = (zero_f ≼ o.entry_price) × (zero_f ≼ o.bet_size)
  IsSane _ = Unit

  -- One balance for each strategy and asset, none above its peak, and one trade for each id.
  pub record IsSound (db : Database F) : Type 0 where
    pub peaked : All (λ (r : Bankroll F). r.current ≼ r.peak) db.bankroll
    pub keyed : Distinct same_account db.bankroll
    pub numbered : Distinct same_trade db.trades
