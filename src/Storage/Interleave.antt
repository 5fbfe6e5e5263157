-- ===== src/Storage/Interleave.antt =====
-- storage/database.py: `reserve_and_insert_trade` awaits the database between the SELECT of the balance
-- and its UPDATE, and another task may run there. The reading and the writing of a reservation are
-- steps of their own here, and the resolutions of other tasks stand between them.
use text.Mathlib.TextPositions.{eq_refl}
use poly_market_prediction_b.Base.{
  ℕ, String, Bool, true, false, ◌≡◌, refl, ap, ◌∙◌, Option, none, some, List, [], ◌∷◌, ◌++◌,
  string_eq, nat_eq, arith, Option-cases, inl, inr, is_some, some_of,
}
use poly_market_prediction_b.Base.Tables.{fetch_one, update_where, next_id}
use poly_market_prediction_b.Core.Types.{Outcome}
use poly_market_prediction_b.Number.{Number, fmax}
use poly_market_prediction_b.Storage.{Database, Bankroll, is_row_of, has_id}
use poly_market_prediction_b.Storage.Accounts.{get_bankroll}
use poly_market_prediction_b.Storage.Trades.{
  Order, resolve_trade, reserved, new_trade, set_balance, set_current, cost_of, trade_id_of,
  current_or, peak_or,
}
use poly_market_prediction_b.Storage.Ledger.{balance-update, get_bankroll_lem}

-- The database, and the row that a reservation has read and not yet written.
pub record Shared (F : Type 0) : Type 0 where
  pub db : Database F
  pub pending : Option (Bankroll F)

module _ {F : Type 0} ⦃num : Number F⦄ where
  open num use {add, sub, mul, lt}

  -- The steps of the reservation of the order `o`, and of the tasks that run meanwhile.
  pub data Step (o : Order F) : Shared F → Shared F → Type 0 where
    read :
        (s : Shared F) (row : Bankroll F)
        → fetch_one (is_row_of o.strategy o.asset) s.db.bankroll ≡ some row
        → lt row.current (cost_of o) ≡ false
        → Step o s (record s { pending = some row })
    write :
        (s : Shared F) (row : Bankroll F) (now : ℕ)
        → s.pending ≡ some row
        → Step o s (record { db = reserved now o row s.db; pending = none })
    resolve :
        (s : Shared F) (now trade_id : ℕ) (outcome : Outcome) (pnl : F)
        → Step o s (record s { db = resolve_trade now trade_id outcome pnl s.db })

  -- A number of resolutions, one after the other.
  pub data Resolutions : Database F → Database F → Type 0 where
    none_yet : {db : Database F} → Resolutions db db
    and_then :
        {db db' : Database F} (now trade_id : ℕ) (outcome : Outcome) (pnl : F)
        → Resolutions db db'
        → Resolutions db (resolve_trade now trade_id outcome pnl db')

  -- Any number of steps.
  pub data Steps (o : Order F) (s : Shared F) : Shared F → Type 0 where
    here : Steps o s s
    next : {t u : Shared F} → Steps o s t → Step o t u → Steps o s u

  -- The schedule in which the resolutions run between the two steps of the reservation.
  resolve_all :
      (o : Order F) (row : Bankroll F) {db db' : Database F}
      → Resolutions db db'
      → Steps o (record { db = db; pending = some row }) (record { db = db'; pending = some row })
  resolve_all o row none_yet = here
  resolve_all o row (and_then now i outcome pnl r) =
      next (resolve_all o row r) (resolve _ now i outcome pnl)

  prefixed : (o : Order F) {s t u : Shared F} → Step o s t → Steps o t u → Steps o s u
  prefixed o st here = next here st
  prefixed o st (next r last) = next (prefixed o st r) last

  account_kept :
      (s a : String) (p : Bankroll F → Bool) (now : ℕ) (x top : F) (rows : List (Bankroll F))
      → is_some (fetch_one (is_row_of s a) rows) ≡ true
      → is_some (fetch_one (is_row_of s a) (update_where p (set_balance now x top) rows)) ≡ true
  account_kept s a p now x top [] h = h
  account_kept s a p now x top (r ∷ rows) h = ground (arith, account_kept s a p now x top rows)

  -- A resolution leaves the account in the table.
  resolve-keeps_account :
      (s a : String) (now i : ℕ) (outcome : Outcome) (pnl : F) (db : Database F)
      → is_some (fetch_one (is_row_of s a) db.bankroll) ≡ true
      → is_some (fetch_one (is_row_of s a) (resolve_trade now i outcome pnl db).bankroll) ≡ true
  unfolding resolve_trade
  resolve-keeps_account s a now i outcome pnl db h =
      elim (Option-cases (fetch_one (has_id i) db.trades)) [
        | inl e ↦ ground arith
        | inr (t, e) ↦
            let row = fetch_one (is_row_of t.strategy t.asset) db.bankroll in
            let new_bal = add (add (current_or row) (mul t.entry_price t.bet_size)) pnl in
            let top = fmax (peak_or row) new_bal in
            let kept =
              account_kept s a (is_row_of t.strategy t.asset) now new_bal top db.bankroll h in
            ground (arith, kept)
      ]

  Resolutions-keep_account :
      (s a : String) {db db' : Database F}
      → Resolutions db db'
      → is_some (fetch_one (is_row_of s a) db.bankroll) ≡ true
      → is_some (fetch_one (is_row_of s a) db'.bankroll) ≡ true
  Resolutions-keep_account s a none_yet h = h
  Resolutions-keep_account s a (and_then now i outcome pnl r) h =
      resolve-keeps_account s a now i outcome pnl _ (Resolutions-keep_account s a r h)

  -- There is a schedule in which a reservation undoes resolutions: they run between its reading and
  -- its writing, and at the end the balance is that before them, less the cost of the order. What
  -- they have paid is lost, although their trades stay resolved.
  pub Resolutions-lost :
      (o : Order F) (row : Bankroll F) (now : ℕ) {db db' : Database F}
      → fetch_one (is_row_of o.strategy o.asset) db.bankroll ≡ some row
      → lt row.current (cost_of o) ≡ false
      → Resolutions db db'
      → (end : Shared F) × Steps o (record { db = db; pending = none }) end
        × (get_bankroll o.strategy o.asset end.db
            ≡ sub (get_bankroll o.strategy o.asset db) (cost_of o))
        × (end.db.trades ≡ db'.trades ++ (new_trade (next_id trade_id_of db'.trades) now o ∷ []))
  unfolding reserved
  Resolutions-lost o row now {db} {db'} e rich r =
      let held : Shared F = record { db = db'; pending = some row } in
      let end : Shared F = record { db = reserved now o row db'; pending = none } in
      let (row', e') =
        some_of (fetch_one (is_row_of o.strategy o.asset) db'.bankroll)
          (Resolutions-keep_account o.strategy o.asset r (ground arith)) in
      let before : get_bankroll o.strategy o.asset db ≡ row.current =
        get_bankroll_lem o.strategy o.asset db ∙ ap current_or e in
      (
        end,
        next (prefixed o (read _ row e rich) (resolve_all o row r)) (write held row now refl),
        ground (
          arith,
          before,
          get_bankroll_lem o.strategy o.asset (reserved now o row db'),
          eq_refl o.strategy,
          eq_refl o.asset,
          balance-update o.strategy o.asset o.strategy o.asset
              (set_current now (sub row.current (cost_of o))) (sub row.current (cost_of o))
              db'.bankroll (λ _. (refl, refl)) (λ _. refl) e',
        ),
        refl,
      )
