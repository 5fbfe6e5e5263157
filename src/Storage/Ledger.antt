-- ===== src/Storage/Ledger.antt =====
-- storage/database.py: what a trade does to the balance, from its reservation to its end.
use native.Mathlib.Nat.{le_refl as le_refl_nat}
use mathlib.Core.Option
use mathlib.Core.Path.{subst}
use text.Mathlib.TextEquality.{eq_iff}
use text.Mathlib.TextPositions.{eq_refl}
use poly_market_prediction_b.Base.{
  ℕ, String, true, false, ◌≡◌, refl, ◌∙◌, ap, none, some, List, [], ◌∷◌, ◌++◌, ◌==◌, string_eq,
  nat_eq, ◌&&◌, if◌then◌else◌, arith, any, Option-cases, inl, inr, Bool-cases, is_some,
}
use poly_market_prediction_b.Base.Tables.{
  fetch_one, update_where, next_id, fetch_one-update_where, fetch_one-append, any-lt-next_id,
}
use poly_market_prediction_b.Core.Types.{Outcome}
use poly_market_prediction_b.Number.{Number, zero_f, fmax}
use poly_market_prediction_b.Number.Order.{IsExact}
use poly_market_prediction_b.Storage.{Database, Trade, Bankroll, is_row_of, has_id}
use poly_market_prediction_b.Storage.Accounts.{get_bankroll}
use poly_market_prediction_b.Storage.Trades.{
  Order, reserve_and_insert_trade, resolve_trade, reserved, resolved, new_trade, set_current,
  set_balance, set_outcome, cost_of, trade_id_of, current_or,
}
use poly_market_prediction_b.Storage.Queue.{move_to_dead_letter}

module _ {F : Type 0} where
  -- An update that keeps the keys of its rows.
  abbrev pub KeepsKey : (Bankroll F → Bankroll F) → Type 0
  KeepsKey f = (r : Bankroll F) → ((f r).strategy ≡ r.strategy) × ((f r).asset ≡ r.asset)

  row-update_self :
      (s a : String) (f : Bankroll F → Bankroll F) (rows : List (Bankroll F))
      → KeepsKey f
      → fetch_one (is_row_of s a) (update_where (is_row_of s a) f rows)
        ≡ Option.map f (fetch_one (is_row_of s a) rows)
  row-update_self s a f [] keeps = refl
  row-update_self s a f (r ∷ rows) keeps = ground (arith, keeps r, row-update_self s a f rows keeps)

  row-update_ne :
      (s a s' a' : String) (f : Bankroll F → Bankroll F) (rows : List (Bankroll F))
      → KeepsKey f
      → (s' == s && a' == a) ≡ false
      → fetch_one (is_row_of s' a') (update_where (is_row_of s a) f rows)
        ≡ fetch_one (is_row_of s' a') rows
  row-update_ne s a s' a' f [] keeps differ = refl
  row-update_ne s a s' a' f (r ∷ rows) keeps differ = ground (
    arith,
    keeps r,
    eq_iff r.strategy s,
    eq_iff r.strategy s',
    eq_iff s' s,
    eq_iff r.asset a,
    eq_iff r.asset a',
    eq_iff a' a,
    row-update_ne s a s' a' f rows keeps differ,
  )

module _ {F : Type 0} ⦃num : Number F⦄ where
  open num use {add, sub, mul, neg, lt}

  -- The balance of any account, after the rows of one that exists are given a new balance.
  pub balance-update :
      (s a s' a' : String) (f : Bankroll F → Bankroll F) (x : F) (rows : List (Bankroll F))
      → {row : Bankroll F} → KeepsKey f
      → ((r : Bankroll F) → (f r).current ≡ x)
      → fetch_one (is_row_of s a) rows ≡ some row
      → current_or (fetch_one (is_row_of s' a') (update_where (is_row_of s a) f rows))
        ≡ (if s' == s && a' == a then x else current_or (fetch_one (is_row_of s' a') rows))
  balance-update s a s' a' f x rows {row} keeps sets e = elim (Bool-cases (s' == s && a' == a)) [
    | inl same ↦
        ground (arith, eq_iff s' s, eq_iff a' a, row-update_self s a f rows keeps, sets row)
    | inr differ ↦ rw (row-update_ne s a s' a' f rows keeps differ, differ)
  ]

  pub get_bankroll_lem :
      (s a : String) (db : Database F)
      → get_bankroll s a db ≡ current_or (fetch_one (is_row_of s a) db.bankroll)
  unfolding get_bankroll
  get_bankroll_lem s a db = ground arith

  -- What a reservation that returns the id `i` has done.
  pub record IsReserved (now : ℕ) (o : Order F) (i : ℕ) (db db' : Database F) : Type 0 where
    pub covered : lt (get_bankroll o.strategy o.asset db) (cost_of o) ≡ false
    pub charged_to :
        (s a : String)
        → get_bankroll s a db' ≡ (
            if s == o.strategy && a == o.asset
            then sub (get_bankroll o.strategy o.asset db) (cost_of o)
            else get_bankroll s a db)
    pub fresh : any (has_id i) db.trades ≡ false
    pub still_there : is_some (fetch_one (is_row_of o.strategy o.asset) db'.bankroll) ≡ true
    pub placed : db'.trades ≡ db.trades ++ (new_trade i now o ∷ [])

  reserved-IsReserved :
      (now : ℕ) (o : Order F) (row : Bankroll F) (db : Database F)
      → fetch_one (is_row_of o.strategy o.asset) db.bankroll ≡ some row
      → lt row.current (cost_of o) ≡ false
      → IsReserved now o (next_id trade_id_of db.trades) db (reserved now o row db)
  unfolding reserved
  reserved-IsReserved now o row db e rich =
      let bal : get_bankroll o.strategy o.asset db ≡ row.current =
        get_bankroll_lem o.strategy o.asset db ∙ ap current_or e in
      record {
        covered = rw bal rich;
        charged_to = λ s a.
            rw (get_bankroll_lem s a (reserved now o row db), get_bankroll_lem s a db, bal)
              (balance-update o.strategy o.asset s a (set_current now (sub row.current (cost_of o)))
                (sub row.current (cost_of o)) db.bankroll (λ _. (refl, refl)) (λ _. refl) e);
        fresh = any-lt-next_id trade_id_of _ db.trades (le_refl_nat _);
        still_there = ground (
          arith,
          row-update_self o.strategy o.asset (set_current now (sub row.current (cost_of o)))
              db.bankroll (λ _. (refl, refl)),
        );
        placed = refl;
      }

  -- A reservation that returns an id takes the cost off the one balance, which covers it, leaves
  -- every other balance, and adds an open trade under an id that no trade has.
  pub reserve-IsReserved :
      (now : ℕ) (o : Order F) (i : ℕ) (db : Database F)
      → (reserve_and_insert_trade now o db).0 ≡ some i
      → IsReserved now o i db (reserve_and_insert_trade now o db).1
  unfolding reserve_and_insert_trade
  reserve-IsReserved now o i db h =
      elim (Option-cases (fetch_one (is_row_of o.strategy o.asset) db.bankroll)) [
        | inl e ↦ absurd (ground arith)
        | inr (row, e) ↦ elim (Bool-cases (lt row.current (cost_of o))) [
          | inl poor ↦ absurd (ground arith)
          | inr rich ↦
              let id : next_id trade_id_of db.trades ≡ i = ground arith in
              rw (e, reserve_and_insert_trade)
                (rw rich (
                  subst (λ k. IsReserved now o k db (reserved now o row db)) id
                    (reserved-IsReserved now o row db e rich)))
        ]
      ]

  -- A reservation that returns no id changes nothing.
  pub reserve_refused :
      (now : ℕ) (o : Order F) (db : Database F)
      → (reserve_and_insert_trade now o db).0 ≡ none
      → (reserve_and_insert_trade now o db).1 ≡ db
  unfolding reserve_and_insert_trade
  reserve_refused now o db h = ground arith

  -- A resolution credits the cost of the trade and the P&L to the trade's balance, in this order,
  -- and leaves every other balance.
  pub get_bankroll-resolved :
      (now i : ℕ) (out : Outcome) (pnl : F) (t : Trade F) (db : Database F) (s a : String)
      → {row : Bankroll F} → fetch_one (has_id i) db.trades ≡ some t
      → fetch_one (is_row_of t.strategy t.asset) db.bankroll ≡ some row
      → get_bankroll s a (resolve_trade now i out pnl db) ≡ (
          if s == t.strategy && a == t.asset
          then add (add (get_bankroll t.strategy t.asset db) (mul t.entry_price t.bet_size)) pnl
          else get_bankroll s a db)
  unfolding resolve_trade resolved
  get_bankroll-resolved now i out pnl t db s a {row} found e =
      let paid = add (add (current_or (some row)) (mul t.entry_price t.bet_size)) pnl in
      rw
        (
          get_bankroll_lem s a (resolve_trade now i out pnl db),
          get_bankroll_lem s a db,
          get_bankroll_lem t.strategy t.asset db,
        )
        (rw (found, resolve_trade)
          (rw e (
            balance-update t.strategy t.asset s a (set_balance now paid (fmax row.peak paid)) paid
              db.bankroll (λ _. (refl, refl)) (λ _. refl) e)))

  IsReserved-found :
      (now : ℕ) (o : Order F) (i : ℕ) (db db' : Database F)
      → IsReserved now o i db db'
      → fetch_one (has_id i) db'.trades ≡ some (new_trade i now o)
  unfolding new_trade
  IsReserved-found now o i db db' done =
      let t = new_trade i now o in
      rw done.placed (rw (fetch_one-append (has_id i) db.trades t done.fresh) (ground arith))

  IsReserved-charged :
      (now : ℕ) (o : Order F) (i : ℕ) (db db' : Database F)
      → IsReserved now o i db db'
      → get_bankroll o.strategy o.asset db' ≡ sub (get_bankroll o.strategy o.asset db) (cost_of o)
  IsReserved-charged now o i db db' done =
      ground (arith, done.charged_to o.strategy o.asset, eq_refl o.strategy, eq_refl o.asset)

  module _ (exact : IsExact F) where
    open exact use {add_comm, add_assoc, add_zero, add_neg, sub-eq-add}

    sub-add : (x y : F) → add (sub x y) y ≡ x
    sub-add x y = rw (sub-eq-add, add_assoc) (rw (add_comm (neg y) y, add_neg, add_zero))

    -- Over exact arithmetic: a stake is reserved and the trade resolved with some P&L and no write
    -- in between; then the balance has changed by the P&L alone.
    pub resolve-reserve :
        (now now' i : ℕ) (o : Order F) (out : Outcome) (pnl : F) (db : Database F)
        → (reserve_and_insert_trade now o db).0 ≡ some i
        → get_bankroll o.strategy o.asset
            (resolve_trade now' i out pnl (reserve_and_insert_trade now o db).1)
          ≡ add (get_bankroll o.strategy o.asset db) pnl
    unfolding new_trade
    resolve-reserve now now' i o out pnl db h =
        let db' = (reserve_and_insert_trade now o db).1 in
        let done = reserve-IsReserved now o i db h in
        let t = new_trade i now o in
        elim (Option-cases (fetch_one (is_row_of o.strategy o.asset) db'.bankroll)) [
          | inl e ↦ absurd (cc (done.still_there, e))
          | inr (row, e) ↦
              rw
                (get_bankroll-resolved now' i out pnl t db' o.strategy o.asset
                  (IsReserved-found now o i db db' done) e)
                (rw (eq_refl o.strategy, eq_refl o.asset)
                  (rw (IsReserved-charged now o i db db' done, sub-add)))
        ]

  -- A trade that goes to the dead-letter queue moves no balance: the stake that its reservation
  -- took stays taken, although the trade is recorded with a P&L of zero.
  pub void-reserve :
      (now i : ℕ) (o : Order F) (reason : String) (db : Database F)
      → (reserve_and_insert_trade now o db).0 ≡ some i
      → let db' = move_to_dead_letter i reason (reserve_and_insert_trade now o db).1 in
        (get_bankroll o.strategy o.asset db' ≡ sub (get_bankroll o.strategy o.asset db) (cost_of o))
        × (Option.map (λ (t : Trade F). t.pnl) (fetch_one (has_id i) db'.trades)
            ≡ some (some zero_f))
  unfolding move_to_dead_letter get_bankroll new_trade
  void-reserve now i o reason db h =
      let db' = (reserve_and_insert_trade now o db).1 in
      let done = reserve-IsReserved now o i db h in
      let found = IsReserved-found now o i db db' done in
      (
        rw (found, move_to_dead_letter) (IsReserved-charged now o i db db' done),
        rw (found, move_to_dead_letter)
            (rw
              (fetch_one-update_where (has_id i) (has_id i) (set_outcome Outcome.void zero_f)
                db'.trades (λ _. refl))
              (rw found (ground arith))),
      )
