-- ===== src/Storage/Invariant/Preserved.antt =====
-- storage/database.py: every write of the database keeps the balances and trades sound.
use native.Mathlib.Nat.{le_refl as le_refl_nat}
use text.Mathlib.TextEquality.{eq_iff}
use poly_market_prediction_b.Base.{
  ℕ, String, true, ◌≡◌, refl, some, List, [], ◌∷◌, string_eq, nat_eq, arith, any, All, All-append,
  Option-cases, inl, inr, Bool-cases,
}
use poly_market_prediction_b.Base.Tables.{
  fetch_one, update_where, All-update_where, All-fetch_one, Distinct, Distinct-update_where,
  Distinct-append, any-lt-next_id, All-update_where_of, fetch_one_unique,
}
use poly_market_prediction_b.Core.Types.{Outcome}
use poly_market_prediction_b.Number.{Number, zero_f, fmax}
use poly_market_prediction_b.Number.Order.{◌≼◌, IsOrdered, IsRounded, le_refl, le-fmax_right}
use poly_market_prediction_b.Storage.{Database, Trade, Bankroll, is_row_of, has_id}
use poly_market_prediction_b.Storage.Accounts.{
  seed_row, seed_assets, seed_rows, seed_bankroll, deduct_fee, charged,
}
use poly_market_prediction_b.Storage.Trades.{
  Order, reserve_and_insert_trade, resolve_trade, new_trade, reserved, resolved, set_current,
  set_balance, set_outcome, cost_of, trade_id_of, current_or, peak_or,
}
use poly_market_prediction_b.Storage.Queue.{move_to_dead_letter, resolve_dead_letter}
use poly_market_prediction_b.Storage.History.{
  save_signal_state, record_price, log_risk_event, save_regime, save_equity_snapshot,
}
use poly_market_prediction_b.Storage.Invariant.{
  Write, seed, fee, reserve, resolve, void, close_void, state, price, event, regime, equity, write,
  write_all, IsSane, IsSound, same_account, same_trade, same_account_swap, same_trade_swap,
}

module _ {F : Type 0} ⦃num : Number F⦄ (laws : IsOrdered F) where
  abbrev IsPeaked : List (Bankroll F) → Type 0
  IsPeaked rows = All (λ (r : Bankroll F). r.current ≼ r.peak) rows

  seed_row_sound :
      (now : ℕ) (x : F) (s a : String) (rows : List (Bankroll F))
      → IsPeaked rows × Distinct same_account rows
      → IsPeaked (seed_row now x s a rows) × Distinct same_account (seed_row now x s a rows)
  unfolding seed_row
  seed_row_sound now x s a rows (peaked, keyed) =
      let new : Bankroll F = record {
        strategy = s;
        asset = a;
        current = x;
        peak = x;
        updated_at = now;
      } in
      elim (Bool-cases (any (is_row_of s a) rows)) [
        | inl old ↦ rw old (peaked, keyed)
        | inr fresh ↦ rw fresh (
          All-append (λ (r : Bankroll F). r.current ≼ r.peak) rows (new ∷ []) peaked
              (le_refl laws x, tt),
          Distinct-append same_account rows new same_account_swap fresh keyed,
        )
      ]

  seed_assets_sound :
      (now : ℕ) (x : F) (s : String) (as' : List String) (rows : List (Bankroll F))
      → IsPeaked rows × Distinct same_account rows
      → IsPeaked (seed_assets now x s as' rows)
        × Distinct same_account (seed_assets now x s as' rows)
  unfolding seed_assets
  seed_assets_sound now x s [] rows h = h
  seed_assets_sound now x s (a ∷ as') rows h =
      seed_assets_sound now x s as' _ (seed_row_sound now x s a rows h)

  seed_rows_sound :
      (now : ℕ) (x : F) (ss as' : List String) (rows : List (Bankroll F))
      → IsPeaked rows × Distinct same_account rows
      → IsPeaked (seed_rows now x ss as' rows) × Distinct same_account (seed_rows now x ss as' rows)
  unfolding seed_rows
  seed_rows_sound now x [] as' rows h = h
  seed_rows_sound now x (s ∷ ss) as' rows h =
      seed_rows_sound now x ss as' _ (seed_assets_sound now x s as' rows h)

  module _ (rounded : IsRounded F) where
    open laws use {le_trans}
    open rounded use {sub_le, mul_nonneg}

    -- The rows of one account are updated, their keys kept.
    update-keyed :
        (s a : String) (f : Bankroll F → Bankroll F) (rows : List (Bankroll F))
        → ((r q : Bankroll F) → same_account (f r) q ≡ same_account r q)
        → ((r q : Bankroll F) → same_account r (f q) ≡ same_account r q)
        → Distinct same_account rows
        → Distinct same_account (update_where (is_row_of s a) f rows)
    update-keyed s a f rows = Distinct-update_where same_account (is_row_of s a) f rows

    deduct_fee-IsSound :
        (s a : String) (x : F) {db : Database F}
        → zero_f ≼ x
        → IsSound db
        → IsSound (deduct_fee s a x db)
    unfolding deduct_fee
    deduct_fee-IsSound s a x {db} pos h = record {
      peaked =
          All-update_where (λ (r : Bankroll F). r.current ≼ r.peak) (is_row_of s a) (charged x)
            db.bankroll (λ r _ le. le_trans _ r.current r.peak (sub_le r.current x pos) le)
            h.peaked;
      keyed = update-keyed s a (charged x) db.bankroll (λ _ _. refl) (λ _ _. refl) h.keyed;
      numbered = h.numbered;
    }

    row_names :
        (s a : String) (r q : Bankroll F)
        → is_row_of s a r ≡ true
        → same_account r q ≡ is_row_of s a q
    row_names s a r q e = ground (arith, eq_iff r.strategy s, eq_iff r.asset a)

    reserved-IsSound :
        (now : ℕ) (o : Order F) (row : Bankroll F) {db : Database F}
        → zero_f ≼ o.entry_price
        → zero_f ≼ o.bet_size
        → fetch_one (is_row_of o.strategy o.asset) db.bankroll ≡ some row
        → IsSound db
        → IsSound (reserved now o row db)
    unfolding reserved new_trade
    reserved-IsSound now o row {db} p q e h =
        let P = λ (r : Bankroll F). r.current ≼ r.peak in
        let here = is_row_of o.strategy o.asset in
        let f = set_current now (num.sub row.current (cost_of o)) in
        let old = All-fetch_one P here db.bankroll h.peaked e in
        let less = sub_le row.current (cost_of o) (mul_nonneg _ _ p q) in
        record {
          peaked =
              All-update_where_of P (λ r. here r ≡ true → r ≡ row) here f db.bankroll
                (λ r found only _. rw (only found) (le_trans _ row.current row.peak less old.0))
                (fetch_one_unique same_account here db.bankroll (row_names o.strategy o.asset)
                  h.keyed e)
                h.peaked;
          keyed = update-keyed o.strategy o.asset f db.bankroll (λ _ _. refl) (λ _ _. refl) h.keyed;
          numbered =
              Distinct-append same_trade db.trades _ same_trade_swap
                (any-lt-next_id trade_id_of _ db.trades (le_refl_nat _)) h.numbered;
        }

    reserve-IsSound :
        (now : ℕ) (o : Order F) {db : Database F}
        → zero_f ≼ o.entry_price
        → zero_f ≼ o.bet_size
        → IsSound db
        → IsSound (reserve_and_insert_trade now o db).1
    unfolding reserve_and_insert_trade
    reserve-IsSound now o {db} p q h =
        elim (Option-cases (fetch_one (is_row_of o.strategy o.asset) db.bankroll)) [
          | inl e ↦ rw (e, reserve_and_insert_trade) h
          | inr (row, e) ↦ elim (Bool-cases (num.lt row.current (cost_of o))) [
            | inl poor ↦ rw (e, reserve_and_insert_trade) (rw poor h)
            | inr rich ↦
                rw (e, reserve_and_insert_trade) (rw rich (reserved-IsSound now o row p q e h))
          ]
        ]

    resolved-IsSound :
        (now i : ℕ) (out : Outcome) (pnl : F) (t : Trade F) {db : Database F}
        → IsSound db
        → IsSound (resolved now i out pnl t db)
    unfolding resolved
    resolved-IsSound now i out pnl t {db} h =
        let row = fetch_one (is_row_of t.strategy t.asset) db.bankroll in
        let bal = num.add (num.add (current_or row) (num.mul t.entry_price t.bet_size)) pnl in
        let f = set_balance now bal (fmax (peak_or row) bal) in
        record {
          peaked =
              All-update_where (λ (r : Bankroll F). r.current ≼ r.peak)
                (is_row_of t.strategy t.asset) f db.bankroll
                (λ r _ _. le-fmax_right laws (peak_or row) bal) h.peaked;
          keyed = update-keyed t.strategy t.asset f db.bankroll (λ _ _. refl) (λ _ _. refl) h.keyed;
          numbered =
              Distinct-update_where same_trade (has_id i) (set_outcome out pnl) db.trades
                (λ _ _. refl) (λ _ _. refl) h.numbered;
        }

    write-IsSound :
        (op : Write F) (db : Database F) → IsSane op → IsSound db → IsSound (write op db)
    unfolding write seed_bankroll resolve_trade move_to_dead_letter resolve_dead_letter
        save_signal_state record_price log_risk_event save_regime save_equity_snapshot
    write-IsSound (seed now ss assets x) db _ h =
        let rows = seed_rows_sound now x ss assets db.bankroll (h.peaked, h.keyed) in
        record { peaked = rows.0; keyed = rows.1; numbered = h.numbered }
    write-IsSound (fee s a x) db pos h = deduct_fee-IsSound s a x pos h
    write-IsSound (reserve now o) db (p, q) h = reserve-IsSound now o p q h
    write-IsSound (resolve now i o p) db _ h =
        elim (Option-cases (fetch_one (has_id i) db.trades)) [
          | inl e ↦ rw (e, resolve_trade) h
          | inr (t, e) ↦ rw (e, resolve_trade) (resolved-IsSound now i o p t h)
        ]
    write-IsSound (void i reason) db _ h = elim (Option-cases (fetch_one (has_id i) db.trades)) [
      | inl e ↦ rw (e, move_to_dead_letter) h
      | inr (t, e) ↦
          rw (e, move_to_dead_letter)
            (record {
              peaked = h.peaked;
              keyed = h.keyed;
              numbered =
                  Distinct-update_where same_trade (has_id i) (set_outcome Outcome.void zero_f)
                    db.trades (λ _ _. refl) (λ _ _. refl) h.numbered;
            })
    ]
    write-IsSound (close_void now i o) db _ h = record {
      peaked = h.peaked;
      keyed = h.keyed;
      numbered = h.numbered;
    }
    write-IsSound (state now s a sig c snap rsi bb reg m) db _ h = record {
      peaked = h.peaked;
      keyed = h.keyed;
      numbered = h.numbered;
    }
    write-IsSound (price now a p) db _ h = record {
      peaked = h.peaked;
      keyed = h.keyed;
      numbered = h.numbered;
    }
    write-IsSound (event now k s a d) db _ h = record {
      peaked = h.peaked;
      keyed = h.keyed;
      numbered = h.numbered;
    }
    write-IsSound (regime now a r x y z) db _ h = record {
      peaked = h.peaked;
      keyed = h.keyed;
      numbered = h.numbered;
    }
    write-IsSound (equity now s a b p n) db _ h = record {
      peaked = h.peaked;
      keyed = h.keyed;
      numbered = h.numbered;
    }

    -- Over ordered numbers with monotone rounding: any sequence of writes whose fees and stakes are
    -- not negative keeps one balance for each strategy and asset, no balance above its peak, and
    -- one trade for each id.
    pub write_all-IsSound :
        (ops : List (Write F)) (db : Database F)
        → All IsSane ops
        → IsSound db
        → IsSound (write_all ops db)
    unfolding write_all
    write_all-IsSound [] db sane h = h
    write_all-IsSound (op ∷ ops) db (now, later) h =
        write_all-IsSound ops (write op db) later (write-IsSound op db now h)
