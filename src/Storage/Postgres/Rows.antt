-- ===== src/Storage/Postgres/Rows.antt =====
-- storage/postgres.py: statements on rows against those of SQLite.
use mathlib.Core.List.{reverse-append}
use mathlib.Core.Path.{fun_ext}
use poly_market_prediction_b.Base.{
  ℕ, suc, ◌≤◌, String, Bool, true, not, ◌&&◌, ◌≡◌, refl, ap, ◌∙◌, List, [], ◌∷◌, ◌++◌, ◌==◌,
  string_eq, nat_eq, map, any, select, select-append, if◌then◌else◌, arith,
}
use poly_market_prediction_b.Base.Tables.{update_where, next_id}
use poly_market_prediction_b.Number.{Number}
use poly_market_prediction_b.Storage.{Bankroll, SignalState, PricePoint}
use poly_market_prediction_b.Storage.Accounts.{seed_row, seed_assets, seed_rows}
use poly_market_prediction_b.Storage.Trades.{newest}
use poly_market_prediction_b.Storage.History.{
  upsert_signal_state, is_state_of, is_price_of, is_kept, trim_prices,
}
use poly_market_prediction_b.Storage.Postgres.{seed_pair, seed_pairs, pairs_of}
use poly_market_prediction_b.Storage.Postgres.History.{upsert_state, prune}

module _ {A : Type 0} where
  -- A row with the next id raises it by one.
  pub next_id-append :
      (id : A → ℕ) (rows : List A) (row : A)
      → next_id id rows ≤ id row
      → next_id id (rows ++ (row ∷ [])) ≡ suc (id row)
  next_id-append id [] row h = omega arith
  next_id-append id (r ∷ rows) row h = omega (arith, next_id-append id rows row)

  pub next_id-update_where :
      (id : A → ℕ) (p : A → Bool) (f : A → A) (rows : List A)
      → ((r : A) → id (f r) ≡ id r)
      → next_id id (update_where p f rows) ≡ next_id id rows
  next_id-update_where id p f [] keep = refl
  next_id-update_where id p f (r ∷ rows) keep =
      ground (arith, keep r, next_id-update_where id p f rows keep)

  pub next_id-select-le :
      (id : A → ℕ) (p : A → Bool) (rows : List A) → next_id id (select p rows) ≤ next_id id rows
  next_id-select-le id p [] = omega arith
  next_id-select-le id p (r ∷ rows) = ground (arith, next_id-select-le id p rows)

  -- A selection that keeps the last row, whose id is the next, keeps the next id.
  pub next_id-select :
      (id : A → ℕ) (p : A → Bool) (rows : List A) (row : A)
      → next_id id rows ≤ id row
      → p row ≡ true
      → next_id id (select p (rows ++ (row ∷ []))) ≡ suc (id row)
  next_id-select id p rows row h k =
      rw (select-append p rows (row ∷ []))
        (rw k (next_id-append id (select p rows) row (omega (arith, next_id-select-le id p rows))))

  pub map-update_where :
      (p : A → Bool) (f : A → A) (rows : List A)
      → map (λ r. if p r then f r else r) rows ≡ update_where p f rows
  map-update_where p f [] = refl
  map-update_where p f (r ∷ rows) =
      ap (λ rs. (if p r then f r else r) ∷ rs) (map-update_where p f rows)

abbrev pub price_id : {F : Type 0} → PricePoint F → ℕ
price_id p = p.id

module _ {F : Type 0} ⦃num : Number F⦄ where
  pub seed_pair-seed_row :
      (now : ℕ) (initial : F) (strategy asset : String) (rows : List (Bankroll F))
      → seed_pair now initial strategy asset rows ≡ seed_row now initial strategy asset rows
  unfolding seed_pair seed_row
  seed_pair-seed_row now initial strategy asset [] = refl
  seed_pair-seed_row now initial strategy asset (r ∷ rows) =
      ground (arith, seed_pair-seed_row now initial strategy asset rows)

  pub seed_pairs-assets :
      (now : ℕ) (initial : F) (strategy : String) (assets : List String)
      (more : List (String × String)) (rows : List (Bankroll F))
      → seed_pairs now initial (map (λ asset. (strategy, asset)) assets ++ more) rows
        ≡ seed_pairs now initial more (seed_assets now initial strategy assets rows)
  unfolding seed_pairs seed_assets
  seed_pairs-assets now initial strategy [] more rows = refl
  seed_pairs-assets now initial strategy (asset ∷ assets) more rows =
      ap (seed_pairs now initial (map (λ a. (strategy, a)) assets ++ more))
        (seed_pair-seed_row now initial strategy asset rows)
      ∙ seed_pairs-assets now initial strategy assets more _

  pub seed_pairs-seed_rows :
      (now : ℕ) (initial : F) (strategies assets : List String) (rows : List (Bankroll F))
      → seed_pairs now initial (pairs_of strategies assets) rows
        ≡ seed_rows now initial strategies assets rows
  unfolding seed_pairs pairs_of seed_rows
  seed_pairs-seed_rows now initial [] assets rows = refl
  seed_pairs-seed_rows now initial (strategy ∷ strategies) assets rows =
      seed_pairs-assets now initial strategy assets (pairs_of strategies assets) rows
      ∙ seed_pairs-seed_rows now initial strategies assets _

  pub upsert_state-eq :
      (new : SignalState F) (rows : List (SignalState F))
      → upsert_state new rows ≡ upsert_signal_state new rows
  unfolding upsert_state upsert_signal_state
  upsert_state-eq new rows =
      rw
        (map-update_where (is_state_of new.strategy new.asset)
          (λ r. record new { strategy = r.strategy; asset = r.asset }) rows)
        refl

  pub any-newest_ids :
      (p : PricePoint F) (rows : List (PricePoint F))
      → any (λ i. p.id == i) (map price_id rows) ≡ any (λ (q : PricePoint F). p.id == q.id) rows
  any-newest_ids p [] = refl
  any-newest_ids p (r ∷ rows) = ground (arith, any-newest_ids p rows)

  pub prune-trim_prices :
      (asset : String) (rows : List (PricePoint F)) → prune asset rows ≡ trim_prices asset rows
  unfolding prune trim_prices
  prune-trim_prices asset rows =
      ap (λ kept. select (λ p. not (is_price_of asset p && not (kept p))) rows)
        (fun_ext (λ p. any-newest_ids p (newest 200 (select (is_price_of asset) rows))))

  -- The newest point of an asset is among those kept.
  newest-is_kept :
      (asset : String) (rows : List (PricePoint F)) (point : PricePoint F)
      → point.asset ≡ asset
      → is_kept asset (rows ++ (point ∷ [])) point ≡ true
  newest-is_kept asset rows point h = ground (
    arith,
    string_eq.beq_iff point.asset asset,
    select-append (is_price_of asset) rows (point ∷ []),
    reverse-append (select (is_price_of asset) rows) (point ∷ []),
  )

  pub next_id-trim_prices :
      (asset : String) (rows : List (PricePoint F)) (point : PricePoint F)
      → next_id price_id rows ≤ point.id
      → point.asset ≡ asset
      → next_id price_id (trim_prices asset (rows ++ (point ∷ []))) ≡ suc point.id
  unfolding trim_prices
  next_id-trim_prices asset rows point h e =
      next_id-select price_id
        (λ p. not (is_price_of asset p && not (is_kept asset (rows ++ (point ∷ [])) p))) rows point
        h (ground (arith, newest-is_kept asset rows point e))
