-- ===== src/Storage/History/Prices.antt =====
-- storage/database.py: what a recorded price does to the history of its asset, and to the others.
use text.Mathlib.TextEquality.{eq_iff}
use mathlib.Core.List.{map, reverse, reverse-append}
use poly_market_prediction_b.Storage.Trades.{newest}
use poly_market_prediction_b.Base.{
  append_nil, ℕ, String, Bool, true, false, ◌≡◌, refl, ap, List, [], ◌∷◌, ◌++◌, ◌==◌, string_eq,
  nat_eq, ◌∙◌, take, not, ◌&&◌, select, select-append, arith,
}
use poly_market_prediction_b.Base.Tables.{next_id}
use poly_market_prediction_b.Storage.{Database, PricePoint}
use poly_market_prediction_b.Storage.History.{
  is_price_of, is_kept, trim_prices, record_price, get_price_history,
}

module _ {F : Type 0} where
  select-select :
      (p q : PricePoint F → Bool) (rows : List (PricePoint F))
      → ((r : PricePoint F) → p r ≡ true → q r ≡ true)
      → select p (select q rows) ≡ select p rows
  select-select p q [] h = refl
  select-select p q (r ∷ rows) h = ground (arith, h r, select-select p q rows h)

  other_kept :
      (asset other : String) (kept : Bool) (r : PricePoint F)
      → (other == asset) ≡ false
      → is_price_of other r ≡ true
      → not (is_price_of asset r && not kept) ≡ true
  other_kept asset other kept r h k =
      ground (arith, eq_iff r.asset other, eq_iff r.asset asset, eq_iff other asset)

  select-trim_prices :
      (asset other : String) (rows : List (PricePoint F))
      → (other == asset) ≡ false
      → select (is_price_of other) (trim_prices asset rows) ≡ select (is_price_of other) rows
  unfolding trim_prices
  select-trim_prices asset other rows h =
      select-select (is_price_of other)
        (λ p. not (is_price_of asset p && not (is_kept asset rows p))) rows
        (λ r. other_kept asset other (is_kept asset rows r) r h)

  select-record :
      (asset other : String) (rows : List (PricePoint F)) (row : PricePoint F)
      → (other == asset) ≡ false
      → row.asset ≡ asset
      → select (is_price_of other) (trim_prices asset (rows ++ (row ∷ [])))
        ≡ select (is_price_of other) rows
  select-record asset other rows row h e =
      rw (select-trim_prices asset other (rows ++ (row ∷ [])) h) (
        rw select-append (
          ground (
            arith,
            eq_iff row.asset other,
            eq_iff other asset,
            append_nil (select (is_price_of other) rows),
          )))

  -- A price recorded for one asset leaves the price history of every other asset.
  pub get_price_history-record_price :
      (now : ℕ) (asset other : String) (price : F) (limit : ℕ) (db : Database F)
      → (other == asset) ≡ false
      → get_price_history other limit (record_price now asset price db)
        ≡ get_price_history other limit db
  unfolding record_price get_price_history
  get_price_history-record_price now asset other price limit db h =
      ap (λ ps. map (λ (p : PricePoint F). (p.timestamp, p.price)) (reverse (newest limit ps)))
        (select-record asset other db.price_history _ h refl)

  select-snoc :
      (p : PricePoint F → Bool) (rows : List (PricePoint F)) (row : PricePoint F)
      → p row ≡ true
      → select p (rows ++ (row ∷ [])) ≡ select p rows ++ (row ∷ [])
  select-snoc p rows row h = ground (arith, select-append p rows (row ∷ []), h)

  -- The last row of an asset is among those that are kept.
  is_kept_last :
      (asset : String) (rows : List (PricePoint F)) (row : PricePoint F)
      → is_price_of asset row ≡ true
      → is_kept asset (rows ++ (row ∷ [])) row ≡ true
  is_kept_last asset rows row h = rw (select-snoc (is_price_of asset) rows row h) (
      rw (reverse-append (select (is_price_of asset) rows) (row ∷ []))
        (ground (arith, nat_eq.beq_iff row.id row.id)))

  -- The newest price of an asset is the one that was recorded last.
  pub get_price_history-newest :
      (now : ℕ) (asset : String) (price : F) (db : Database F)
      → get_price_history asset 1 (record_price now asset price db) ≡ (now, price) ∷ []
  unfolding record_price get_price_history trim_prices
  get_price_history-newest now asset price db =
      let row : PricePoint F = record {
        id = next_id (λ (p : PricePoint F). p.id) db.price_history;
        timestamp = now;
        asset = asset;
        price = price;
      } in
      let of_asset = is_price_of asset in
      let stays : PricePoint F → Bool =
        λ p. not (is_price_of asset p && not (is_kept asset (db.price_history ++ (row ∷ [])) p)) in
      let pair : PricePoint F → ℕ × F = λ p. (p.timestamp, p.price) in
      let mine : of_asset row ≡ true = ground (arith, eq_iff asset asset) in
      let kept = is_kept_last asset db.price_history row mine in
      let others = select stays db.price_history in
      ap (λ ps. map pair (reverse (newest 1 (select of_asset ps))))
        (select-snoc stays db.price_history row (ground (arith, kept)))
      ∙ ap (λ ps. map pair (reverse (newest 1 ps))) (select-snoc of_asset others row mine)
      ∙ ap (λ ps. map pair (reverse (take 1 ps)))
          (reverse-append (select of_asset others) (row ∷ []))
