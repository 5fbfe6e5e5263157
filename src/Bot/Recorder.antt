-- ===== src/Bot/Recorder.antt =====
-- main.py, `price_recorder`: the prices of the Binance feed go into the price history.
use poly_market_prediction_b.Base.{
  ℕ, ◌≡◌, ◌∙◌, refl, String, true, false, List, [], ◌∷◌, ◌++◌, ◌==◌, string_eq, if◌then◌else◌, All,
  Bool-cases, inl, inr,
}
use poly_market_prediction_b.Number.{Number, zero_f}
use poly_market_prediction_b.Feeds.Binance.{BinanceFeed, get_snapshot}
use poly_market_prediction_b.Storage.{Database}
use poly_market_prediction_b.Storage.History.{record_price, get_price_history}
use poly_market_prediction_b.Storage.History.Prices.{
  get_price_history-record_price, get_price_history-newest,
}

module _ {F : Type 0} ⦃num : Number F⦄ where
  open num use {lt}

  -- The price of one asset, at the time at which it is recorded.
  unfoldable pub record_snapshot : ℕ → BinanceFeed F → String → Database F → Database F
  record_snapshot now feed asset db =
      let snapshot = get_snapshot asset feed in
      if lt zero_f snapshot.last_price then record_price now asset snapshot.last_price db else db

  -- One turn of the loop, over `settings.assets`. The clock gives the time at each asset.
  unfoldable pub record_prices :
      (String → ℕ) → BinanceFeed F → List String → Database F → Database F
  unfolding record_snapshot
  record_prices clock feed [] db = db
  record_prices clock feed (asset ∷ assets) db =
      record_prices clock feed assets (record_snapshot (clock asset) feed asset db)

  record_snapshot_other :
      (now : ℕ) (feed : BinanceFeed F) (asset other : String) (limit : ℕ) (db : Database F)
      → (asset == other) ≡ false
      → get_price_history asset limit (record_snapshot now feed other db)
        ≡ get_price_history asset limit db
  unfolding record_snapshot
  record_snapshot_other now feed asset other limit db h =
      let price = (get_snapshot other feed).last_price in
      elim (Bool-cases (lt zero_f price)) [
        | inl good ↦ rw good (get_price_history-record_price now other asset price limit db h)
        | inr bad ↦ rw bad refl
      ]

  record_prices_others :
      (clock : String → ℕ) (feed : BinanceFeed F) (asset : String) (limit : ℕ)
      (assets : List String) (db : Database F)
      → All (λ a. (asset == a) ≡ false) assets
      → get_price_history asset limit (record_prices clock feed assets db)
        ≡ get_price_history asset limit db
  unfolding record_prices
  record_prices_others clock feed asset limit [] db h = refl
  record_prices_others clock feed asset limit (a ∷ assets) db (h, hs) =
      record_prices_others clock feed asset limit assets (record_snapshot (clock a) feed a db) hs
      ∙ record_snapshot_other (clock a) feed asset a limit db h

  -- After a turn over assets among which this one stands, and not again after that, and where the feed
  -- has a price above zero for it: the newest price in its history is the last price of the feed, at
  -- the time of the clock for it.
  pub record_prices-get_snapshot :
      (clock : String → ℕ) (feed : BinanceFeed F) (asset : String) (before after : List String)
      (db : Database F)
      → All (λ a. (asset == a) ≡ false) after
      → lt zero_f (get_snapshot asset feed).last_price ≡ true
      → get_price_history asset 1 (record_prices clock feed (before ++ (asset ∷ after)) db)
        ≡ (clock asset, (get_snapshot asset feed).last_price) ∷ []
  unfolding record_prices
  record_prices-get_snapshot clock feed asset [] after db h good =
      let price = (get_snapshot asset feed).last_price in
      record_prices_others clock feed asset 1 after (record_snapshot (clock asset) feed asset db) h
      ∙ rw good (get_price_history-newest (clock asset) asset price db)
  record_prices-get_snapshot clock feed asset (b ∷ before) after db h good =
      record_prices-get_snapshot clock feed asset before after (record_snapshot (clock b) feed b db)
        h good
