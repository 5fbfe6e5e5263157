-- ===== src/Feeds/Rsi/Updates.antt =====
-- feeds/rsi_feed.py: the closes after any sequence of updates.
use poly_market_prediction_b.Base.{
  ◌≤◌, String, true, ◌≡◌, refl, Option, none, some, List, [], ◌∷◌, ◌==◌, string_eq, any, All,
  last_n, if◌then◌else◌, arith, Bool-cases, Option-cases, inl, inr,
}
use poly_market_prediction_b.Base.Dict.{lookup}
use poly_market_prediction_b.Number.{Number, zero_f}
use poly_market_prediction_b.Feeds.Rsi.{
  RsiFeed, assets, max_candles, current_minute_ts, new_feed, tick_of, update,
}
use poly_market_prediction_b.Feeds.Rsi.Candles.{Tick, IsFollowed, ticks}
use poly_market_prediction_b.Feeds.Rsi.Closes.{finished, ticks-finished}

module _ {F : Type 0} ⦃num : Number F⦄ where
  open num use {le}

  -- Updates with the time of each.
  unfoldable pub updates : List (Tick F) → RsiFeed F → Option (RsiFeed F)
  updates [] feed = some feed
  updates ((now, asset, price) ∷ rest) feed = elim (update now asset price feed) [
    | none ↦ none
    | some feed' ↦ updates rest feed'
  ]

  -- The ticks of the updates whose price is above zero, by their minutes.
  abbrev pub ticks_of : List (Tick F) → List (Tick F)
  ticks_of [] = []
  ticks_of ((now, asset, price) ∷ rest) =
      if le price zero_f
      then ticks_of rest
      else (current_minute_ts now, asset, price) ∷ ticks_of rest

  -- An asset that the feed follows, at a time past the first minute of the epoch.
  abbrev pub IsTimely : Tick F → Type 0
  IsTimely (now, asset, price) = (60_000_000 ≤ now) × (any (λ a. a == asset) assets ≡ true)

  updates-ticks :
      (us : List (Tick F)) (feed : RsiFeed F) → updates us feed ≡ ticks (ticks_of us) feed
  unfolding updates update ticks
  updates-ticks [] feed = refl
  updates-ticks ((now, asset, price) ∷ rest) feed = elim (Bool-cases (le price zero_f)) [
    | inl e ↦ ground (arith, e, updates-ticks rest feed)
    | inr e ↦ elim (Option-cases (tick_of (current_minute_ts now) asset price feed)) [
      | inl h ↦ ground (arith, e, h)
      | inr (feed', h) ↦ ground (arith, e, h, updates-ticks rest feed')
    ]
  ]

  -- A new feed has no closes and no candle of an asset that it follows.
  new_feed-lookup :
      (asset : String)
      → any (λ a. a == asset) assets ≡ true
      → (lookup asset (new_feed {F = F}).closes ≡ some [])
        × (lookup asset (new_feed {F = F}).current_candle
            ≡ some (record { open_time = 0; prices = [] }))
  new_feed-lookup asset known = ground (
    arith,
    string_eq.beq_iff asset "BTC",
    string_eq.beq_iff "BTC" asset,
    string_eq.beq_iff asset "ETH",
    string_eq.beq_iff "ETH" asset,
    string_eq.beq_iff asset "SOL",
    string_eq.beq_iff "SOL" asset,
  )

  followed : (us : List (Tick F)) → All IsTimely us → All (IsFollowed new_feed) (ticks_of us)
  followed [] h = tt
  followed ((now, asset, price) ∷ rest) ((late, known), h) =
      ground (arith, followed rest h, new_feed-lookup asset known)

  -- After any updates of followed assets past the first minute of the epoch, on a new feed: the closes
  -- of a followed asset are the last prices above zero of its minutes that are over, the newest 30
  -- of them. Updates of other assets do not count, and the minutes may come in any order.
  pub updates-closes :
      (asset : String) (us : List (Tick F))
      → any (λ a. a == asset) assets ≡ true
      → All IsTimely us
      → (feed : RsiFeed F) × (updates us new_feed ≡ some feed)
        × (lookup asset feed.closes ≡ some (last_n max_candles (finished asset (ticks_of us))))
  updates-closes asset us known timely =
      let (none_closed, no_candle) = new_feed-lookup asset known in
      let (feed, run, result) =
        ticks-finished asset (ticks_of us) new_feed none_closed no_candle (followed us timely) in
      (feed, ground (arith, updates-ticks us new_feed, run), result)
