-- ===== src/Feeds/Rsi/Candles.antt =====
-- feeds/rsi_feed.py: the closes are the last prices of the minutes that are over.
use mathlib.Core.List.{reverse-append}
use poly_market_prediction_b.Base.{
  ℕ, ◌≤◌, String, true, false, ◌≡◌, refl, Option, none, some, List, [], ◌∷◌, ◌++◌, ◌==◌, is_some,
  string_eq, nat_eq, if◌then◌else◌, last_n, arith,
}
use poly_market_prediction_b.Base.Dict.{lookup, insert, lookup-insert}
use poly_market_prediction_b.Feeds.Rsi.{Candle, RsiFeed, max_candles, close_candle, tick, tick_of}

-- A tick: its minute, its asset and its price.
abbrev pub Tick : Type 0 → Type 0
Tick F = ℕ × String × F

module _ {F : Type 0} where
  unfoldable pub ticks : List (Tick F) → RsiFeed F → Option (RsiFeed F)
  ticks [] feed = some feed
  ticks ((minute, asset, price) ∷ rest) feed = elim (tick_of minute asset price feed) [
    | none ↦ none
    | some feed' ↦ ticks rest feed'
  ]

  -- Without the last element.
  abbrev pub init : List F → List F
  init [] = []
  init (x ∷ []) = []
  init (x ∷ y ∷ rest) = x ∷ init (y ∷ rest)

  -- The last price of each run of ticks of the asset in one minute, after a price in a minute.
  abbrev pub minute_closes : String → ℕ → F → List (Tick F) → List F
  minute_closes asset minute price [] = price ∷ []
  minute_closes asset minute price ((m, a, p) ∷ rest) =
      if a == asset
      then (if m == minute
          then minute_closes asset m p rest
          else price ∷ minute_closes asset m p rest)
      else minute_closes asset minute price rest

  pub init-minute_closes :
      (asset : String) (minute : ℕ) (price x : F) (rest : List (Tick F))
      → init (x ∷ minute_closes asset minute price rest)
        ≡ x ∷ init (minute_closes asset minute price rest)
  init-minute_closes asset minute price x [] = refl
  init-minute_closes asset minute price x ((m, a, p) ∷ rest) = ground (
    arith,
    init-minute_closes asset m p x rest,
    init-minute_closes asset m p price rest,
    init-minute_closes asset minute price x rest,
  )

  -- The candle of the asset is open in this minute, and its last price is this one.
  abbrev pub IsOpen : String → ℕ → F → RsiFeed F → Type 0
  IsOpen asset minute price feed =
      (earlier : List F) × (lookup asset feed.current_candle
        ≡ some (record { open_time = minute; prices = earlier ++ (price ∷ []) }))

  pub tick_of-lookup :
      (m : ℕ) (a : String) (p : F) (feed : RsiFeed F) (closes : List F) (candle : Candle F)
      → lookup a feed.closes ≡ some closes
      → lookup a feed.current_candle ≡ some candle
      → (feed' : RsiFeed F) × (tick_of m a p feed ≡ some feed')
        × ((j : String)
            → lookup j feed'.closes
              ≡ (if j == a then some (tick m p closes candle).0 else lookup j feed.closes))
        × ((j : String)
            → lookup j feed'.current_candle
              ≡ (if j == a then some (tick m p closes candle).1 else lookup j feed.current_candle))
  unfolding tick_of
  tick_of-lookup m a p feed closes candle h k =
      let next = tick m p closes candle in
      (
        record {
          closes = insert a next.0 feed.closes;
          current_candle = insert a next.1 feed.current_candle;
        },
        ground (arith, h, k),
        λ j. lookup-insert a j next.0 feed.closes,
        λ j. lookup-insert a j next.1 feed.current_candle,
      )

  -- The feed follows the assets of the ticks, and their minutes are not 0, which marks no candle.
  abbrev pub IsFollowed : RsiFeed F → Tick F → Type 0
  IsFollowed feed (m, a, p) =
      (1 ≤ m)
      × (is_some (lookup a feed.closes) ≡ true)
      × (is_some (lookup a feed.current_candle) ≡ true)

  -- Within the minute, the candle takes the price.
  pub tick_within :
      (m : ℕ) (p price : F) (closes earlier : List F)
      → 1 ≤ m
      → tick m p closes (record { open_time = m; prices = earlier ++ (price ∷ []) })
        ≡ (closes, record { open_time = m; prices = (earlier ++ (price ∷ [])) ++ (p ∷ []) })
  unfolding tick
  tick_within m p price closes earlier h = ground arith

  -- Past the minute, the last price of the candle is closed.
  pub tick_past :
      (m minute : ℕ) (p price : F) (closes earlier : List F)
      → 1 ≤ minute
      → (m == minute) ≡ false
      → tick m p closes (record { open_time = minute; prices = earlier ++ (price ∷ []) })
        ≡ (last_n max_candles (closes ++ (price ∷ [])), record { open_time = m; prices = p ∷ [] })
  unfolding tick close_candle
  tick_past m minute p price closes earlier h k =
      ground (arith, k, reverse-append earlier (price ∷ []))

  pub following :
      (m : ℕ) (a : String) (p : F) (feed feed' : RsiFeed F) (closes : List F) (candle : Candle F)
      → ((j : String)
          → lookup j feed'.closes ≡ (if j == a then some closes else lookup j feed.closes))
      → ((j : String)
          → lookup j feed'.current_candle
            ≡ (if j == a then some candle else lookup j feed.current_candle))
      → (t : Tick F) → IsFollowed feed t
      → IsFollowed feed' t
  following m a p feed feed' closes candle g h (n, b, q) (k, i, j) =
      (k, ground (arith, g b), ground (arith, h b))
