-- ===== src/Feeds/Rsi.antt =====
-- feeds/rsi_feed.py (`RSIFeed`): candles of a minute, the RSI and the Bollinger bands. Times are
-- microseconds. `** 0.5` is the parameter `sqrt`, and `** 2` is a product. `none` around a result is
-- the KeyError of an asset that is not followed.
pub mod Candles
pub mod Closes
pub mod Updates
pub mod Range
use mathlib.Core.List.{reverse, foldl}
use poly_market_prediction_b.Base.{
  ℕ, ◌+◌, ◌*◌, ◌/◌, String, Option, none, some, List, [], ◌∷◌, ◌++◌, ◌==◌, map, if◌then◌else◌, ltb,
  string_eq, nat_eq, length, last_n,
}
use poly_market_prediction_b.Base.Dict.{Dict, lookup, insert}
use poly_market_prediction_b.Number.{Number, zero_f, one_f, of_ℕ, fmax, fmin, fabs}

abbrev pub assets : List String
assets = "BTC" ∷ "ETH" ∷ "SOL" ∷ []

abbrev pub max_candles : ℕ
max_candles = 30

pub record Candle (F : Type 0) : Type 0 where
  pub open_time : ℕ
  pub prices : List F

pub record RsiFeed (F : Type 0) : Type 0 where
  pub closes : Dict String (List F)
  pub current_candle : Dict String (Candle F)

-- `{upper, mid, lower, pct}`
pub record Bollinger (F : Type 0) : Type 0 where
  pub upper : F
  pub mid : F
  pub lower : F
  pub pct : F

-- `_current_minute_ts`, in seconds.
abbrev pub current_minute_ts : ℕ → ℕ
current_minute_ts now = now / 60_000_000 * 60

module _ {F : Type 0} where
  abbrev pub new_feed : RsiFeed F
  new_feed = record {
    closes = map (λ a. (a, [])) assets;
    current_candle = map (λ a. (a, record { open_time = 0; prices = [] })) assets;
  }

  -- `prices[-1]` appended to the closes, a deque of at most 30, unless there is no price.
  unfoldable pub close_candle : List F → List F → List F
  close_candle prices closes = elim (reverse prices) [
    | [] ↦ closes
    | last ∷ rest ↦ last_n max_candles (closes ++ (last ∷ []))
  ]

  -- A tick of an asset with these closes and this candle.
  unfoldable pub tick : ℕ → F → List F → Candle F → List F × Candle F
  unfolding close_candle
  tick now_min price closes candle =
      let opened : Candle F = record { open_time = now_min; prices = price ∷ [] } in
      if candle.open_time == 0
      then (closes, opened)
      else if now_min == candle.open_time
      then (closes, record candle { prices = candle.prices ++ (price ∷ []) })
      else (close_candle candle.prices closes, opened)

  unfoldable pub tick_of : ℕ → String → F → RsiFeed F → Option (RsiFeed F)
  unfolding tick
  tick_of now_min asset price feed = elim (lookup asset feed.current_candle) [
    | none ↦ none
    | some candle ↦ elim (lookup asset feed.closes) [
      | none ↦ none
      | some closes ↦
          let (closes', candle') = tick now_min price closes candle in
          some (record {
            closes = insert asset closes' feed.closes;
            current_candle = insert asset candle' feed.current_candle;
          })
    ]
  ]

module _ {F : Type 0} ⦃num : Number F⦄ where
  open num use {add, sub, mul, div, lt, le, eq, round}

  unfoldable pub update : ℕ → String → F → RsiFeed F → Option (RsiFeed F)
  unfolding tick_of
  update now asset price feed =
      if le price zero_f then some feed else tick_of (current_minute_ts now) asset price feed

  -- `closes[i] - closes[i - 1]`
  unfoldable pub deltas : List F → List F
  deltas [] = []
  deltas (x ∷ []) = []
  deltas (x ∷ y ∷ rest) = sub y x ∷ deltas (y ∷ rest)

  -- `sum(xs)`
  abbrev pub sum_f : List F → F
  sum_f xs = foldl add zero_f xs

  abbrev pub gain : F → F
  gain d = fmax d zero_f

  abbrev pub loss : F → F
  loss d = fabs (fmin d zero_f)

  -- The RSI of the last `period` changes.
  unfoldable pub rsi_of : ℕ → List F → F
  rsi_of period recent =
      let avg_gain = div (sum_f (map gain recent)) (of_ℕ period) in
      let avg_loss = div (sum_f (map loss recent)) (of_ℕ period) in
      if eq avg_loss zero_f
      then of_ℕ 100
      else round 2 (sub (of_ℕ 100) (div (of_ℕ 100) (add one_f (div avg_gain avg_loss))))

  unfoldable pub get_rsi : String → ℕ → RsiFeed F → Option (Option F)
  unfolding deltas rsi_of
  get_rsi asset period feed = elim (lookup asset feed.closes) [
    | none ↦ none
    | some closes ↦ some (
        if ltb (length closes) (period + 1)
        then none
        else some (rsi_of period (last_n period (deltas closes))))
  ]

  -- The bands of the last `period` closes, of which `price` is the last.
  unfoldable pub bands : (F → F) → ℕ → F → F → List F → Bollinger F
  bands sqrt period std_mult price window =
      let mean = div (sum_f window) (of_ℕ period) in
      let square : F → F = λ p. mul (sub p mean) (sub p mean) in
      let variance = div (sum_f (map square window)) (of_ℕ period) in
      let std = sqrt variance in
      let upper = round 2 (add mean (mul std_mult std)) in
      let lower = round 2 (sub mean (mul std_mult std)) in
      let band_width = sub upper lower in
      record {
        upper = upper;
        mid = round 2 mean;
        lower = lower;
        pct =
            (if lt zero_f band_width
              then round 4 (div (sub price lower) band_width)
              else num.dec 5 1);
      }

  -- For a `period` of at least one.
  unfoldable pub get_bollinger :
      (F → F) → String → ℕ → F → RsiFeed F → Option (Option (Bollinger F))
  unfolding bands
  get_bollinger sqrt asset period std_mult feed = elim (lookup asset feed.closes) [
    | none ↦ none
    | some closes ↦ some (
        if ltb (length closes) period then none else elim (reverse closes) [
          | [] ↦ none
          | price ∷ rest ↦ some (bands sqrt period std_mult price (last_n period closes))
        ])
  ]
