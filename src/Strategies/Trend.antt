-- ===== src/Strategies/Trend.antt =====
-- strategies/multi_tf.py: candles from ticks, and trends from the slope of their EMA.
-- A time is in microseconds. `none` in place of a trend is the IndexError of a series with fewer than
-- two values.
pub mod Confirm
use mathlib.Core.List.{reverse}
use poly_market_prediction_b.Base.{
  ℕ, ◌+◌, ◌*◌, ◌/◌, String, Bool, true, false, Option, none, some, List, [], ◌∷◌, ◌++◌, ◌==◌,
  string_eq, nat_eq, if◌then◌else◌, ltb, length, last_n, get_or,
}
use poly_market_prediction_b.Base.Dict.{Dict, lookup, insert}
use poly_market_prediction_b.Core.Types.{Signal}
use poly_market_prediction_b.Number.{Number, zero_f, one_f, of_ℕ, fabs}

abbrev pub max_candles : ℕ
max_candles = 20

abbrev pub ema_period : ℕ
ema_period = 5

pub data Trend : Type 0 where
  up down flat : Trend

pub data Timeframe : Type 0 where
  five_minutes fifteen_minutes other_timeframe : Timeframe

-- `_CandleBuilder`
pub record CandleBuilder (F : Type 0) : Type 0 where
  pub duration : ℕ
  pub closes : List F
  pub cur_bucket : ℕ
  pub cur_prices : List F

-- `trend_5m != "DOWN"` for BUY_YES, `trend_5m != "UP"` for BUY_NO, and any other direction.
abbrev pub agrees : Signal → Trend → Bool
agrees Signal.buy_yes Trend.down = false
agrees Signal.buy_no Trend.up = false
agrees _ _ = true

-- The builders of one asset, for candles of one and of five minutes.
pub record Builders (F : Type 0) : Type 0 where
  pub one_minute : CandleBuilder F
  pub five_minute : CandleBuilder F

abbrev pub Trends : Type 0 → Type 0
Trends F = Dict String (Builders F)

-- `_bucket_ts`
abbrev pub bucket_ts : ℕ → ℕ → ℕ
bucket_ts ts seconds = ts / 1_000_000 / seconds * seconds

module _ {F : Type 0} where
  abbrev pub new_builder : ℕ → CandleBuilder F
  new_builder seconds = record { duration = seconds; closes = []; cur_bucket = 0; cur_prices = [] }

  abbrev pub new_builders : Builders F
  new_builders = record { one_minute = new_builder 60; five_minute = new_builder 300 }

  -- `self._closes.append(self._cur_prices[-1])`, on a deque of at most `max_candles`.
  abbrev pub close_candle : CandleBuilder F → List F
  close_candle b = elim (reverse b.cur_prices) [
    | [] ↦ b.closes
    | last ∷ before ↦ last_n max_candles (b.closes ++ (last ∷ []))
  ]

  -- `_CandleBuilder.update`
  unfoldable pub tick : F → ℕ → CandleBuilder F → CandleBuilder F
  tick price ts b =
      let bucket = bucket_ts ts b.duration in
      if b.cur_bucket == 0
      then record b { cur_bucket = bucket; cur_prices = price ∷ [] }
      else if bucket == b.cur_bucket
      then record b { cur_prices = b.cur_prices ++ (price ∷ []) }
      else record b { closes = close_candle b; cur_bucket = bucket; cur_prices = price ∷ [] }

  -- `_ensure_asset`, with the builders of the asset.
  unfoldable pub builders_of : String → Trends F → Builders F
  builders_of asset trends = get_or (lookup asset trends) new_builders

  unfoldable pub ensure_asset : String → Trends F → Trends F
  ensure_asset asset trends = elim (lookup asset trends) [
    | none ↦ insert asset new_builders trends
    | some b ↦ trends
  ]

module _ {F : Type 0} ⦃num : Number F⦄ where
  open num use {dec, add, sub, mul, div, lt, le}

  -- The loop of `_ema`, after the value `previous`.
  unfoldable pub ema_after : F → F → List F → List F
  ema_after k previous [] = []
  ema_after k previous (v ∷ values) =
      let e = add (mul v k) (mul previous (sub one_f k)) in e ∷ ema_after k e values

  unfoldable pub ema : List F → ℕ → List F
  unfolding ema_after
  ema [] period = []
  ema (v ∷ values) period = v ∷ ema_after (div (of_ℕ 2) (of_ℕ (period + 1))) v values

  abbrev pub trend_of_slope : F → Trend
  trend_of_slope slope =
      if lt (fabs slope) (dec 1 8)
      then Trend.flat
      else if lt zero_f slope
      then Trend.up
      else Trend.down

  unfoldable pub compute_trend : List F → Option Trend
  unfolding ema
  compute_trend closes =
      if ltb (length closes) ema_period
      then some Trend.flat
      else elim (reverse (ema closes ema_period)) [
        | [] ↦ none
        | last ∷ before ↦ elim before [
          | [] ↦ none
          | previous ∷ more ↦ some (trend_of_slope (sub last previous))
        ]
      ]

  unfoldable pub update : String → F → ℕ → Trends F → Trends F
  unfolding builders_of tick
  update asset price ts trends =
      let b = builders_of asset trends in
      if le price zero_f
      then trends
      else insert asset
          (record {
            one_minute = tick price ts b.one_minute;
            five_minute = tick price ts b.five_minute;
          })
          trends

  unfoldable pub get_trend : String → Timeframe → Trends F → Option Trend × Trends F
  unfolding builders_of ensure_asset compute_trend
  get_trend asset timeframe trends =
      let b = builders_of asset trends in
      (
        elim timeframe [
          | five_minutes ↦ compute_trend b.one_minute.closes
          | fifteen_minutes ↦ compute_trend b.five_minute.closes
          | other_timeframe ↦ some Trend.flat
        ],
        ensure_asset asset trends,
      )

  unfoldable pub is_confirmed : String → Signal → Trends F → Option Bool × Trends F
  unfolding get_trend builders_of ensure_asset
  is_confirmed asset direction trends =
      let b = builders_of asset trends in
      let (trend, trends') = get_trend asset Timeframe.five_minutes (ensure_asset asset trends) in
      if ltb (length b.one_minute.closes) ema_period
      then (some true, ensure_asset asset trends)
      else (elim trend [ none ↦ none | some t ↦ some (agrees direction t) ], trends')
