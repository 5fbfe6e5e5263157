-- ===== src/Strategies/Signals.antt =====
-- strategies/momentum.py, turbo_cvd.py, turbo_vwap.py and bollinger.py: the four `evaluate` methods.
-- `none` is the ZeroDivisionError of a confidence whose denominator is zero.
pub mod Sound
use poly_market_prediction_b.Base.{
  String, Bool, false, Option, none, some, [], ◌∷◌, ◌&&◌, if◌then◌else◌,
}
use poly_market_prediction_b.Core.Types.{
  Signal, SignalResult, FeedSnapshot, Indicators, is_yes, is_no,
}
use poly_market_prediction_b.Number.{Number, zero_f, one_f, of_ℕ, fmin, fabs, divide}
use poly_market_prediction_b.Strategies.Base.{result}

pub record MomentumConfig (F : Type 0) : Type 0 where
  pub cvd_threshold : F
  pub vwap_threshold : F
  pub max_entry_buy_yes : F
  pub max_entry_buy_no : F

-- A Bollinger band, as rsi_feed.py hands it over.
pub record Band (F : Type 0) : Type 0 where
  pub upper : F
  pub lower : F
  pub mid : F

-- `AdaptiveThreshold`, where a strategy has one: whether it is warm for the asset, and its threshold.
pub record Adaptive (F : Type 0) : Type 0 where
  pub has_enough_data : String → Bool
  pub threshold : String → F → F

module _ {F : Type 0} ⦃num : Number F⦄ where
  open num use {sub, mul, div, neg, lt, le, eq}

  -- `min(1.0, abs(value) / (thresh * 3))`
  abbrev pub pressure : F → F → Option F
  pressure value thresh = elim (divide (fabs value) (mul thresh (of_ℕ 3))) [
    | none ↦ none
    | some q ↦ some (fmin one_f q)
  ]

  -- `return self._result(signal, confidence, ...)`, or the exception of the confidence.
  abbrev pub signalled :
      String → Signal → Option F → String → FeedSnapshot F → Indicators F → Option (SignalResult F)
  signalled name signal confidence asset snap ind = elim confidence [
    | none ↦ none
    | some c ↦ some (result name signal c asset snap ind)
  ]

  unfoldable pub momentum : MomentumConfig F → String → FeedSnapshot F → Option (SignalResult F)
  momentum cfg asset snap =
      let cvd = snap.cvd_2min in
      let vwap = snap.vwap_change in
      let ind : Indicators F = ("cvd", some cvd) ∷ ("vwap_change", some vwap) ∷ [] in
      if lt cfg.cvd_threshold cvd && lt cfg.vwap_threshold vwap
      then signalled "MOMENTUM" Signal.buy_yes (pressure cvd cfg.cvd_threshold) asset snap ind
      else if lt cvd (neg cfg.cvd_threshold) && lt vwap (neg cfg.vwap_threshold)
      then signalled "MOMENTUM" Signal.buy_no (pressure cvd cfg.cvd_threshold) asset snap ind
      else some (result "MOMENTUM" Signal.skip zero_f asset snap ind)

  unfoldable pub momentum_entry_ok : MomentumConfig F → Signal → F → Bool
  momentum_entry_ok cfg signal entry_price =
      if is_yes signal
      then le entry_price cfg.max_entry_buy_yes
      else if is_no signal
      then le entry_price cfg.max_entry_buy_no
      else false

  -- The threshold in force: the adaptive one if it is warm, else the fixed one.
  abbrev pub threshold_of : Option (Adaptive F) → String → F → F
  threshold_of adaptive asset fixed = elim adaptive [
    | none ↦ fixed
    | some a ↦ if a.has_enough_data asset then a.threshold asset fixed else fixed
  ]

  -- The two turbo strategies compare one value with one threshold.
  abbrev pub turbo :
      String → Indicators F → F → F → String → FeedSnapshot F → Option (SignalResult F)
  turbo name ind value thresh asset snap =
      if lt thresh value
      then signalled name Signal.buy_yes (pressure value thresh) asset snap ind
      else if lt value (neg thresh)
      then signalled name Signal.buy_no (pressure value thresh) asset snap ind
      else some (result name Signal.skip zero_f asset snap ind)

  unfoldable pub turbo_cvd :
      F → Option (Adaptive F) → String → FeedSnapshot F → Option (SignalResult F)
  turbo_cvd cvd_threshold adaptive asset snap =
      let thresh = threshold_of adaptive asset cvd_threshold in
      turbo "TURBO_CVD" (("cvd", some snap.cvd_2min) ∷ ("cvd_threshold", some thresh) ∷ [])
        snap.cvd_2min thresh asset snap

  unfoldable pub turbo_vwap :
      F → Option (Adaptive F) → String → FeedSnapshot F → Option (SignalResult F)
  turbo_vwap vwap_threshold adaptive asset snap =
      let thresh = threshold_of adaptive asset vwap_threshold in
      turbo "TURBO_VWAP"
        (("vwap_change", some snap.vwap_change) ∷ ("vwap_threshold", some thresh) ∷ [])
        snap.vwap_change thresh asset snap

  -- `upper - lower if upper != lower else 1`
  abbrev pub band_width : Band F → F
  band_width b = if eq b.upper b.lower then one_f else sub b.upper b.lower

  -- `min(1.0, distance / band_width * 2)`
  abbrev pub breakout : Band F → F → Option F
  breakout b distance = elim (divide distance (band_width b)) [
    | none ↦ none
    | some pct ↦ some (fmin one_f (mul pct (of_ℕ 2)))
  ]

  unfoldable pub bollinger :
      String → FeedSnapshot F → Option F → Option (Band F) → Option (SignalResult F)
  bollinger asset snap rsi none =
      some (result "BOLLINGER" Signal.skip zero_f asset snap (("rsi", rsi) ∷ []))
  bollinger asset snap rsi (some b) =
      let price = snap.last_price in
      let ind : Indicators F =
        ("rsi", rsi)
        ∷ ("bb_upper", some b.upper)
        ∷ ("bb_lower", some b.lower)
        ∷ ("bb_mid", some b.mid)
        ∷ [] in
      if lt b.upper price
      then signalled "BOLLINGER" Signal.buy_yes (breakout b (sub price b.mid)) asset snap ind
      else if lt price b.lower
      then signalled "BOLLINGER" Signal.buy_no (breakout b (sub b.mid price)) asset snap ind
      else some (result "BOLLINGER" Signal.skip zero_f asset snap ind)
