-- ===== src/Strategies/Regime.antt =====
-- strategies/regime.py: the regime of a market by ADX, Bollinger band width and EMA slope. numpy's
-- `mean`, `std` and `median` are parameters. Prices are numbers, neither NaN nor infinite.
pub mod Confidence
use poly_market_prediction_b.Base.{
  ℕ, ◌+◌, ◌-◌, Bool, List, [], ◌∷◌, map, ◌&&◌, length, take, drop, last_n, ltb, leb, if◌then◌else◌,
}
use poly_market_prediction_b.Core.Types.{RegimeType, RegimeResult}
use poly_market_prediction_b.Number.{Number, zero_f, one_f, of_ℕ, fmax, fmin, fabs}

pub record RegimeNumpy (F : Type 0) : Type 0 where
  pub mean : List F → F
  pub std : List F → F
  pub median : List F → F

abbrev pub min_prices : ℕ
min_prices = 30

abbrev pub adx_period : ℕ
adx_period = 14

abbrev pub bb_period : ℕ
bb_period = 20

abbrev pub slope_lookback : ℕ
slope_lookback = 5

module _ {F : Type 0} where
  -- An operation on each element and the one before it.
  unfoldable pub adjacent : (F → F → F) → List F → List F
  adjacent op (x ∷ y ∷ more) = op y x ∷ adjacent op (y ∷ more)
  adjacent op _ = []

  unfoldable pub zip_by : (F → F → F) → List F → List F → List F
  zip_by op (x ∷ xs) (y ∷ ys) = op x y ∷ zip_by op xs ys
  zip_by op _ _ = []

  -- The windows `prices[i - period:i]`, in order.
  unfoldable pub windows : ℕ → List F → List (List F)
  windows period [] = []
  windows period (x ∷ xs) =
      let rest = windows period xs in
      if leb period (length (x ∷ xs)) then take period (x ∷ xs) ∷ rest else []

  -- The last element, or a default.
  unfoldable pub last_or : F → List F → F
  last_or d [] = d
  last_or d (x ∷ xs) = last_or x xs

  unfoldable pub first_or : F → List F → F
  first_or d [] = d
  first_or d (x ∷ xs) = x

module _ {F : Type 0} ⦃num : Number F⦄ where
  open num use {dec, add, sub, mul, div, lt, le, eq, round}

  -- `result[i] = result[i - 1] * (1 - alpha) + data[...] * alpha`, from the mean of the first values.
  unfoldable pub smoothed : F → F → List F → List F
  smoothed alpha acc [] = acc ∷ []
  smoothed alpha acc (x ∷ xs) =
      acc ∷ smoothed alpha (add (mul acc (sub one_f alpha)) (mul x alpha)) xs

  unfoldable pub wilder_smooth : RegimeNumpy F → ℕ → List F → List F
  unfolding smoothed
  wilder_smooth np period xs =
      if ltb (length xs) period
      then xs
      else smoothed (div one_f (of_ℕ period)) (np.mean (take period xs)) (drop period xs)

  -- The true range of a close and the one before it.
  abbrev pub true_range : F → F → F
  true_range new old =
      let high = fmax new old in
      let low = fmin new old in
      fmax (sub high low) (fmax (fabs (sub high old)) (fabs (sub low old)))

  -- `np.where((a > b) & (a > 0), a, 0.0)`
  abbrev pub dominant_move : F → F → F
  dominant_move a b = if lt b a && lt zero_f a then a else zero_f

  -- `np.where(y > 0, 100.0 * x / y, 0.0)`
  abbrev pub percent_of : F → F → F
  percent_of x y = if lt zero_f y then div (mul (of_ℕ 100) x) y else zero_f

  unfoldable pub compute_adx : RegimeNumpy F → ℕ → List F → F
  unfolding adjacent zip_by wilder_smooth last_or
  compute_adx np period prices =
      let highs = adjacent fmax prices in
      let lows = adjacent fmin prices in
      let tr_aligned = drop 1 (adjacent true_range prices) in
      let up_move = adjacent sub highs in
      let down_move = adjacent (λ new old. sub old new) lows in
      let plus_dm = zip_by dominant_move up_move down_move in
      let minus_dm = zip_by dominant_move down_move up_move in
      let atr = wilder_smooth np period tr_aligned in
      let plus_di = zip_by percent_of (wilder_smooth np period plus_dm) atr in
      let minus_di = zip_by percent_of (wilder_smooth np period minus_dm) atr in
      let difference = zip_by (λ p m. fabs (sub p m)) plus_di minus_di in
      let dx = zip_by percent_of difference (zip_by add plus_di minus_di) in
      if ltb (length prices) (period + 1)
      then zero_f
      else if ltb (length tr_aligned) period
      then zero_f
      else if ltb (length dx) period
      then if ltb 0 (length dx) then np.mean dx else zero_f
      else last_or zero_f (wilder_smooth np period dx)

  -- The width of the band of a window as a share of its mean.
  abbrev pub width_of : RegimeNumpy F → F → List F → F
  width_of np std_mult window = div (mul (mul (of_ℕ 2) std_mult) (np.std window)) (np.mean window)

  unfoldable pub compute_bb_width : RegimeNumpy F → ℕ → F → List F → F
  compute_bb_width np period std_mult prices =
      let window = last_n period prices in
      if ltb (length prices) period
      then zero_f
      else if eq (np.mean window) zero_f
      then zero_f
      else width_of np std_mult window

  -- The widths of the windows whose mean is not zero.
  unfoldable pub widths : RegimeNumpy F → F → List (List F) → List F
  widths np std_mult [] = []
  widths np std_mult (w ∷ ws) =
      let rest = widths np std_mult ws in
      if eq (np.mean w) zero_f then rest else width_of np std_mult w ∷ rest

  unfoldable pub compute_bb_width_median : RegimeNumpy F → ℕ → F → List F → F
  unfolding windows widths
  compute_bb_width_median np period std_mult prices =
      elim (widths np std_mult (windows period prices)) [
        | [] ↦ zero_f
        | w ∷ ws ↦ np.median (w ∷ ws)
      ]

  unfoldable pub ema_series : RegimeNumpy F → ℕ → List F → List F
  unfolding smoothed
  ema_series np period prices =
      if ltb (length prices) period
      then []
      else smoothed (div (of_ℕ 2) (of_ℕ (period + 1))) (np.mean (take period prices))
          (drop period prices)

  unfoldable pub compute_ema_slope : RegimeNumpy F → ℕ → ℕ → List F → F
  unfolding ema_series last_or first_or
  compute_ema_slope np period lookback prices =
      let ema = ema_series np period prices in
      let now = last_or zero_f ema in
      let previous = first_or zero_f (last_n (lookback + 1) ema) in
      if ltb (length prices) (period + lookback)
      then zero_f
      else if ltb (length ema) (lookback + 1)
      then zero_f
      else if eq previous zero_f
      then zero_f
      else div (sub now previous) (mul previous (of_ℕ lookback))

  unfoldable pub determine_regime : F → F → F → F → RegimeType × F
  determine_regime adx bb_width median slope =
      let wide = mul (dec 15 1) median in
      let ratio = div bb_width wide in
      let adx_high = fmin one_f (add (div (sub adx (of_ℕ 25)) (of_ℕ 25)) (dec 5 1)) in
      let slope_conf = fmin one_f (div (fabs slope) (mul (dec 5 4) (of_ℕ 5))) in
      let adx_low = fmin one_f (add (div (sub (of_ℕ 20) adx) (of_ℕ 20)) (dec 3 1)) in
      let bb_conf = fmin one_f (add (sub one_f (div bb_width median)) (dec 3 1)) in
      if lt zero_f median && lt wide bb_width
      then (RegimeType.volatile, fmin one_f (add (dec 5 1) (mul (dec 5 1) (sub ratio one_f))))
      else if lt (of_ℕ 25) adx && lt (dec 5 4) (fabs slope)
      then (RegimeType.trending, div (add adx_high slope_conf) (of_ℕ 2))
      else if lt adx (of_ℕ 20) && lt zero_f median && lt bb_width median
      then (RegimeType.ranging, div (add adx_low bb_conf) (of_ℕ 2))
      else (RegimeType.unknown, dec 3 1)

  abbrev pub unknown_result : RegimeResult F
  unknown_result = record {
    regime = RegimeType.unknown;
    adx = zero_f;
    bb_width = zero_f;
    ema_slope = zero_f;
    confidence = zero_f;
  }

  unfoldable pub classify : RegimeNumpy F → List F → RegimeResult F
  unfolding compute_adx compute_bb_width compute_bb_width_median compute_ema_slope determine_regime
  classify np prices =
      let adx = compute_adx np adx_period prices in
      let bb_width = compute_bb_width np bb_period (of_ℕ 2) prices in
      let slope = compute_ema_slope np bb_period slope_lookback prices in
      let median = compute_bb_width_median np bb_period (of_ℕ 2) prices in
      let (regime, confidence) = determine_regime adx bb_width median slope in
      if ltb (length prices) min_prices then unknown_result else record {
        regime = regime;
        adx = round 4 adx;
        bb_width = round 6 bb_width;
        ema_slope = round 6 slope;
        confidence = round 4 (fmin one_f (fmax zero_f confidence));
      }
