-- ===== src/Strategies/Signals/Sound.antt =====
-- strategies/momentum.py, turbo_cvd.py, turbo_vwap.py and bollinger.py: what the signals say.
use poly_market_prediction_b.Base.{
  String, Bool, true, false, not, ◌≡◌, refl, Option, some, ◌&&◌, if◌then◌else◌, arith,
}
use poly_market_prediction_b.Core.Types.{
  Signal, SignalResult, FeedSnapshot, Indicators, is_yes, is_no,
}
use poly_market_prediction_b.Number.{Number, zero_f, one_f, of_ℕ, fmin, fmax, fabs}
use poly_market_prediction_b.Number.Order.{
  ◌≼◌, IsOrdered, IsRounded, le-fmin, le_of_lt, le-fmax_left, fmin-le_left,
}
use poly_market_prediction_b.Strategies.Base.{result}
use poly_market_prediction_b.Strategies.Signals.{
  Band, Adaptive, threshold_of, turbo_cvd, turbo_vwap, bollinger, pressure, breakout, signalled,
  band_width,
}

module _ {F : Type 0} ⦃num : Number F⦄ where
  open num use {sub, mul, neg, lt, le, eq}

  -- What an evaluation has returned: the strategy and asset it was asked for, the direction of the
  -- two tests, and a confidence in [0, 1].
  pub record IsSound (name asset : String) (up down : Bool) (r : SignalResult F) : Type 0 where
    pub strategy : r.strategy ≡ name
    pub asset_of : r.asset ≡ asset
    pub bought_yes : is_yes r.signal ≡ up
    pub bought_no : is_no r.signal ≡ (not up && down)
    pub confident : zero_f ≼ r.confidence
    pub bounded : r.confidence ≼ one_f

  -- An evaluation that does not raise, and is sound.
  abbrev pub Evaluates : String → String → Bool → Bool → Option (SignalResult F) → Type 0
  Evaluates name asset up down o =
      (r : SignalResult F) × (o ≡ some r) × IsSound name asset up down r

  module _ (laws : IsOrdered F) where
    result-IsSound :
        (name asset : String) (up down : Bool) (signal : Signal) (c : F) (snap : FeedSnapshot F)
        (ind : Indicators F)
        → is_yes signal ≡ up
        → is_no signal ≡ (not up && down)
        → IsSound name asset up down (result name signal c asset snap ind)
    unfolding result
    result-IsSound name asset up down signal c snap ind h k = record {
      strategy = refl;
      asset_of = refl;
      bought_yes = h;
      bought_no = k;
      confident =
          le-fmin laws one_f (fmax zero_f c) zero_f (le_of_lt laws zero_f one_f laws.zero-lt-one)
            (le-fmax_left laws zero_f c);
      bounded = fmin-le_left laws one_f (fmax zero_f c);
    }

    -- The shape that the four strategies share: two tests, a confidence for each, or a skip.
    choice-Evaluates :
        (name asset : String) (up down : Bool) (o o' : Option F) (c c' : F) (snap : FeedSnapshot F)
        (ind : Indicators F)
        → o ≡ some c
        → o' ≡ some c'
        → Evaluates name asset up down (
            if up
            then signalled name Signal.buy_yes o asset snap ind
            else if down
            then signalled name Signal.buy_no o' asset snap ind
            else some (result name Signal.skip zero_f asset snap ind))
    choice-Evaluates name asset true down o o' c c' snap ind e e' =
        rw e (_, refl, result-IsSound name asset true down Signal.buy_yes c snap ind refl refl)
    choice-Evaluates name asset false true o o' c c' snap ind e e' =
        rw e' (_, refl, result-IsSound name asset false true Signal.buy_no c' snap ind refl refl)
    choice-Evaluates name asset false false o o' c c' snap ind e e' =
        (_, refl, result-IsSound name asset false false Signal.skip zero_f snap ind refl refl)

    pressure-some :
        (value thresh : F)
        → eq (mul thresh (of_ℕ 3)) zero_f ≡ false
        → pressure value thresh ≡ some (fmin one_f (num.div (fabs value) (mul thresh (of_ℕ 3))))
    pressure-some value thresh h = ground arith

    breakout-some :
        (b : Band F) (d : F)
        → eq (band_width b) zero_f ≡ false
        → breakout b d ≡ some (fmin one_f (mul (num.div d (band_width b)) (of_ℕ 2)))
    breakout-some b d h = ground arith

    -- Where three times the threshold in force is not zero, TURBO_CVD answers: BUY_YES when the CVD
    -- exceeds it, else BUY_NO when the CVD is below its negation. The confidence is in [0, 1].
    pub turbo_cvd-Evaluates :
        (fixed : F) (adaptive : Option (Adaptive F)) (asset : String) (snap : FeedSnapshot F)
        → eq (mul (threshold_of adaptive asset fixed) (of_ℕ 3)) zero_f ≡ false
        → Evaluates "TURBO_CVD" asset
            (lt (threshold_of adaptive asset fixed) snap.cvd_2min)
            (lt snap.cvd_2min (neg (threshold_of adaptive asset fixed)))
            (turbo_cvd fixed adaptive asset snap)
    unfolding turbo_cvd
    turbo_cvd-Evaluates fixed adaptive asset snap h =
        choice-Evaluates "TURBO_CVD" asset _ _ _ _ _ _ snap _
          (pressure-some snap.cvd_2min (threshold_of adaptive asset fixed) h)
          (pressure-some snap.cvd_2min (threshold_of adaptive asset fixed) h)

    -- Where three times the threshold in force is not zero, TURBO_VWAP answers: BUY_YES when the
    -- VWAP change exceeds it, else BUY_NO when it is below its negation. The confidence is in [0, 1].
    pub turbo_vwap-Evaluates :
        (fixed : F) (adaptive : Option (Adaptive F)) (asset : String) (snap : FeedSnapshot F)
        → eq (mul (threshold_of adaptive asset fixed) (of_ℕ 3)) zero_f ≡ false
        → Evaluates "TURBO_VWAP" asset
            (lt (threshold_of adaptive asset fixed) snap.vwap_change)
            (lt snap.vwap_change (neg (threshold_of adaptive asset fixed)))
            (turbo_vwap fixed adaptive asset snap)
    unfolding turbo_vwap
    turbo_vwap-Evaluates fixed adaptive asset snap h =
        choice-Evaluates "TURBO_VWAP" asset _ _ _ _ _ _ snap _
          (pressure-some snap.vwap_change (threshold_of adaptive asset fixed) h)
          (pressure-some snap.vwap_change (threshold_of adaptive asset fixed) h)

    -- The Bollinger strategy answers at every band, one of no width included: BUY_YES above the
    -- band, else BUY_NO below it. The confidence is in [0, 1].
    pub bollinger-Evaluates :
        IsRounded F
        → (asset : String) (snap : FeedSnapshot F) (rsi : Option F) (b : Band F)
        → Evaluates "BOLLINGER" asset
            (lt b.upper snap.last_price)
            (lt snap.last_price b.lower)
            (bollinger asset snap rsi (some b))
    unfolding bollinger
    bollinger-Evaluates rounded asset snap rsi b =
        let wide : eq (band_width b) zero_f ≡ false = ground (
          arith,
          rounded.sub_zero b.upper b.lower,
          laws.eq-eq-le one_f zero_f,
          laws.lt-eq-not-le zero_f one_f,
          laws.zero-lt-one,
        ) in
        choice-Evaluates "BOLLINGER" asset _ _ _ _ _ _ snap _
          (breakout-some b (sub snap.last_price b.mid) wide)
          (breakout-some b (sub b.mid snap.last_price) wide)
