-- ===== src/Strategies/Composite.antt =====
-- strategies/composite.py: a confidence from seven weighted indicators.
pub mod Range
use poly_market_prediction_b.Base.{Bool, Option, none, some, not, ◌&&◌, if◌then◌else◌}
use poly_market_prediction_b.Core.Types.{FeedSnapshot, RegimeResult, RegimeType}
use poly_market_prediction_b.Number.{Number, zero_f, one_f, of_ℕ, fmax, fmin, fabs}

-- `CompositeConfidenceConfig`
pub record CompositeConfig (F : Type 0) : Type 0 where
  pub min_confidence : F
  pub w_rsi : F
  pub w_bb : F
  pub w_funding : F
  pub w_oi : F
  pub w_ls_ratio : F
  pub w_volume : F
  pub w_regime : F

module _ {F : Type 0} ⦃num : Number F⦄ where
  open num use {dec, add, sub, mul, div, lt, eq, round}

  -- The seven strengths, each with what counts where the indicator is missing.
  abbrev pub rsi_strength : Option F → F
  rsi_strength none = dec 5 1
  rsi_strength (some rsi) =
      if lt zero_f rsi && lt rsi (of_ℕ 100)
      then div (fabs (sub rsi (of_ℕ 50))) (of_ℕ 50)
      else dec 5 1

  abbrev pub bb_strength : Option (Option F) → F
  bb_strength none = dec 5 1
  bb_strength (some none) = dec 5 1
  bb_strength (some (some pct)) = fmin one_f (mul (fabs (sub pct (dec 5 1))) (of_ℕ 2))

  abbrev pub funding_strength : F → F
  funding_strength funding =
      if eq funding zero_f then dec 3 1 else fmin one_f (div (fabs funding) (dec 5 3))

  abbrev pub oi_strength : F → F
  oi_strength oi = if lt zero_f oi then dec 7 1 else dec 3 1

  abbrev pub ls_strength : F → F
  ls_strength ls =
      if lt zero_f ls then fmin one_f (div (fabs (sub ls one_f)) (dec 5 1)) else dec 5 1

  abbrev pub vol_strength : F → F
  vol_strength cvd = if lt zero_f cvd then fmin one_f (div cvd (of_ℕ 1_000_000)) else dec 2 1

  abbrev pub regime_strength : Option (RegimeResult F) → F
  regime_strength none = dec 3 1
  regime_strength (some r) = elim r.regime [
    | RegimeType.trending ↦ r.confidence
    | RegimeType.ranging ↦ r.confidence
    | RegimeType.volatile ↦ r.confidence
    | RegimeType.unknown ↦ dec 3 1
  ]

  unfoldable pub total_score :
      CompositeConfig F
      → FeedSnapshot F
      → Option F
      → Option (Option F)
      → Option (RegimeResult F)
      → F
  total_score cfg snapshot rsi bb regime =
      let s1 = add zero_f (mul cfg.w_rsi (rsi_strength rsi)) in
      let s2 = add s1 (mul cfg.w_bb (bb_strength bb)) in
      let s3 = add s2 (mul cfg.w_funding (funding_strength snapshot.funding_rate)) in
      let s4 = add s3 (mul cfg.w_oi (oi_strength snapshot.open_interest)) in
      let s5 = add s4 (mul cfg.w_ls_ratio (ls_strength snapshot.long_short_ratio)) in
      let s6 = add s5 (mul cfg.w_volume (vol_strength (fabs snapshot.cvd_2min))) in
      add s6 (mul cfg.w_regime (regime_strength regime))

  unfoldable pub score :
      CompositeConfig F
      → FeedSnapshot F
      → Option F
      → Option (Option F)
      → Option (RegimeResult F)
      → F
  unfolding total_score
  score cfg snapshot rsi bb regime =
      round 4 (fmin one_f (fmax zero_f (total_score cfg snapshot rsi bb regime)))
