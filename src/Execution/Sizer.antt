-- ===== src/Execution/Sizer.antt =====
-- execution/sizer.py: the bet size by a fraction of the Kelly criterion.
pub mod Bounds
use poly_market_prediction_b.Base.{String, Option, none, some, ltb, if◌then◌else◌}
use poly_market_prediction_b.Core.Types.{SizerConfig}
use poly_market_prediction_b.Number.{Number, zero_f, one_f, of_ℕ, fmax, fmin, divide}
use poly_market_prediction_b.Storage.{Database}
use poly_market_prediction_b.Storage.Trades.{RollingStats, get_rolling_stats}

module _ {F : Type 0} ⦃num : Number F⦄ where
  open num use {dec, add, sub, mul, le, round}

  -- `_KELLY_CAP`
  abbrev pub kelly_cap : F
  kelly_cap = dec 10 2

  abbrev pub usable_bankroll : F → F
  usable_bankroll bankroll = if le bankroll zero_f then of_ℕ 100 else bankroll

  -- `min_s` and `max_s` once they are floored.
  abbrev pub min_size : SizerConfig F → F → F
  min_size cfg bankroll = fmax (round 2 (mul (usable_bankroll bankroll) cfg.min_pct)) (dec 10 2)

  abbrev pub max_size : SizerConfig F → F → F
  max_size cfg bankroll =
      fmax (round 2 (mul (usable_bankroll bankroll) cfg.max_pct)) (min_size cfg bankroll)

  abbrev pub default_size : SizerConfig F → F → F
  default_size cfg bankroll = round 2 (mul (usable_bankroll bankroll) cfg.default_pct)

  -- `round(max(min_s, min(max_s, size)), 2)`
  abbrev pub clamp_size : SizerConfig F → F → F → F
  clamp_size cfg bankroll size =
      round 2 (fmax (min_size cfg bankroll) (fmin (max_size cfg bankroll) size))

  -- The size by the linear map from the Kelly fraction to the range of sizes.
  unfoldable pub mapped_size : SizerConfig F → F → F → Option F
  mapped_size cfg bankroll frac_kelly =
      elim (divide frac_kelly (mul kelly_cap cfg.kelly_fraction)) [
        | none ↦ none
        | some quotient ↦
            let ratio = fmin quotient one_f in
            let lo = min_size cfg bankroll in
            let hi = max_size cfg bankroll in
            some (clamp_size cfg bankroll (add lo (mul (sub hi lo) ratio)))
      ]

  -- The branches after the warmup; `none` is a ZeroDivisionError.
  unfoldable pub sized_by_stats : SizerConfig F → F → RollingStats F → Option F
  unfolding mapped_size
  sized_by_stats cfg bankroll stats =
      let wr = stats.win_rate in
      let ep = stats.avg_entry in
      if le one_f ep then some (min_size cfg bankroll) else elim (divide ep (sub one_f ep)) [
        | none ↦ none
        | some odds ↦
            let full_kelly = sub wr (mul (sub one_f wr) odds) in
            let frac_kelly = mul full_kelly cfg.kelly_fraction in
            if le frac_kelly zero_f
            then some (min_size cfg bankroll)
            else mapped_size cfg bankroll frac_kelly
      ]

  unfoldable pub kelly_size : SizerConfig F → String → String → F → Database F → Option F
  unfolding sized_by_stats
  kelly_size cfg strategy asset bankroll db =
      let stats = get_rolling_stats strategy asset cfg.rolling_window db in
      if ltb stats.resolved cfg.min_sample
      then some (clamp_size cfg bankroll (default_size cfg bankroll))
      else sized_by_stats cfg bankroll stats
