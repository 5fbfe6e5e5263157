-- ===== src/Execution/Sizer/Bounds.antt =====
-- execution/sizer.py: a size is returned, and lies between the configured limits.
use poly_market_prediction_b.Base.{
  String, false, ◌≡◌, ◌⊎◌, some, arith, Bool-cases, inl, inr, ltb, if◌then◌else◌,
}
use poly_market_prediction_b.Core.Types.{SizerConfig}
use poly_market_prediction_b.Number.{Number, zero_f, one_f, fmin, fmax}
use poly_market_prediction_b.Number.Order.{
  ◌≼◌, IsOrdered, IsRounded, clamp_bounds, round-fmax, le-fmax_left, le-fmax_right, le_refl,
}
use poly_market_prediction_b.Storage.{Database}
use poly_market_prediction_b.Storage.Trades.{RollingStats, get_rolling_stats}
use poly_market_prediction_b.Execution.Sizer.{
  kelly_cap, min_size, max_size, default_size, clamp_size, mapped_size, sized_by_stats, kelly_size,
}

module _ {F : Type 0} ⦃num : Number F⦄ (laws : IsOrdered F) (rounded : IsRounded F) where
  open num use {mul, sub, eq, le, lt, round}
  open laws use {eq-eq-le, le_total, dec_mono, le_trans}
  open rounded use {round_idem, round_mono, round_cents, sub_zero}

  -- A size between the smallest and the largest size of the model.
  record IsClamped (cfg : SizerConfig F) (bankroll size : F) : Type 0 where
    lower : min_size cfg bankroll ≼ size
    upper : size ≼ max_size cfg bankroll

  -- The share of a bankroll, in cents; one that is not positive counts as 100.
  abbrev pub share_of : F → F → F
  share_of bankroll pct = round 2 (mul (if le bankroll zero_f then num.dec 100 0 else bankroll) pct)

  -- A size that is at least ten cents and the smaller share, and at most the larger share, or the
  -- smaller share, or ten cents, whichever is highest.
  pub record IsSized (cfg : SizerConfig F) (bankroll size : F) : Type 0 where
    pub least : num.dec 10 2 ≼ size
    pub lower : share_of bankroll cfg.min_pct ≼ size
    pub upper :
        (size ≼ share_of bankroll cfg.max_pct)
        ⊎ ((size ≼ share_of bankroll cfg.min_pct) ⊎ (size ≼ num.dec 10 2))

  min_size-le : (cfg : SizerConfig F) (b : F) → min_size cfg b ≼ max_size cfg b
  min_size-le cfg b = le-fmax_right laws _ _

  min_size_rounded : (cfg : SizerConfig F) (b : F) → round 2 (min_size cfg b) ≡ min_size cfg b
  min_size_rounded cfg b = round-fmax laws 2 _ _ (round_idem 2 _) (round_cents 10)

  max_size_rounded : (cfg : SizerConfig F) (b : F) → round 2 (max_size cfg b) ≡ max_size cfg b
  max_size_rounded cfg b = round-fmax laws 2 _ _ (round_idem 2 _) (min_size_rounded cfg b)

  clamp_size-IsClamped : (cfg : SizerConfig F) (b x : F) → IsClamped cfg b (clamp_size cfg b x)
  clamp_size-IsClamped cfg b x =
      let (l, h) = clamp_bounds laws (min_size cfg b) (max_size cfg b) x (min_size-le cfg b) in
      record {
        lower = rw (min_size_rounded cfg b) at (round_mono 2 _ _ l);
        upper = rw (max_size_rounded cfg b) at (round_mono 2 _ _ h);
      }

  min_size-IsClamped : (cfg : SizerConfig F) (b : F) → IsClamped cfg b (min_size cfg b)
  min_size-IsClamped cfg b = record {
    lower = le_refl laws (min_size cfg b);
    upper = min_size-le cfg b;
  }

  mapped_size-IsClamped :
      (cfg : SizerConfig F) (b k : F)
      → eq (mul kelly_cap cfg.kelly_fraction) zero_f ≡ false
      → (size : F) × (mapped_size cfg b k ≡ some size) × IsClamped cfg b size
  unfolding mapped_size
  mapped_size-IsClamped cfg b k h =
      let lo = min_size cfg b in
      let ratio = fmin (num.div k (mul kelly_cap cfg.kelly_fraction)) one_f in
      let size = num.add lo (mul (sub (max_size cfg b) lo) ratio) in
      (clamp_size cfg b size, ground arith, clamp_size-IsClamped cfg b size)

  sized_by_stats-IsClamped :
      (cfg : SizerConfig F) (b : F) (stats : RollingStats F)
      → eq (mul kelly_cap cfg.kelly_fraction) zero_f ≡ false
      → (size : F) × (sized_by_stats cfg b stats ≡ some size) × IsClamped cfg b size
  unfolding sized_by_stats
  sized_by_stats-IsClamped cfg b stats h = elim (Bool-cases (le one_f stats.avg_entry)) [
    | inl dear ↦ (min_size cfg b, ground arith, min_size-IsClamped cfg b)
    | inr cheap ↦
        let ep = stats.avg_entry in
        let odds = num.div ep (sub one_f ep) in
        let defined : eq (sub one_f ep) zero_f ≡ false =
          ground (arith, sub_zero one_f ep, eq-eq-le one_f ep) in
        let k = mul (sub stats.win_rate (mul (sub one_f stats.win_rate) odds)) cfg.kelly_fraction in
        elim (Bool-cases (le k zero_f)) [
          | inl small ↦ (min_size cfg b, ground arith, min_size-IsClamped cfg b)
          | inr large ↦
              let (size, e, sized) = mapped_size-IsClamped cfg b k h in (size, ground arith, sized)
        ]
  ]

  -- What is below the larger of two is below one of them.
  fmax-le : (x a b : F) → x ≼ fmax a b → (x ≼ a) ⊎ (x ≼ b)
  unfolding fmax
  fmax-le x a b h = elim (Bool-cases (lt a b)) [
    | inl e ↦ inr (ground arith)
    | inr e ↦ inl (ground arith)
  ]

  IsClamped-IsSized : (cfg : SizerConfig F) (b size : F) → IsClamped cfg b size → IsSized cfg b size
  IsClamped-IsSized cfg b size clamped =
      let low = share_of b cfg.min_pct in
      let high = share_of b cfg.max_pct in
      let cents = num.dec 10 2 in
      record {
        least = le_trans cents (min_size cfg b) size (le-fmax_right laws low cents) clamped.lower;
        lower = le_trans low (min_size cfg b) size (le-fmax_left laws low cents) clamped.lower;
        upper = elim (fmax-le size high (fmax low cents) clamped.upper) [
          | inl e ↦ inl e
          | inr e ↦ inr (fmax-le size low cents e)
        ];
      }

  -- Where the Kelly fraction times the cap is not zero, the sizer divides by no zero. Its size is at
  -- least ten cents and the smaller share of the bankroll, in cents, and at most the larger share,
  -- or the smaller share, or ten cents, whichever is highest; a bankroll that is not positive counts
  -- as 100.
  pub kelly_size-IsSized :
      (cfg : SizerConfig F) (s a : String) (b : F) (db : Database F)
      → eq (mul kelly_cap cfg.kelly_fraction) zero_f ≡ false
      → (size : F) × (kelly_size cfg s a b db ≡ some size) × IsSized cfg b size
  unfolding kelly_size
  kelly_size-IsSized cfg s a b db h =
      let stats = get_rolling_stats s a cfg.rolling_window db in
      elim (Bool-cases (ltb stats.resolved cfg.min_sample)) [
        | inl few ↦
            let size = clamp_size cfg b (default_size cfg b) in
            (
              size,
              ground arith,
              IsClamped-IsSized cfg b size (clamp_size-IsClamped cfg b (default_size cfg b)),
            )
        | inr enough ↦
            let (size, e, clamped) = sized_by_stats-IsClamped cfg b stats h in
            (size, ground arith, IsClamped-IsSized cfg b size clamped)
      ]
