-- ===== src/Feeds/Rsi/Range.antt =====
-- feeds/rsi_feed.py: the RSI is a percentage.
use mathlib.Core.List.{foldl}
use poly_market_prediction_b.Base.{
  ℕ, string_eq, ◌≤◌, ◌<◌, String, true, ◌≡◌, inl, inr, some, List, [], ◌∷◌, map, length, last_n,
  arith, Bool-cases,
}
use poly_market_prediction_b.Base.Dict.{lookup}
use poly_market_prediction_b.Number.{Number, zero_f, one_f, of_ℕ, fmin}
use poly_market_prediction_b.Number.Order.{
  ◌≼◌, IsOrdered, IsRounded, le-fmax_right, fmin-le_right, le_refl,
}
use poly_market_prediction_b.Feeds.Rsi.{RsiFeed, deltas, sum_f, gain, loss, rsi_of, get_rsi}

module _ {F : Type 0} ⦃num : Number F⦄ (laws : IsOrdered F) (rounded : IsRounded F) where
  open num use {add, sub, mul, div, lt, le, eq, round}
  open laws use {le_total, le_trans, lt-eq-not-le, eq-eq-le, dec_mono, zero-lt-one}
  open rounded use {
    round_mono, round_dollars, sub_self, sub_mono, sub_le, div_nonneg, add_ge, div_le, neg_nonneg,
  }

  gain_nonneg : (d : F) → zero_f ≼ gain d
  gain_nonneg d = le-fmax_right laws d zero_f

  loss_nonneg : (d : F) → zero_f ≼ loss d
  loss_nonneg d =
      let low = fmin d zero_f in
      ground (arith, neg_nonneg low, fmin-le_right laws d zero_f, lt-eq-not-le low zero_f)

  sum_nonneg :
      (f : F → F) (acc : F) (ds : List F)
      → ((d : F) → zero_f ≼ f d)
      → zero_f ≼ acc
      → zero_f ≼ foldl add acc (map f ds)
  sum_nonneg f acc [] keep h = h
  sum_nonneg f acc (d ∷ ds) keep h =
      sum_nonneg f (add acc (f d)) ds keep
        (le_trans zero_f acc (add acc (f d)) h (add_ge acc (f d) (keep d)))

  of_pos : (n : ℕ) → 1 ≤ n → lt zero_f (of_ℕ n) ≡ true
  of_pos n h = ground (
    arith,
    zero-lt-one,
    lt-eq-not-le zero_f one_f,
    lt-eq-not-le zero_f (of_ℕ n),
    le_trans one_f (of_ℕ n) zero_f (dec_mono 1 n 0 h),
  )

  avg_nonneg :
      (f : F → F) (period : ℕ) (ds : List F)
      → ((d : F) → zero_f ≼ f d)
      → 1 ≤ period
      → zero_f ≼ div (sum_f (map f ds)) (of_ℕ period)
  avg_nonneg f period ds keep h =
      div_nonneg _ (of_ℕ period) (sum_nonneg f zero_f ds keep (le_refl laws zero_f))
        (of_pos period h)

  -- `100 - 100 / (1 + rs)`
  index_range :
      (rs : F)
      → zero_f ≼ rs
      → let x = sub (of_ℕ 100) (div (of_ℕ 100) (add one_f rs)) in (zero_f ≼ x) × (x ≼ of_ℕ 100)
  index_range rs h =
      let at_least = add_ge one_f rs h in
      let share = div (of_ℕ 100) (add one_f rs) in
      let hundred = dec_mono 0 100 0 (omega arith) in
      let positive : lt zero_f (add one_f rs) ≡ true = ground (
        arith,
        zero-lt-one,
        lt-eq-not-le zero_f one_f,
        lt-eq-not-le zero_f (add one_f rs),
        le_trans one_f (add one_f rs) zero_f at_least,
      ) in
      (
        ground (
          arith,
          sub_self share,
          sub_mono share (of_ℕ 100) share (div_le (of_ℕ 100) _ hundred at_least),
        ),
        sub_le (of_ℕ 100) share (div_nonneg (of_ℕ 100) _ hundred positive),
      )

  rsi_of-range :
      (period : ℕ) (recent : List F)
      → 1 ≤ period
      → (zero_f ≼ rsi_of period recent) × (rsi_of period recent ≼ of_ℕ 100)
  unfolding rsi_of
  rsi_of-range period recent h =
      let avg_gain = div (sum_f (map gain recent)) (of_ℕ period) in
      let avg_loss = div (sum_f (map loss recent)) (of_ℕ period) in
      elim (Bool-cases (eq avg_loss zero_f)) [
        | inl e ↦ ground (arith, e, dec_mono 0 100 0 (omega arith), le_refl laws (of_ℕ 100))
        | inr e ↦
            let losses = avg_nonneg loss period recent loss_nonneg h in
            let positive : lt zero_f avg_loss ≡ true =
              ground (arith, eq-eq-le avg_loss zero_f, lt-eq-not-le zero_f avg_loss) in
            let rs = div avg_gain avg_loss in
            let x = sub (of_ℕ 100) (div (of_ℕ 100) (add one_f rs)) in
            let (low, high) = index_range rs (
              div_nonneg avg_gain avg_loss (avg_nonneg gain period recent gain_nonneg h)
                positive) in
            ground (
              arith,
              e,
              round_mono 2 zero_f x low,
              round_mono 2 x (of_ℕ 100) high,
              round_dollars 0,
              round_dollars 100,
            )
      ]

  -- For an asset with more closes than the period, which is at least one, the RSI is a number from 0
  -- to 100.
  pub get_rsi-range :
      (asset : String) (period : ℕ) (feed : RsiFeed F) (closes : List F)
      → 1 ≤ period
      → lookup asset feed.closes ≡ some closes
      → period < length closes
      → (rsi : F) × (get_rsi asset period feed ≡ some (some rsi))
        × (zero_f ≼ rsi)
        × (rsi ≼ of_ℕ 100)
  unfolding get_rsi
  get_rsi-range asset period feed closes h e l =
      let recent = last_n period (deltas closes) in
      let (low, high) = rsi_of-range period recent h in
      (rsi_of period recent, ground (arith, e), low, high)
