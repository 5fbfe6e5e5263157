-- ===== src/Backtest/Comparison/Statistics.antt =====
-- backtest/comparison.py: the confidence intervals and the chi-square test of the win rates.
-- `math.sqrt` is the parameter `sqrt`, and `** 2` is a product.
use poly_market_prediction_b.Base.{
  nat_eq, ℕ, ◌+◌, ◌*◌, ◌-◌, Bool, false, List, [], ◌∷◌, ◌==◌, if◌then◌else◌, ltb, length, get_or,
}
use poly_market_prediction_b.Base.Dict.{Dict, lookup}
use poly_market_prediction_b.Number.{Number, zero_f, one_f, of_ℕ, fmax, fmin}
use poly_market_prediction_b.Backtest.Metrics.Compute.{Numpy}

-- What `_chi_square_win_rates` returns.
pub record ChiSquare (F : Type 0) : Type 0 where
  pub statistic : F
  pub df : ℕ
  pub critical : F
  pub is_significant : Bool

module _ {F : Type 0} ⦃num : Number F⦄ where
  open num use {dec, add, sub, mul, div, lt, round}

  -- `_CHI2_CRITICAL_005`
  abbrev pub chi2_critical_005 : Dict ℕ F
  chi2_critical_005 =
      (1, dec 3841 3)
      ∷ (2, dec 5991 3)
      ∷ (3, dec 7815 3)
      ∷ (4, dec 9488 3)
      ∷ (5, dec 11070 3)
      ∷ (6, dec 12592 3)
      ∷ (7, dec 14067 3)
      ∷ (8, dec 15507 3)
      ∷ []

  abbrev pub square : F → F
  square x = mul x x

  abbrev pub z_score : F
  z_score = dec 196 2

  unfoldable pub wilson_ci : (F → F) → ℕ → ℕ → F × F
  wilson_ci sqrt wins total =
      let n = of_ℕ total in
      let p = div (of_ℕ wins) n in
      let z2 = square z_score in
      let denom = add one_f (div z2 n) in
      let centre = div (add p (div z2 (of_ℕ (2 * total)))) denom in
      let inner = div (add (mul p (sub one_f p)) (div z2 (of_ℕ (4 * total)))) n in
      let spread = div (mul z_score (sqrt inner)) denom in
      if total == 0
      then (zero_f, zero_f)
      else (round 4 (fmax zero_f (sub centre spread)), round 4 (fmin one_f (add centre spread)))

  -- The `std` of numpy is that with `ddof=1`.
  unfoldable pub mean_ci : Numpy F → (F → F) → List F → F × F
  mean_ci np sqrt values =
      let mean = np.mean values in
      let se = div (np.std values) (sqrt (of_ℕ (length values))) in
      if ltb (length values) 2
      then (zero_f, zero_f)
      else (round 6 (sub mean (mul z_score se)), round 6 (add mean (mul z_score se)))

  -- `sum(wr * n for wr, n in pairs)`, from the sum so far, and `sum(n for _, n in pairs)`.
  unfoldable pub total_wins : F → List (F × ℕ) → F
  total_wins sum [] = sum
  total_wins sum ((wr, n) ∷ pairs) = total_wins (add sum (mul wr (of_ℕ n))) pairs

  unfoldable pub total_n : List (F × ℕ) → ℕ
  total_n [] = 0
  total_n ((wr, n) ∷ pairs) = n + total_n pairs

  -- One turn of the loop over the pairs.
  unfoldable pub chi2_step : F → F → F × ℕ → F
  chi2_step pooled_wr chi2 (wr, n) =
      let observed_wins = mul wr (of_ℕ n) in
      let expected_wins = mul pooled_wr (of_ℕ n) in
      let expected_losses = mul (sub one_f pooled_wr) (of_ℕ n) in
      let observed_losses = sub (of_ℕ n) observed_wins in
      let wins =
        if lt zero_f expected_wins
        then add chi2 (div (square (sub observed_wins expected_wins)) expected_wins)
        else chi2 in
      if n == 0
      then chi2
      else if lt zero_f expected_losses
      then add wins (div (square (sub observed_losses expected_losses)) expected_losses)
      else wins

  unfoldable pub chi2_of : F → F → List (F × ℕ) → F
  unfolding chi2_step
  chi2_of pooled_wr chi2 [] = chi2
  chi2_of pooled_wr chi2 (pair ∷ pairs) = chi2_of pooled_wr (chi2_step pooled_wr chi2 pair) pairs

  unfoldable pub chi_square_win_rates : List (F × ℕ) → ChiSquare F
  unfolding chi2_of total_wins total_n
  chi_square_win_rates pairs =
      let k = length pairs in
      let pooled_wr = div (total_wins zero_f pairs) (of_ℕ (total_n pairs)) in
      let chi2 = chi2_of pooled_wr zero_f pairs in
      let critical = get_or (lookup (k - 1) chi2_critical_005) (dec 3841 3) in
      if ltb k 2
      then record { statistic = zero_f; df = 0; critical = zero_f; is_significant = false }
      else if total_n pairs == 0
      then record { statistic = zero_f; df = k - 1; critical = zero_f; is_significant = false }
      else record {
        statistic = chi2;
        df = k - 1;
        critical = critical;
        is_significant = lt critical chi2;
      }
