-- ===== src/Backtest/MonteCarlo/Orders.antt =====
-- backtest/monte_carlo.py: over exact arithmetic the order of the trades does not count for the
-- final equity.
use mathlib.Core.List.{Permᴰ}
use poly_market_prediction_b.Base.{
  ℕ, zero, suc, ◌≤◌, ◌≡◌, ◌⊎◌, inl, inr, refl, sym, ap, ◌∙◌, Bool, true, false, List, [], ◌∷◌, map,
  length, select, arith, All, All-append, Bool-cases, length-append, length-map,
}
use poly_market_prediction_b.Number.{Number, zero_f, of_ℕ}
use poly_market_prediction_b.Number.Order.{IsExact}
use poly_market_prediction_b.Backtest.Models.{BacktestConfig, SimulatedTrade}
use poly_market_prediction_b.Backtest.Metrics.Compute.{Numpy, sum_pnl}
use poly_market_prediction_b.Backtest.MonteCarlo.{
  Course, walk, walk_step, course, iterations, range_from, at_index, shuffled_pnls, is_profit,
  is_ruin, run_monte_carlo,
}

map-range_from-suc :
    {B : Type 0} (f : ℕ → B) (i n : ℕ)
    → map f (range_from (suc i) n) ≡ map (λ k. f (suc k)) (range_from i n)
unfolding range_from
map-range_from-suc f i zero = refl
map-range_from-suc f i (suc n) = ap (λ l. f (suc i) ∷ l) (map-range_from-suc f (suc i) n)

-- Looking up every index in order gives the list.
map-range_from :
    {A : Type 0} (d : A) (xs : List A) → map (at_index d xs) (range_from 0 (length xs)) ≡ xs
unfolding range_from at_index
map-range_from d [] = refl
map-range_from d (x ∷ xs) =
    ap (λ l. x ∷ l) (map-range_from-suc (at_index d (x ∷ xs)) 0 (length xs) ∙ map-range_from d xs)

select-All :
    {A : Type 0} (test : A → Bool) (x : A) (xs : List A)
    → test x ≡ true
    → All (λ e. e ≡ x) xs
    → length (select test xs) ≡ length xs
select-All test x [] h k = refl
select-All test x (y ∷ ys) h (e, k) = ground (arith, select-All test x ys h k, ap test e)

select-All_none :
    {A : Type 0} (test : A → Bool) (x : A) (xs : List A)
    → test x ≡ false
    → All (λ e. e ≡ x) xs
    → length (select test xs) ≡ 0
select-All_none test x [] h k = refl
select-All_none test x (y ∷ ys) h (e, k) = ground (arith, select-All_none test x ys h k, ap test e)

-- A test of equal elements holds of none or of all of them.
All-same :
    {A : Type 0} (test : A → Bool) (x : A) (xs : List A)
    → All (λ e. e ≡ x) xs
    → (length (select test xs) ≡ 0) ⊎ (length (select test xs) ≡ length xs)
All-same test x xs h = elim (Bool-cases (test x)) [
  | inl e ↦ inr (select-All test x xs e h)
  | inr e ↦ inl (select-All_none test x xs e h)
]

module _ {F : Type 0} ⦃num : Number F⦄ where
  open num use {add, div, round}

  -- The rounded share of none, or of all, of `n` runs.
  abbrev pub IsNoneOrAll : ℕ → F → Type 0
  IsNoneOrAll n share =
      (share ≡ round 4 (div (of_ℕ 0) (of_ℕ n))) ⊎ (share ≡ round 4 (div (of_ℕ n) (of_ℕ n)))

  abbrev total : F → List F → F
  total b [] = b
  total b (x ∷ xs) = total (add b x) xs

  walk-total : (c : Course F) (pnls : List F) → (walk c pnls).equity ≡ total c.equity pnls
  unfolding walk walk_step
  walk-total c [] = refl
  walk-total c (p ∷ ps) = walk-total (walk_step p c) ps

  total-sum_pnl :
      (b : F) (ts : List (SimulatedTrade F))
      → total b (map (λ (t : SimulatedTrade F). t.pnl) ts) ≡ sum_pnl b ts
  unfolding sum_pnl
  total-sum_pnl b [] = refl
  total-sum_pnl b (t ∷ ts) = total-sum_pnl (add b t.pnl) ts

  module _ (exact : IsExact F) where
    add_swap : (b x y : F) → add (add b x) y ≡ add (add b y) x
    add_swap b x y =
        exact.add_assoc b x y ∙ ap (add b) (exact.add_comm x y) ∙ sym (exact.add_assoc b y x)

    total-perm :
        {A : Type 0} (value : A → F) (b : F) {xs ys : List A}
        → Permᴰ xs ys
        → total b (map value xs) ≡ total b (map value ys)
    total-perm value b Permᴰ.nil = refl
    total-perm value b (Permᴰ.cons {b = y} {l₁ = xs} e p) =
        ap (λ x. total (add b (value x)) (map value xs)) e ∙ total-perm value (add b (value y)) p
    total-perm value b (Permᴰ.swap {a' = x} {b' = y} {l = l} e d) =
        cc (e, d, add_swap b (value y) (value x))
    total-perm value b (Permᴰ.trans p q) = total-perm value b p ∙ total-perm value b q

    run-sum_pnl :
        (trades : List (SimulatedTrade F)) (initial : F) (indices : List ℕ)
        → Permᴰ indices (range_from 0 (length trades))
        → (walk (course initial) (shuffled_pnls trades indices)).equity ≡ sum_pnl initial trades
    run-sum_pnl trades initial indices perm =
        let pnls = map (λ (t : SimulatedTrade F). t.pnl) trades in
        let in_order : map (at_index zero_f pnls) (range_from 0 (length trades)) ≡ pnls =
          rw (← length-map (λ (t : SimulatedTrade F). t.pnl) trades) (map-range_from zero_f pnls) in
        walk-total (course initial) _
        ∙ total-perm (at_index zero_f pnls) initial perm
        ∙ ap (total initial) in_order
        ∙ total-sum_pnl initial trades

    iterations_equities :
        (np : Numpy F) (shuffle : ℕ → List ℕ → List ℕ) (trades : List (SimulatedTrade F))
        (initial : F)
        → ((k : ℕ) (l : List ℕ) → Permᴰ (shuffle k l) l)
        → (n : ℕ)
        → (length (iterations np shuffle trades initial n).final_equities ≡ n)
          × All
              (λ e. e ≡ sum_pnl initial trades)
              (iterations np shuffle trades initial n).final_equities
    unfolding iterations
    iterations_equities np shuffle trades initial perm zero = (refl, tt)
    iterations_equities np shuffle trades initial perm (suc k) =
        let before = (iterations np shuffle trades initial k).final_equities in
        let (n, same) = iterations_equities np shuffle trades initial perm k in
        let end = run-sum_pnl trades initial _ (perm k (range_from 0 (length trades))) in
        (
          length-append before _ ∙ omega (arith, n),
          All-append (λ e. e ≡ sum_pnl initial trades) before _ same (end, tt),
        )

    -- With two trades or more, where every shuffle permutes the indices: every run ends with the
    -- initial bankroll and the sum of the P&L as its equity, whatever its shuffle. The probability of
    -- a profit is that of none or of all of the runs, and so is that of ruin.
    pub run_monte_carlo_degenerate :
        (np : Numpy F) (shuffle : ℕ → List ℕ → List ℕ) (trades : List (SimulatedTrade F))
        (config : BacktestConfig F)
        → ((k : ℕ) (l : List ℕ) → Permᴰ (shuffle k l) l)
        → 2 ≤ length trades
        → All
            (λ e. e ≡ sum_pnl config.initial_bankroll trades)
            (iterations np shuffle trades config.initial_bankroll
              config.mc_iterations).final_equities
          × IsNoneOrAll config.mc_iterations (run_monte_carlo np shuffle trades config).prob_profit
          × IsNoneOrAll config.mc_iterations (run_monte_carlo np shuffle trades config).prob_ruin
    unfolding run_monte_carlo
    run_monte_carlo_degenerate np shuffle trades config perm h =
        let initial = config.initial_bankroll in
        let end = sum_pnl initial trades in
        let g = iterations np shuffle trades initial config.mc_iterations in
        let (n, same) = iterations_equities np shuffle trades initial perm config.mc_iterations in
        let profit = All-same (is_profit initial) end g.final_equities same in
        let ruin = All-same (is_ruin initial) end g.final_equities same in
        (same, ground (arith, n, profit, ruin), ground (arith, n, profit, ruin))
