-- ===== src/Backtest/Comparison/Ranking.antt =====
-- backtest/comparison.py: the scores of a comparison are those of the reports, from the best on.
use mathlib.Core.Path.{subst}
use mathlib.Core.List.Permᴰ
use mathlib.Core.List.Permᴰ.{Permᴰ}
use poly_market_prediction_b.Base.{
  ℕ, suc, true, false, ◌+◌, ◌≡◌, ◌∙◌, refl, ap, sym, List, [], ◌∷◌, map, length, All, All-imp,
  Bool-cases, inl, inr, arith, length-map, if◌then◌else◌,
}
use poly_market_prediction_b.Number.{Number}
use poly_market_prediction_b.Number.Order.{◌≼◌, IsOrdered, le_of_lt}
use poly_market_prediction_b.Backtest.MonteCarlo.{range_from}
use poly_market_prediction_b.Backtest.Metrics.Compute.{Numpy}
use poly_market_prediction_b.Backtest.Comparison.{
  FullBacktestReport, StrategyScore, score_of, insert_score, sort_scores, assign_ranks,
  compare_strategies,
}

map-Permᴰ : {A B : Type 0} (f : A → B) {xs ys : List A} → Permᴰ xs ys → Permᴰ (map f xs) (map f ys)
map-Permᴰ f Permᴰ.nil = Permᴰ.nil
map-Permᴰ f (Permᴰ.cons e p) = Permᴰ.cons (ap f e) (map-Permᴰ f p)
map-Permᴰ f (Permᴰ.swap e g) = Permᴰ.swap (ap f e) (ap f g)
map-Permᴰ f (Permᴰ.trans p q) = Permᴰ.trans (map-Permᴰ f p) (map-Permᴰ f q)

module _ {F : Type 0} ⦃num : Number F⦄ where
  open num use {lt}

  -- No score is above one before it.
  abbrev pub IsDescending : List (StrategyScore F) → Type 0
  IsDescending [] = Unit
  IsDescending (s ∷ ss) =
      All (λ (t : StrategyScore F). t.composite_score ≼ s.composite_score) ss × IsDescending ss

  abbrev pub unranked : StrategyScore F → StrategyScore F
  unranked s = record s { rank = 0 }

  insert_score-Permᴰ :
      (s : StrategyScore F) (ss : List (StrategyScore F)) → Permᴰ (insert_score s ss) (s ∷ ss)
  insert_score-Permᴰ s [] = Permᴰ.refl (s ∷ [])
  insert_score-Permᴰ s (t ∷ ts) =
      elim (lt s.composite_score t.composite_score)
        as (λ b. Permᴰ (if b then t ∷ insert_score s ts else s ∷ t ∷ ts) (s ∷ t ∷ ts)) [
          | true ↦ Permᴰ.trans (Permᴰ.cons refl (insert_score-Permᴰ s ts)) (Permᴰ.swap refl refl)
          | false ↦ Permᴰ.refl (s ∷ t ∷ ts)
        ]

  sort_scores-Permᴰ : (ss : List (StrategyScore F)) → Permᴰ (sort_scores ss) ss
  sort_scores-Permᴰ [] = Permᴰ.nil
  sort_scores-Permᴰ (s ∷ ss) =
      Permᴰ.trans (insert_score-Permᴰ s (sort_scores ss)) (Permᴰ.cons refl (sort_scores-Permᴰ ss))

  length-insert_score :
      (s : StrategyScore F) (ss : List (StrategyScore F))
      → length (insert_score s ss) ≡ suc (length ss)
  length-insert_score s [] = refl
  length-insert_score s (t ∷ ts) = ground (arith, length-insert_score s ts)

  length-sort_scores : (ss : List (StrategyScore F)) → length (sort_scores ss) ≡ length ss
  length-sort_scores [] = refl
  length-sort_scores (s ∷ ss) =
      ground (arith, length-insert_score s (sort_scores ss), length-sort_scores ss)

  All-insert_score :
      (top : F) (s : StrategyScore F) (ss : List (StrategyScore F))
      → s.composite_score ≼ top
      → All (λ (t : StrategyScore F). t.composite_score ≼ top) ss
      → All (λ (t : StrategyScore F). t.composite_score ≼ top) (insert_score s ss)
  All-insert_score top s [] h a = (h, tt)
  All-insert_score top s (t ∷ ts) h (g, a) = ground (arith, All-insert_score top s ts h a)

  rank-assign_ranks :
      (i : ℕ) (ss : List (StrategyScore F))
      → map (λ (s : StrategyScore F). s.rank) (assign_ranks i ss) ≡ range_from (suc i) (length ss)
  unfolding range_from
  rank-assign_ranks i [] = refl
  rank-assign_ranks i (s ∷ ss) = ground (arith, rank-assign_ranks (i + 1) ss)

  unranked-assign_ranks :
      (i : ℕ) (ss : List (StrategyScore F)) → map unranked (assign_ranks i ss) ≡ map unranked ss
  unranked-assign_ranks i [] = refl
  unranked-assign_ranks i (s ∷ ss) = ap (λ ts. unranked s ∷ ts) (unranked-assign_ranks (i + 1) ss)

  All-assign_ranks :
      (top : F) (i : ℕ) (ss : List (StrategyScore F))
      → All (λ (t : StrategyScore F). t.composite_score ≼ top) ss
      → All (λ (t : StrategyScore F). t.composite_score ≼ top) (assign_ranks i ss)
  All-assign_ranks top i [] h = tt
  All-assign_ranks top i (s ∷ ss) (h, a) = (h, All-assign_ranks top (i + 1) ss a)

  assign_ranks-IsDescending :
      (i : ℕ) (ss : List (StrategyScore F)) → IsDescending ss → IsDescending (assign_ranks i ss)
  assign_ranks-IsDescending i [] h = tt
  assign_ranks-IsDescending i (s ∷ ss) (a, h) =
      (All-assign_ranks s.composite_score (i + 1) ss a, assign_ranks-IsDescending (i + 1) ss h)

  unranked-score_of :
      (np : Numpy F) (sqrt : F → F) (reports : List (FullBacktestReport F))
      → map unranked (map (score_of np sqrt) reports) ≡ map (score_of np sqrt) reports
  unfolding score_of
  unranked-score_of np sqrt [] = refl
  unranked-score_of np sqrt (report ∷ reports) =
      ap (λ ss. score_of np sqrt report ∷ ss) (unranked-score_of np sqrt reports)

  module _ (laws : IsOrdered F) where
    open laws use {le_trans, le_total, lt-eq-not-le}

    insert_score-IsDescending :
        (s : StrategyScore F) (ss : List (StrategyScore F))
        → IsDescending ss
        → IsDescending (insert_score s ss)
    insert_score-IsDescending s [] h = (tt, tt)
    insert_score-IsDescending s (t ∷ ts) (a, h) =
        elim (Bool-cases (lt s.composite_score t.composite_score)) [
          | inl below ↦
              let top = le_of_lt laws s.composite_score t.composite_score below in
              rw below
                (All-insert_score t.composite_score s ts top a, insert_score-IsDescending s ts h)
          | inr above ↦
              let under : t.composite_score ≼ s.composite_score =
                ground (arith, lt-eq-not-le s.composite_score t.composite_score) in
              rw above (
                (
                  under,
                  All-imp (λ (u : StrategyScore F). u.composite_score ≼ t.composite_score)
                      (λ (u : StrategyScore F). u.composite_score ≼ s.composite_score)
                      (λ u below.
                        le_trans u.composite_score t.composite_score s.composite_score below under)
                      ts a,
                ),
                (a, h),
              )
        ]

    sort_scores-IsDescending : (ss : List (StrategyScore F)) → IsDescending (sort_scores ss)
    sort_scores-IsDescending [] = tt
    sort_scores-IsDescending (s ∷ ss) =
        insert_score-IsDescending s (sort_scores ss) (sort_scores-IsDescending ss)

    -- The scores of a comparison are those of the reports, in an order in which no score is above one
    -- before it, and their ranks count from 1.
    pub compare_strategies_ranks :
        (np : Numpy F) (sqrt : F → F) (reports : List (FullBacktestReport F))
        → let scores = (compare_strategies np sqrt reports).scores in
          Permᴰ (map unranked scores) (map (score_of np sqrt) reports)
          × IsDescending scores
          × (map (λ (s : StrategyScore F). s.rank) scores ≡ range_from 1 (length reports))
    unfolding compare_strategies range_from
    compare_strategies_ranks np sqrt [] = (Permᴰ.nil, tt, refl)
    compare_strategies_ranks np sqrt (report ∷ reports) =
        let found = map (score_of np sqrt) (report ∷ reports) in
        let ordered = sort_scores found in
        (
          subst (λ ss. Permᴰ ss found) (sym (unranked-assign_ranks 0 ordered))
              (Permᴰ.trans (map-Permᴰ unranked (sort_scores-Permᴰ found)) (
                subst (λ ss. Permᴰ (map unranked found) ss)
                  (unranked-score_of np sqrt (report ∷ reports))
                  (Permᴰ.refl (map unranked found)))),
          assign_ranks-IsDescending 0 ordered (sort_scores-IsDescending found),
          rank-assign_ranks 0 ordered
              ∙ ap (range_from 1)
                  (length-sort_scores found ∙ length-map (score_of np sqrt) (report ∷ reports)),
        )
