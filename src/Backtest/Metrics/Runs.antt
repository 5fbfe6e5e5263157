-- ===== src/Backtest/Metrics/Runs.antt =====
-- backtest/metrics.py: the streaks and counts of a list of trades.
use poly_market_prediction_b.Base.{
  ℕ, suc, ◌+◌, ◌≤◌, Bool, not, List, [], ◌∷◌, ◌≡◌, Bool-cases, inl, inr, arith, if◌then◌else◌,
}
use poly_market_prediction_b.Backtest.Models.{has_won, SimulatedTrade}
use poly_market_prediction_b.Backtest.Metrics.{
  Streaks, nat_max, count_streak, count_streaks, consecutive_streaks,
}

nat_max_zero : (n : ℕ) → nat_max 0 n ≡ n
unfolding nat_max
nat_max_zero n = ground arith

nat_max-le : (m n : ℕ) → m ≤ n → nat_max m n ≡ n
unfolding nat_max
nat_max-le m n h = ground arith

no_run : (best cur : ℕ) → cur ≤ best → best ≡ nat_max best (nat_max (cur + 0) 0)
unfolding nat_max
no_run best cur h = ground arith

-- A streak that goes on, and one that is broken.
longer_run :
    (best cur front rest : ℕ)
    → nat_max (nat_max best (cur + 1)) (nat_max (cur + 1 + front) rest)
      ≡ nat_max best (nat_max (cur + suc front) (nat_max (suc front) rest))
unfolding nat_max
longer_run best cur front rest = ground arith

broken_run :
    (best cur front rest : ℕ)
    → cur ≤ best
    → front ≤ rest
    → nat_max best (nat_max (0 + front) rest) ≡ nat_max best (nat_max (cur + 0) (nat_max 0 rest))
unfolding nat_max
broken_run best cur front rest h l = ground arith

module _ {ℓ} {A : Type ℓ} (p : A → Bool) where
  -- The run at the front of a list, and the longest run anywhere in it.
  abbrev pub lead : List A → ℕ
  lead [] = 0
  lead (x ∷ xs) = if p x then suc (lead xs) else 0

  abbrev pub longest_run : List A → ℕ
  longest_run [] = 0
  longest_run (x ∷ xs) = nat_max (lead (x ∷ xs)) (longest_run xs)

  lead-le : (xs : List A) → lead xs ≤ longest_run xs
  unfolding nat_max
  lead-le [] = omega arith
  lead-le (x ∷ xs) = ground arith

module _ {F : Type 0} where
  abbrev pub won : SimulatedTrade F → Bool
  won t = has_won t.exit_outcome

  abbrev pub lost : SimulatedTrade F → Bool
  lost t = not (has_won t.exit_outcome)

  count_streak_wins :
      (s : Streaks) (t : SimulatedTrade F)
      → s.cur_wins ≤ s.max_wins
      → (count_streak s t).cur_wins ≤ (count_streak s t).max_wins
  unfolding count_streak nat_max
  count_streak_wins s t h = ground arith

  count_streak_losses :
      (s : Streaks) (t : SimulatedTrade F)
      → s.cur_losses ≤ s.max_losses
      → (count_streak s t).cur_losses ≤ (count_streak s t).max_losses
  unfolding count_streak nat_max
  count_streak_losses s t h = ground arith

  count_streaks_lem :
      (s : Streaks) (trades : List (SimulatedTrade F))
      → s.cur_wins ≤ s.max_wins
      → s.cur_losses ≤ s.max_losses
      → ((count_streaks s trades).max_wins
          ≡ nat_max s.max_wins (nat_max (s.cur_wins + lead won trades) (longest_run won trades)))
        × ((count_streaks s trades).max_losses
            ≡ nat_max s.max_losses
                (nat_max (s.cur_losses + lead lost trades) (longest_run lost trades)))
  unfolding count_streaks count_streak
  count_streaks_lem s [] h l = (no_run s.max_wins _ h, no_run s.max_losses _ l)
  count_streaks_lem s (t ∷ ts) h l =
      let s' = count_streak s t in
      let rest = count_streaks_lem s' ts (count_streak_wins s t h) (count_streak_losses s t l) in
      elim (Bool-cases (has_won t.exit_outcome)) [
        | inl e ↦ ground (
          arith,
          rest,
          longer_run s.max_wins s.cur_wins (lead won ts) (longest_run won ts),
          broken_run s.max_losses s.cur_losses _ _ l (lead-le lost ts),
        )
        | inr e ↦ ground (
          arith,
          rest,
          longer_run s.max_losses s.cur_losses (lead lost ts) (longest_run lost ts),
          broken_run s.max_wins s.cur_wins _ _ h (lead-le won ts),
        )
      ]

  -- The two streaks are the longest runs of wins and of losses among the trades.
  pub consecutive_streaks_lem :
      (trades : List (SimulatedTrade F))
      → consecutive_streaks trades ≡ (longest_run won trades, longest_run lost trades)
  unfolding consecutive_streaks
  consecutive_streaks_lem trades =
      let zeros : Streaks = record { max_wins = 0; max_losses = 0; cur_wins = 0; cur_losses = 0 } in
      let lem = count_streaks_lem zeros trades (ground arith) (ground arith) in
      ground (
        arith,
        lem,
        nat_max_zero (nat_max (lead won trades) (longest_run won trades)),
        nat_max_zero (nat_max (lead lost trades) (longest_run lost trades)),
        nat_max-le _ _ (lead-le won trades),
        nat_max-le _ _ (lead-le lost trades),
      )
