-- ===== src/Strategies/Composite/Range.antt =====
-- strategies/composite.py: the score is in [0, 1].
use poly_market_prediction_b.Base.{Option}
use poly_market_prediction_b.Core.Types.{FeedSnapshot, RegimeResult}
use poly_market_prediction_b.Number.{Number, zero_f, one_f, fmax}
use poly_market_prediction_b.Number.Order.{
  ◌≼◌, IsOrdered, IsRounded, le-fmin, le-fmax_left, fmin-le_left, le_of_lt,
}
use poly_market_prediction_b.Strategies.Composite.{CompositeConfig, total_score, score}

module _ {F : Type 0} ⦃num : Number F⦄ (laws : IsOrdered F) (rounded : IsRounded F) where
  -- Whatever the weights and the indicators are, the score is in [0, 1].
  pub score_range :
      (cfg : CompositeConfig F) (snapshot : FeedSnapshot F) (rsi : Option F)
      (bb : Option (Option F)) (regime : Option (RegimeResult F))
      → (zero_f ≼ score cfg snapshot rsi bb regime) × (score cfg snapshot rsi bb regime ≼ one_f)
  unfolding score
  score_range cfg snapshot rsi bb regime =
      let total = total_score cfg snapshot rsi bb regime in
      let low =
        le-fmin laws one_f (fmax zero_f total) zero_f (le_of_lt laws zero_f one_f laws.zero-lt-one)
          (le-fmax_left laws zero_f total) in
      let high = fmin-le_left laws one_f (fmax zero_f total) in
      (
        rw (rounded.round_whole 0) at (rounded.round_mono 4 _ _ low),
        rw (rounded.round_whole 1) at (rounded.round_mono 4 _ _ high),
      )
