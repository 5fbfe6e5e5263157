-- ===== src/Strategies/Base.antt =====
-- strategies/base.py: `BaseStrategy._result`, with the confidence clamped to [0, 1].
use poly_market_prediction_b.Base.{String}
use poly_market_prediction_b.Core.Types.{Signal, SignalResult, FeedSnapshot, Indicators}
use poly_market_prediction_b.Number.{Number, zero_f, one_f, fmax, fmin}

module _ {F : Type 0} ⦃num : Number F⦄ where
  unfoldable pub result :
      String → Signal → F → String → FeedSnapshot F → Indicators F → SignalResult F
  result name signal confidence asset snapshot indicators = record {
    signal = signal;
    confidence = fmin one_f (fmax zero_f confidence);
    strategy = name;
    asset = asset;
    snapshot = snapshot;
    indicators = indicators;
  }
