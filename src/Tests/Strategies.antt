-- ===== src/Tests/Strategies.antt =====
-- The strategies, the selector and the market windows at concrete inputs.
use poly_market_prediction_b.Base.{if◌then◌else◌, ◌==◌, nat_eq}
use poly_market_prediction_b.Core.Types.{MarketInfo}
use poly_market_prediction_b.Strategies.Trend.{Trends, builders_of}
use poly_market_prediction_b.Strategies.Trend.Confirm.{IsBounded}
use poly_market_prediction_b.Strategies.Composite.{CompositeConfig}
use poly_market_prediction_b.Market.Finder.{
  Answer, missing, listed, Listing, find_market, info_of, cached,
}
use poly_market_prediction_b.Market.Finder.Cached.{find_market_again}
use poly_market_prediction_b.Strategies.Adaptive.{AdaptiveThreshold}
use poly_market_prediction_b.Strategies.Adaptive.Window.{IsTimed, deque_of}
use poly_market_prediction_b.Base.{arith, List, [], ◌∷◌}
use poly_market_prediction_b.Base.{ℕ, true, false, ◌≡◌, refl, none, some}
use poly_market_prediction_b.Number.Integer.{pos}
use poly_market_prediction_b.Number.Fixed.{Fixed, fixed_number}
use poly_market_prediction_b.Strategies.Signals.{MomentumConfig, Band, Adaptive}
use poly_market_prediction_b.Market.{window_ts}

abbrev momentum_config : MomentumConfig Fixed
momentum_config = record {
  cvd_threshold = pos 2_000_000_000_000;
  vwap_threshold = pos 1_000;
  max_entry_buy_yes = pos 550_000;
  max_entry_buy_no = pos 600_000;
}

-- A threshold that has been learnt.
abbrev adaptive : Adaptive Fixed
adaptive = record {
  has_enough_data = λ asset. true;
  threshold = λ asset fixed. pos 4_000_000_000_000;
}

-- A band of no width.
abbrev flat : Band Fixed
flat = record { upper = pos 66_000_000_000; lower = pos 66_000_000_000; mid = pos 66_000_000_000 }

-- Two values of BTC, one older than the window of an hour.
abbrev learnt : AdaptiveThreshold Fixed
learnt = record {
  limits = record { window_seconds = 3_600; percentile = 75; min_samples = 1 };
  cvd = ("BTC", (1_000_000, pos 5) ∷ (7_000_000_000, pos 7) ∷ []) ∷ [];
  vwap = ("BTC", (7_000_000_000, pos 1) ∷ []) ∷ [];
}

learnt-IsTimed : IsTimed (deque_of "BTC" learnt.cvd)
unfolding IsTimed
learnt-IsTimed = ((omega arith, tt), (tt, tt))

-- A stand-in for the percentile: the first value.
abbrev first_of : List Fixed → ℕ → Fixed
first_of [] p = pos 0
first_of (x ∷ xs) p = x

-- Five closed candles of a minute, each higher than the one before.
abbrev rising : Trends Fixed
rising =
    (
      "BTC",
      record {
        one_minute = record {
          duration = 60;
          closes =
              pos 1_000_000 ∷ pos 2_000_000 ∷ pos 3_000_000 ∷ pos 4_000_000 ∷ pos 5_000_000 ∷ [];
          cur_bucket = 600;
          cur_prices = pos 6_000_000 ∷ [];
        };
        five_minute = record { duration = 300; closes = []; cur_bucket = 600; cur_prices = [] };
      },
    )
    ∷ []

rising-IsBounded : IsBounded (builders_of "BTC" rising)
unfolding builders_of
rising-IsBounded = record { minutes = omega arith; fives = omega arith }

abbrev weights : CompositeConfig Fixed
weights = record {
  min_confidence = pos 400_000;
  w_rsi = pos 200_000;
  w_bb = pos 150_000;
  w_funding = pos 150_000;
  w_oi = pos 150_000;
  w_ls_ratio = pos 100_000;
  w_volume = pos 150_000;
  w_regime = pos 100_000;
}

-- The market of the window from 600 to 900, and an API that lists no other.
abbrev last_window : Listing Fixed
last_window = record {
  market_id = "m0";
  event_title = "Bitcoin Up or Down";
  up_token_id = none;
  down_token_id = none;
  prices = pos 500_000 ∷ pos 500_000 ∷ [];
  closed = false;
  active = true;
}

abbrev late_api : ℕ → ℕ → Answer Fixed
late_api attempt start = if start == 600 then listed last_window else missing

abbrev last_market : MarketInfo Fixed
last_market = record {
  asset = "BTC";
  market_id = "m0";
  event_title = "Bitcoin Up or Down";
  up_token_id = none;
  down_token_id = none;
  up_price = pos 500_000;
  down_price = pos 500_000;
  window_start = 600;
  interval = 300;
}

-- Asked again within the window, when the API lists nothing.
find_market_again_example :
    find_market (λ attempt start. missing) 3 1_100_000_000 "BTC" (("BTC", (last_market, 900)) ∷ [])
    ≡ (some last_market, ("BTC", (last_market, 900)) ∷ [])
unfolding window_ts cached info_of find_market
find_market_again_example =
    find_market_again late_api (λ attempt start. missing) 3 3 1_000_000_000 1_100_000_000 "BTC" []
      last_market refl refl
