-- ===== src/Market/Windows.antt =====
-- market/finder.py: the window of an asset.
use poly_market_prediction_b.Base.{ℕ, ◌+◌, ◌-◌, ◌*◌, ◌/◌, ◌%◌, ◌<◌, ◌≤◌, String, ◌≡◌, some, arith}
use poly_market_prediction_b.Market.{
  series_interval, interval_of, whole_seconds, window_ts, elapsed_seconds,
}

series_interval-le : (a : String) (i : ℕ) → series_interval a ≡ some i → 300 ≤ i
series_interval-le a i h = ground arith

window_split : (n i : ℕ) → 0 < i → (n / i * i + (n - n / i * i) ≡ n) × (n - n / i * i < i)
window_split n i h = grind arith

-- For an asset with a market series, the window starts at a multiple of the interval, the start and
-- the elapsed seconds add up to the time, and fewer seconds have passed than the interval has.
pub window_ts_elapsed :
    (now : ℕ) (asset : String) (interval : ℕ)
    → series_interval asset ≡ some interval
    → (start : ℕ) × (window_ts now asset ≡ some start)
      × (start % interval ≡ 0)
      × (start + elapsed_seconds now asset ≡ whole_seconds now)
      × (elapsed_seconds now asset < interval)
unfolding window_ts elapsed_seconds
window_ts_elapsed now asset interval h =
    let wide = series_interval-le asset interval h in
    let n = whole_seconds now in
    let (sum, rest) = window_split n interval (omega arith) in
    let same : interval_of asset ≡ interval = ground arith in
    (n / interval * interval, ground arith, grind arith, rw same sum, rw same rest)
