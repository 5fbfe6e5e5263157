-- ===== src/Execution/Window.antt =====
-- `_WindowTracker` of execution/executor.py: orders counted per strategy, asset and window.
-- A window key is the minute since the epoch at which the window starts.
pub mod Limits
use poly_market_prediction_b.Base.{
  ℕ, ◌+◌, ◌-◌, ◌*◌, ◌/◌, ◌%◌, String, Bool, Option, ◌==◌, string_eq, nat_eq, pair_eq, ◌||◌,
  if◌then◌else◌, ltb, leb, length, select, get_or,
}
use poly_market_prediction_b.Base.Dict.{Dict, lookup, insert}

abbrev pub Counts : Type 0
Counts = Dict (String × (String × ℕ)) ℕ

abbrev pub max_stale_keys : ℕ
max_stale_keys = 500

-- `_INTERVAL_MIN.get(asset, 5)`
abbrev pub interval_min : String → ℕ
interval_min asset = if asset == "SOL" then 15 else 5

-- The text of `_window_key` shows the date, the hour and the floor of the minute.
unfoldable pub window_key : ℕ → String → ℕ
window_key now asset =
    let minutes = now / 60_000_000 in
    let minute = minutes % 60 in minutes - minute + minute / interval_min asset * interval_min asset

abbrev pub is_current : ℕ → ℕ → Bool
is_current now k =
    window_key now "BTC" == k || (window_key now "ETH" == k || window_key now "SOL" == k)

unfoldable pub cleanup : ℕ → Counts → Counts
cleanup now counts =
    if leb (length counts) max_stale_keys
    then counts
    else select (λ e. is_current now e.0.1.1) counts

unfoldable pub count : ℕ → String → String → Counts → ℕ
count now strategy asset counts = get_or (lookup (strategy, (asset, window_key now asset)) counts) 0

unfoldable pub can_place : ℕ → String → String → ℕ → Counts → Bool
unfolding count
can_place now strategy asset max_orders counts = ltb (count now strategy asset counts) max_orders

-- `none` in place of the count is the KeyError of a key that the cleanup has just dropped.
unfoldable pub record_order : ℕ → ℕ → String → String → Counts → Option ℕ × Counts
unfolding count
record_order now cleaned_at strategy asset counts =
    let key : String × (String × ℕ) = (strategy, (asset, window_key now asset)) in
    let counts' = cleanup cleaned_at (insert key (count now strategy asset counts + 1) counts) in
    (lookup key counts', counts')
