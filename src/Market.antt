-- ===== src/Market.antt =====
-- market/finder.py: the current window of an asset, and the entry price of a market.
pub mod Windows
pub mod Finder
pub mod OrderBook
use poly_market_prediction_b.Base.{
  ℕ, ◌-◌, ◌*◌, ◌/◌, String, ◌&&◌, Option, none, some, ◌==◌, string_eq, if◌then◌else◌,
}
use poly_market_prediction_b.Core.Types.{Signal, MarketInfo, is_yes}
use poly_market_prediction_b.Number.{Number, zero_f, one_f, of_ℕ}

-- `MARKET_SERIES[asset]["interval"]`; `none` is an asset with no series.
abbrev pub series_interval : String → Option ℕ
series_interval asset =
    if asset == "BTC"
    then some 300
    else if asset == "ETH"
    then some 300
    else if asset == "SOL"
    then some 900
    else none

-- `MARKET_SERIES.get(asset, {}).get("interval", 300)`
abbrev pub interval_of : String → ℕ
interval_of asset = elim (series_interval asset) [ none ↦ 300 | some i ↦ i ]

-- `int(time.time())`, of a time in microseconds.
abbrev pub whole_seconds : ℕ → ℕ
whole_seconds now = now / 1_000_000

unfoldable pub window_ts : ℕ → String → Option ℕ
window_ts now asset = elim (series_interval asset) [
  | none ↦ none
  | some interval ↦ some (whole_seconds now / interval * interval)
]

-- Seconds of the current window that have passed.
unfoldable pub elapsed_seconds : ℕ → String → ℕ
elapsed_seconds now asset =
    let interval = interval_of asset in whole_seconds now - whole_seconds now / interval * interval

module _ {F : Type 0} ⦃num : Number F⦄ where
  open num use {div, lt}

  unfoldable pub window_elapsed_pct : ℕ → String → F
  unfolding elapsed_seconds
  window_elapsed_pct now asset = div (of_ℕ (elapsed_seconds now asset)) (of_ℕ (interval_of asset))

  -- `get_best_ask` is the order book's answer for a token. An empty token id counts as none.
  unfoldable pub get_entry_price : (String → Option F) → MarketInfo F → Signal → F
  get_entry_price get_best_ask market signal =
      let token_id = if is_yes signal then market.up_token_id else market.down_token_id in
      let mid = if is_yes signal then market.up_price else market.down_price in
      elim token_id [
        | none ↦ mid
        | some token ↦ if token == "" then mid else elim (get_best_ask token) [
          | none ↦ mid
          | some ask ↦ if lt zero_f ask && lt ask one_f then ask else mid
        ]
      ]
