-- ===== src/Market/OrderBook.antt =====
-- market/orderbook.py (`OrderbookFetcher`): the best ask with its cache, and the token ids of a market.
-- The answer of the CLOB API is taken with its prices read, and the JSON of a market with its fields
-- read. Times are microseconds.
pub mod Fresh
pub mod Tokens
use mathlib.Core.List.{foldl}
use poly_market_prediction_b.Base.{
  string_eq, ℕ, ◌+◌, String, Option, none, some, List, [], ◌∷◌, if◌then◌else◌, ltb,
}
use poly_market_prediction_b.Base.Dict.{Dict, lookup, insert}
use poly_market_prediction_b.Number.{Number, fmin}

-- `_CACHE_TTL`
abbrev pub cache_ttl : ℕ
cache_ttl = 5_000_000

-- `_cache`: the price of a token, and when it was fetched.
abbrev pub PriceCache : Type 0 → Type 0
PriceCache F = Dict String (F × ℕ)

-- What a request for the book of a token gives: an exception, or the prices of the asks.
pub data Book (F : Type 0) : Type 0 where
  failed : Book F
  asks : List F → Book F

module _ {F : Type 0} ⦃num : Number F⦄ where
  -- `min(prices)`
  unfoldable pub lowest : F → List F → F
  lowest price prices = foldl fmin price prices

  -- The answer of the request, and what the cache keeps of it.
  unfoldable pub fetch : ℕ → String → Book F → PriceCache F → Option F × PriceCache F
  unfolding lowest
  fetch now token_id failed cache = (none, cache)
  fetch now token_id (asks []) cache = (none, cache)
  fetch now token_id (asks (price ∷ prices)) cache =
      let best = lowest price prices in (some best, insert token_id (best, now) cache)

  unfoldable pub get_best_ask : ℕ → String → Book F → PriceCache F → Option F × PriceCache F
  unfolding fetch
  get_best_ask now token_id book cache = elim (lookup token_id cache) [
    | none ↦ fetch now token_id book cache
    | some (price, at) ↦
        if ltb now (at + cache_ttl) then (some price, cache) else fetch now token_id book cache
  ]
