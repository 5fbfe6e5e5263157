-- ===== src/Market/Finder.antt =====
-- market/finder.py: `find_market`, with its cache. The answers of the Gamma API are an input: at an
-- attempt and a candidate start of a window, an exception, nothing, or the first market of the first
-- event with its fields read. The waits between attempts are left out. Times are after 1970-01-01
-- 00:15, so that the start of the window before is a natural number.
pub mod Cached
use poly_market_prediction_b.Base.{
  ℕ, zero, suc, ◌+◌, ◌-◌, String, Bool, not, Option, none, some, List, [], ◌∷◌, ◌==◌, string_eq,
  nat_eq, ◌||◌, if◌then◌else◌,
}
use poly_market_prediction_b.Base.Dict.{Dict, lookup, insert}
use poly_market_prediction_b.Core.Types.{MarketInfo}
use poly_market_prediction_b.Market.{series_interval, window_ts}

pub record Listing (F : Type 0) : Type 0 where
  pub market_id : String
  pub event_title : String
  pub up_token_id : Option String
  pub down_token_id : Option String
  pub prices : List F
  pub closed : Bool
  pub active : Bool

pub data Answer (F : Type 0) : Type 0 where
  failed missing : Answer F
  listed : Listing F → Answer F

-- How the loop over the candidates ends: with a market, with none, or by an exception.
pub data Scan (F : Type 0) : Type 0 where
  found : MarketInfo F → Scan F
  nothing broken : Scan F

-- `self._cache`: a market, and the start of the window that it was looked up in.
abbrev pub Cache : Type 0 → Type 0
Cache F = Dict String (MarketInfo F × ℕ)

-- The starts of the current window, the next one and the one before.
abbrev pub candidates : ℕ → ℕ → List ℕ
candidates ts interval = ts ∷ (ts + interval) ∷ (ts - interval) ∷ []

module _ {F : Type 0} where
  -- The market of a listing, where it is open and has two prices.
  unfoldable pub info_of : String → ℕ → ℕ → Listing F → Option (MarketInfo F)
  info_of asset interval candidate l = if l.closed || not l.active then none else elim l.prices [
    | [] ↦ none
    | up ∷ more ↦ elim more [
      | [] ↦ none
      | down ∷ rest ↦ some (record {
        asset = asset;
        market_id = l.market_id;
        event_title = l.event_title;
        up_token_id = l.up_token_id;
        down_token_id = l.down_token_id;
        up_price = up;
        down_price = down;
        window_start = candidate;
        interval = interval;
      })
    ]
  ]

  -- The loop `for delta in (0, interval, -interval)`.
  unfoldable pub scan : (ℕ → Answer F) → String → ℕ → List ℕ → Scan F
  unfolding info_of
  scan fetch asset interval [] = nothing
  scan fetch asset interval (candidate ∷ candidates) =
      let rest = scan fetch asset interval candidates in
      elim (fetch candidate) [
        | failed ↦ broken
        | missing ↦ rest
        | listed l ↦ elim (info_of asset interval candidate l) [ none ↦ rest | some m ↦ found m ]
      ]

  -- `left` attempts remain, the next of which is number `attempt`.
  unfoldable pub search_market : (ℕ → ℕ → Answer F) → String → ℕ → ℕ → ℕ → ℕ → Option (MarketInfo F)
  unfolding scan
  search_market fetch asset ts interval zero attempt = none
  search_market fetch asset ts interval (suc left) attempt =
      let rest = search_market fetch asset ts interval left (suc attempt) in
      elim (scan (fetch attempt) asset interval (candidates ts interval)) [
        | found m ↦ some m
        | nothing ↦ rest
        | broken ↦ rest
      ]

  -- The market of the cache, where it was looked up in the window that starts at `ts`.
  unfoldable pub cached : String → ℕ → Cache F → Option (MarketInfo F)
  cached asset ts cache = elim (lookup asset cache) [
    | none ↦ none
    | some e ↦ if e.1 == ts then some e.0 else none
  ]

  unfoldable pub find_market :
      (ℕ → ℕ → Answer F) → ℕ → ℕ → String → Cache F → Option (MarketInfo F) × Cache F
  unfolding cached search_market
  find_market fetch retries now asset cache = elim (series_interval asset) [
    | none ↦ (none, cache)
    | some interval ↦ elim (window_ts now asset) [
      | none ↦ (none, cache)
      | some ts ↦ elim (cached asset ts cache) [
        | some m ↦ (some m, cache)
        | none ↦ elim (search_market fetch asset ts interval retries 0) [
          | none ↦ (none, cache)
          | some m ↦ (some m, insert asset (m, ts) cache)
        ]
      ]
    ]
  ]
