-- ===== src/Feeds/Exchanges.antt =====
-- feeds/exchange_manager.py (`ExchangeManager`) and the interface of feeds/exchange_adapter.py. An
-- adapter is what its methods answer at the time of a call. Times of ticks are the floats of the code;
-- whether a health is fresh is an answer of the adapter. The metrics, the log and the lifecycle are
-- left out.
pub mod Robust
pub mod Adapters
use poly_market_prediction_b.Base.{
  ℕ, zero, suc, ◌+◌, ◌-◌, ◌/◌, ◌%◌, String, Bool, true, false, ◌&&◌, Option, none, some, List, [],
  ◌∷◌, ◌++◌, ◌==◌, map, select, if◌then◌else◌, ltb, length, any, get_or, string_eq, nat_eq,
}
use poly_market_prediction_b.Base.Dict.{Dict, lookup, insert}
use poly_market_prediction_b.Core.Types.{FeedSnapshot}
use poly_market_prediction_b.Number.{Number, zero_f, of_ℕ, fabs}

pub record NormalizedTick (F : Type 0) : Type 0 where
  pub exchange : String
  pub asset : String
  pub price : F
  pub volume : F
  pub bid : F
  pub ask : F
  pub timestamp : F

-- The dict of `get_full_snapshot`: its numbers by name, and `connected`.
pub record FullSnapshot (F : Type 0) : Type 0 where
  pub numbers : Dict String F
  pub connected : Option Bool

pub record ExchangeAdapter (F : Type 0) : Type 0 where
  pub name : String
  pub is_primary : Bool
  pub get_tick : String → Option (NormalizedTick F)
  pub is_healthy : Bool
  pub get_full_snapshot : String → Option (FullSnapshot F)

pub record ExchangeManager (F : Type 0) : Type 0 where
  pub adapters : List (ExchangeAdapter F)
  pub primary : Option (ExchangeAdapter F)

-- Whether `add_adapter` returned, or raised a ValueError.
pub data Added : Type 0 where
  added value_error : Added

module _ {F : Type 0} where
  abbrev pub new_manager : ExchangeManager F
  new_manager = record { adapters = []; primary = none }

  unfoldable pub add_adapter : ExchangeAdapter F → ExchangeManager F → Added × ExchangeManager F
  add_adapter adapter manager =
      let appended : ExchangeManager F = record manager {
        adapters = manager.adapters ++ (adapter ∷ []);
      } in
      if adapter.is_primary
      then (elim manager.primary [
        | some p ↦ (Added.value_error, appended)
        | none ↦ (Added.added, record appended { primary = some adapter })
      ])
      else (Added.added, appended)

  -- `full.get(key, 0.0)`, and `full.get("connected", False)`.
  abbrev pub number_of : F → FullSnapshot F → String → F
  number_of default full key = get_or (lookup key full.numbers) default

module _ {F : Type 0} ⦃num : Number F⦄ where
  open num use {dec, add, sub, mul, div, lt, le, eq}

  unfoldable pub get_all_ticks : String → List (ExchangeAdapter F) → List (NormalizedTick F)
  get_all_ticks asset [] = []
  get_all_ticks asset (adapter ∷ adapters) =
      let rest = get_all_ticks asset adapters in
      elim (adapter.get_tick asset) [
        | none ↦ rest
        | some tick ↦ if lt zero_f tick.price then tick ∷ rest else rest
      ]

  -- `sorted(xs)`, by insertion.
  abbrev pub insert_sorted : F → List F → List F
  insert_sorted x [] = x ∷ []
  insert_sorted x (y ∷ ys) = if lt y x then y ∷ insert_sorted x ys else x ∷ y ∷ ys

  abbrev pub sorted : List F → List F
  sorted [] = []
  sorted (x ∷ xs) = insert_sorted x (sorted xs)

  abbrev pub at_or : F → List F → ℕ → F
  at_or default [] i = default
  at_or default (x ∷ xs) zero = x
  at_or default (x ∷ xs) (suc i) = at_or default xs i

  -- `statistics.median` of data that are not empty.
  unfoldable pub median : List F → F
  median xs =
      let ordered = sorted xs in
      let n = length xs in
      let high = at_or zero_f ordered (n / 2) in
      if n % 2 == 1 then high else div (add (at_or zero_f ordered (n / 2 - 1)) high) (of_ℕ 2)

  abbrev pub price_of : NormalizedTick F → F
  price_of t = t.price

  unfoldable pub get_median_price : String → ExchangeManager F → Option F
  unfolding get_all_ticks median
  get_median_price asset manager = elim (get_all_ticks asset manager.adapters) [
    | [] ↦ none
    | t ∷ ts ↦ some (median (map price_of (t ∷ ts)))
  ]

  abbrev pub insert_price : Dict String F → List (NormalizedTick F) → Dict String F
  insert_price prices [] = prices
  insert_price prices (t ∷ ts) = insert_price (insert t.exchange t.price prices) ts

  unfoldable pub get_prices_by_exchange : String → ExchangeManager F → Dict String F
  unfolding get_all_ticks
  get_prices_by_exchange asset manager = insert_price [] (get_all_ticks asset manager.adapters)

  -- The distance of a price from the median.
  abbrev pub deviation : F → F → F
  deviation med p = fabs (sub p med)

  unfoldable pub detect_outliers : String → F → ExchangeManager F → List (NormalizedTick F)
  unfolding get_all_ticks median
  detect_outliers asset sigma manager =
      let ticks = get_all_ticks asset manager.adapters in
      let prices = map price_of ticks in
      let med = median prices in
      let mad = median (map (deviation med) prices) in
      let threshold = mul (mul sigma mad) (dec 14_826 4) in
      if ltb (length ticks) 2
      then []
      else if eq med zero_f
      then []
      else if eq mad zero_f
      then []
      else select (λ t. lt threshold (deviation med t.price)) ticks

  -- `max(ticks, key=lambda t: t.timestamp)`: the first of the most recent.
  abbrev pub most_recent : NormalizedTick F → List (NormalizedTick F) → NormalizedTick F
  most_recent best [] = best
  most_recent best (t ∷ ts) = most_recent (if lt best.timestamp t.timestamp then t else best) ts

  abbrev pub empty_snapshot : FeedSnapshot F
  empty_snapshot = record {
    last_price = zero_f;
    price_2min_ago = zero_f;
    vwap_change = zero_f;
    cvd_2min = zero_f;
    funding_rate = zero_f;
    liq_long_2min = zero_f;
    liq_short_2min = zero_f;
    bid = zero_f;
    ask = zero_f;
    book_imbalance = zero_f;
    open_interest = zero_f;
    long_short_ratio = zero_f;
    connected = false;
    last_update = zero_f;
  }

  abbrev pub full_snapshot : FullSnapshot F → FeedSnapshot F
  full_snapshot full =
      let number = number_of zero_f full in
      record {
        last_price = number "last_price";
        price_2min_ago = number "price_2min_ago";
        vwap_change = number "vwap_change";
        cvd_2min = number "cvd_2min";
        funding_rate = number "funding_rate";
        liq_long_2min = number "liq_long_2min";
        liq_short_2min = number "liq_short_2min";
        bid = number "bid";
        ask = number "ask";
        book_imbalance = number "book_imbalance";
        open_interest = number "open_interest";
        long_short_ratio = number "long_short_ratio";
        connected = get_or full.connected false;
        last_update = number "last_update";
      }

  -- The fallback on the ticks.
  unfoldable pub tick_snapshot : List (NormalizedTick F) → FeedSnapshot F
  tick_snapshot [] = empty_snapshot
  tick_snapshot (t ∷ ts) =
      let best = most_recent t ts in
      record empty_snapshot {
        last_price = best.price;
        bid = best.bid;
        ask = best.ask;
        connected = true;
        last_update = best.timestamp;
      }

  unfoldable pub get_snapshot : String → ExchangeManager F → FeedSnapshot F
  unfolding get_all_ticks tick_snapshot
  get_snapshot asset manager =
      let fallback = tick_snapshot (get_all_ticks asset manager.adapters) in
      elim manager.primary [
        | none ↦ fallback
        | some adapter ↦ elim (adapter.get_full_snapshot asset) [
          | none ↦ fallback
          | some full ↦ full_snapshot full
        ]
      ]

  -- `tick is not None and tick.price > 0`, and a healthy adapter.
  abbrev pub has_price : Option (NormalizedTick F) → Bool
  has_price none = false
  has_price (some t) = lt zero_f t.price

  unfoldable pub is_healthy : String → ExchangeManager F → Bool
  is_healthy asset manager =
      any (λ a. has_price (a.get_tick asset) && a.is_healthy) manager.adapters

  unfoldable pub healthy_count : ExchangeManager F → ℕ
  healthy_count manager = length (select (λ a. a.is_healthy) manager.adapters)
