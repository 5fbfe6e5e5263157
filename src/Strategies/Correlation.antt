-- ===== src/Strategies/Correlation.antt =====
-- strategies/correlation.py: signals are blocked by the movement of BTC. numpy's `std` and `corrcoef`
-- are parameters. Timestamps are microseconds.
use poly_market_prediction_b.Base.{
  ℕ, ◌+◌, ◌*◌, ◌/◌, String, Bool, false, not, Option, none, some, List, [], ◌∷◌, ◌++◌, map, ◌==◌,
  string_eq, nat_eq, ◌&&◌, ◌||◌, length, select, ltb, leb, is_some, get_or, if◌then◌else◌,
}
use poly_market_prediction_b.Base.Dict.{Dict, lookup, insert}
use poly_market_prediction_b.Core.Types.{Signal, is_yes, is_no}
use poly_market_prediction_b.Number.{Number, zero_f, of_ℕ}

pub record CorrelationConfig (F : Type 0) : Type 0 where
  pub btc_drop_threshold_pct : F
  pub btc_drop_window_seconds : ℕ
  pub correlation_threshold : F
  pub correlation_window_seconds : ℕ

pub record CorrelationNumpy (F : Type 0) : Type 0 where
  pub std : List F → F
  pub corrcoef : List F → List F → F

-- A `deque` of timestamps and prices, the oldest first.
abbrev pub Ticks : Type 0 → Type 0
Ticks F = List (ℕ × F)

pub record CorrelationFilter (F : Type 0) : Type 0 where
  pub cfg : CorrelationConfig F
  pub prices : Dict String (Ticks F)

-- `sorted(...)` of keys.
unfoldable pub insert_sorted : ℕ → List ℕ → List ℕ
insert_sorted k [] = k ∷ []
insert_sorted k (j ∷ ks) = let rest = insert_sorted k ks in if leb k j then k ∷ j ∷ ks else j ∷ rest

unfoldable pub sorted_keys : {V : Type 0} → Dict ℕ V → List ℕ
unfolding insert_sorted
sorted_keys [] = []
sorted_keys ((k, v) ∷ d) = insert_sorted k (sorted_keys d)

module _ {F : Type 0} where
  -- The loop of `popleft`: it ends at the first entry of the window.
  unfoldable pub trim : ℕ → ℕ → Ticks F → Ticks F
  trim seconds now [] = []
  trim seconds now (e ∷ dq) =
      let rest = trim seconds now dq in if ltb (e.0 + seconds * 1_000_000) now then rest else e ∷ dq

  unfoldable pub last_tick : ℕ × F → Ticks F → ℕ × F
  last_tick e [] = e
  last_tick e (d ∷ dq) = last_tick d dq

  -- The oldest price within the window.
  unfoldable pub first_within : ℕ → ℕ → Ticks F → Option F
  first_within seconds now [] = none
  first_within seconds now (e ∷ dq) =
      let rest = first_within seconds now dq in
      if leb now (e.0 + seconds * 1_000_000) then some e.1 else rest

  -- `buckets.setdefault(bucket, []).append(p)`
  unfoldable pub bucket_prices : Ticks F → Dict ℕ (List F) → Dict ℕ (List F)
  bucket_prices [] buckets = buckets
  bucket_prices ((ts, p) ∷ dq) buckets =
      let bucket = ts / 60_000_000 in
      bucket_prices dq (insert bucket (get_or (lookup bucket buckets) [] ++ (p ∷ [])) buckets)

module _ {F : Type 0} ⦃num : Number F⦄ where
  open num use {dec, add, sub, mul, div, neg, lt, le, eq}

  unfoldable pub update : String → F → ℕ → CorrelationFilter F → CorrelationFilter F
  unfolding trim
  update asset price timestamp f =
      let dq = get_or (lookup asset f.prices) [] in
      if le price zero_f then f else record f {
        prices =
            insert asset
              (trim f.cfg.correlation_window_seconds timestamp dq ++ ((timestamp, price) ∷ []))
              f.prices;
      }

  -- The return within the window that ends at the newest tick.
  unfoldable pub return_of : ℕ → Ticks F → Option F
  unfolding last_tick first_within
  return_of seconds [] = none
  return_of seconds (e ∷ []) = none
  return_of seconds (e ∷ d ∷ dq) =
      let (now, newest) = last_tick d dq in
      elim (first_within seconds now (e ∷ d ∷ dq)) [
        | none ↦ none
        | some old ↦ if eq old zero_f then none else some (div (sub newest old) old)
      ]

  unfoldable pub get_recent_return : String → ℕ → CorrelationFilter F → Option F
  unfolding return_of
  get_recent_return asset seconds f = return_of seconds (get_or (lookup asset f.prices) [])

  unfoldable pub sum_prices : F → List F → F
  sum_prices acc [] = acc
  sum_prices acc (x ∷ xs) = sum_prices (add acc x) xs

  -- `sum(v) / len(v)`; a bucket that is there holds a price.
  unfoldable pub average : Dict ℕ (List F) → ℕ → F
  unfolding sum_prices
  average buckets k =
      let prices = get_or (lookup k buckets) [] in
      div (sum_prices zero_f prices) (of_ℕ (length prices))

  -- The returns from each bucket to the next, where the price before is positive.
  unfoldable pub returns_between : (ℕ → F) → List ℕ → Dict ℕ F
  returns_between avg (j ∷ k ∷ ks) =
      let rest = returns_between avg (k ∷ ks) in
      if lt zero_f (avg j) then (k, div (sub (avg k) (avg j)) (avg j)) ∷ rest else rest
  returns_between avg _ = []

  unfoldable pub bucket_returns : Ticks F → Dict ℕ F
  unfolding bucket_prices average sorted_keys returns_between
  bucket_returns dq =
      let buckets = bucket_prices dq [] in returns_between (average buckets) (sorted_keys buckets)

  -- The correlation of two series; the keys are in order, since the returns are.
  unfoldable pub correlation_of : CorrelationNumpy F → Ticks F → Ticks F → Option F
  unfolding bucket_returns
  correlation_of np dq_a dq_b =
      let ret_a = bucket_returns dq_a in
      let ret_b = bucket_returns dq_b in
      let common = select (λ k. is_some (lookup k ret_b)) (map (λ e. e.0) ret_a) in
      let arr_a = map (λ k. get_or (lookup k ret_a) zero_f) common in
      let arr_b = map (λ k. get_or (lookup k ret_b) zero_f) common in
      if ltb (length dq_a) 10 || ltb (length dq_b) 10
      then none
      else if ltb (length common) 5
      then none
      else if eq (np.std arr_a) zero_f || eq (np.std arr_b) zero_f
      then none
      else some (np.corrcoef arr_a arr_b)

  unfoldable pub compute_correlation :
      CorrelationNumpy F → String → String → CorrelationFilter F → Option F
  unfolding correlation_of
  compute_correlation np a b f =
      correlation_of np (get_or (lookup a f.prices) []) (get_or (lookup b f.prices) [])

  -- Rule 1: BTC has dropped, and the signal is BUY_YES.
  unfoldable pub dropped : CorrelationFilter F → Signal → Bool
  dropped f direction =
      is_yes direction && elim (get_recent_return "BTC" f.cfg.btc_drop_window_seconds f) [
        | none ↦ false
        | some r ↦ le f.cfg.btc_drop_threshold_pct (mul (neg r) (of_ℕ 100))
      ]

  -- Rule 2: the asset follows BTC, and the signal goes against its movement.
  unfoldable pub contrarian : CorrelationNumpy F → CorrelationFilter F → String → Signal → Bool
  contrarian np f asset direction = elim (compute_correlation np "BTC" asset f) [
    | none ↦ false
    | some corr ↦
        lt f.cfg.correlation_threshold corr
        && elim (get_recent_return "BTC" f.cfg.btc_drop_window_seconds f) [
          | none ↦ false
          | some r ↦
              (lt r (neg (dec 5 3)) && is_yes direction) || (lt (dec 5 3) r && is_no direction)
        ]
  ]

  unfoldable pub is_allowed : CorrelationNumpy F → String → Signal → CorrelationFilter F → Bool
  unfolding dropped contrarian
  is_allowed np asset direction f =
      asset == "BTC" || not (dropped f direction || contrarian np f asset direction)
