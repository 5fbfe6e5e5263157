-- ===== src/Market/Finder/Cached.antt =====
-- market/finder.py: a market that is found stays the market of the window.
use poly_market_prediction_b.Base.{
  ℕ, String, ◌≡◌, some, string_eq, nat_eq, arith, Option-cases, inl, inr,
}
use poly_market_prediction_b.Base.Dict.{lookup-insert, beq_self}
use poly_market_prediction_b.Core.Types.{MarketInfo}
use poly_market_prediction_b.Market.{series_interval, window_ts}
use poly_market_prediction_b.Market.Finder.{Answer, Cache, search_market, cached, find_market}

module _ {F : Type 0} where
  -- A market that is found is found again, without another request, whenever it is asked for in the
  -- same window: whatever the API answers by then, the market and the cache are the same.
  pub find_market_again :
      (fetch fetch' : ℕ → ℕ → Answer F) (retries retries' now later : ℕ) (asset : String)
      (cache : Cache F) (m : MarketInfo F)
      → (find_market fetch retries now asset cache).0 ≡ some m
      → window_ts later asset ≡ window_ts now asset
      → let kept = (find_market fetch retries now asset cache).1 in
        find_market fetch' retries' later asset kept ≡ (some m, kept)
  unfolding find_market cached
  find_market_again fetch fetch' retries retries' now later asset cache m h same =
      elim (Option-cases (series_interval asset)) [
        | inl e ↦ absurd (ground arith)
        | inr (interval, e) ↦ elim (Option-cases (window_ts now asset)) [
          | inl e' ↦ absurd (ground arith)
          | inr (ts, e') ↦ elim (Option-cases (cached asset ts cache)) [
            | inr (m', c) ↦ ground arith
            | inl c ↦ elim (Option-cases (search_market fetch asset ts interval retries 0)) [
              | inl s ↦ absurd (ground arith)
              | inr (m', s) ↦ ground (
                arith,
                lookup-insert asset asset (m', ts) cache,
                beq_self asset,
                beq_self {K = ℕ} ts,
              )
            ]
          ]
        ]
      ]
