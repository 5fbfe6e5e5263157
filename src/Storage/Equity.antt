-- ===== src/Storage/Equity.antt =====
-- storage/database.py: the statistics of all accounts, and the equity snapshots as a time series.
use poly_market_prediction_b.Base.{
  ℕ, String, Bool, true, not, ◌&&◌, Option, none, some, List, [], ◌∷◌, ◌++◌, select, if◌then◌else◌,
  ltb,
}
use poly_market_prediction_b.Number.{Number}
use poly_market_prediction_b.Storage.{Database, EquitySnapshot}
use poly_market_prediction_b.Storage.Accounts.{get_bankroll}
use poly_market_prediction_b.Storage.Trades.{Stats, meets, get_stats}

-- An element of `get_all_stats`.
pub record AccountStats (F : Type 0) : Type 0 where
  pub strategy : String
  pub asset : String
  pub bankroll : F
  pub stats : Stats F

module _ {F : Type 0} ⦃num : Number F⦄ where
  open num use {round}

  unfoldable pub account_stats : String → String → Database F → AccountStats F
  account_stats strategy asset db = record {
    strategy = strategy;
    asset = asset;
    bankroll = round 2 (get_bankroll strategy asset db);
    stats = get_stats strategy asset db;
  }

  -- The inner loop, and the outer one.
  unfoldable pub stats_of_assets : String → List String → Database F → List (AccountStats F)
  unfolding account_stats
  stats_of_assets strategy [] db = []
  stats_of_assets strategy (asset ∷ assets) db =
      account_stats strategy asset db ∷ stats_of_assets strategy assets db

  unfoldable pub get_all_stats : List String → List String → Database F → List (AccountStats F)
  unfolding stats_of_assets
  get_all_stats [] assets db = []
  get_all_stats (strategy ∷ strategies) assets db =
      stats_of_assets strategy assets db ++ get_all_stats strategies assets db

module _ {F : Type 0} where
  -- `ORDER BY timestamp ASC`, with equal times in the order of the table.
  abbrev pub insert_snapshot : EquitySnapshot F → List (EquitySnapshot F) → List (EquitySnapshot F)
  insert_snapshot s [] = s ∷ []
  insert_snapshot s (t ∷ ts) =
      let rest = insert_snapshot s ts in
      if ltb t.timestamp s.timestamp then t ∷ rest else s ∷ t ∷ ts

  abbrev pub by_timestamp : List (EquitySnapshot F) → List (EquitySnapshot F)
  by_timestamp [] = []
  by_timestamp (s ∷ ss) = insert_snapshot s (by_timestamp ss)

  abbrev pub is_since : Option ℕ → EquitySnapshot F → Bool
  is_since none s = true
  is_since (some since) s = not (ltb s.timestamp since)

  unfoldable pub get_equity_curve :
      Option String → Option String → Option ℕ → Database F → List (EquitySnapshot F)
  get_equity_curve strategy asset since db = by_timestamp (
      select (λ s. meets strategy s.strategy && meets asset s.asset && is_since since s)
        db.equity_snapshots)
