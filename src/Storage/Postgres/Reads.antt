-- ===== src/Storage/Postgres/Reads.antt =====
-- storage/postgres.py: what is read of the bankroll and the trades. `scan` is the order in which rows of
-- `trades` come that no ORDER BY puts in order.
use mathlib.Core.List.{reverse}
use poly_market_prediction_b.Base.{
  ℕ, String, ◌&&◌, not, Option, none, some, List, [], ◌∷◌, ◌++◌, ◌==◌, string_eq, map, select,
  length, take, is_some, if◌then◌else◌,
}
use poly_market_prediction_b.Base.Tables.{fetch_one}
use poly_market_prediction_b.Core.Types.{Outcome, is_yes, is_no}
use poly_market_prediction_b.Number.{Number, zero_f, of_ℕ}
use poly_market_prediction_b.Storage.{Trade, is_row_of, is_trade_of, has_id, is_open}
use poly_market_prediction_b.Storage.Trades.{RollingStats, Stats, meets, has_won, pnl_of, sum_of}
use poly_market_prediction_b.Storage.Equity.{AccountStats}
use poly_market_prediction_b.Storage.Postgres.{PostgresDatabase}

module _ {F : Type 0} ⦃num : Number F⦄ where
  open num use {dec, add, sub, mul, div, lt, round}

  unfoldable pub get_bankroll : String → String → PostgresDatabase F → F
  get_bankroll strategy asset db = elim (fetch_one (is_row_of strategy asset) db.bankroll) [
    | none ↦ zero_f
    | some r ↦ r.current
  ]

  unfoldable pub get_bankroll_peak : String → String → PostgresDatabase F → F
  get_bankroll_peak strategy asset db = elim (fetch_one (is_row_of strategy asset) db.bankroll) [
    | none ↦ zero_f
    | some r ↦ r.peak
  ]

  -- The resolved trades of a strategy on an asset, newest first, at most `n`.
  abbrev pub last_resolved : String → String → ℕ → PostgresDatabase F → List (Trade F)
  last_resolved strategy asset n db =
      take n
        (reverse (select (λ t. is_trade_of strategy asset t && not (is_open t)) db.trades.rows))

  unfoldable pub get_rolling_stats : String → String → ℕ → PostgresDatabase F → RollingStats F
  get_rolling_stats strategy asset n db = elim (last_resolved strategy asset n db) [
    | [] ↦ record { resolved = 0; win_rate = zero_f; avg_entry = dec 5 1 }
    | row ∷ more ↦
        let rows = row ∷ more in
        let total = of_ℕ (length rows) in
        record {
          resolved = length rows;
          win_rate = div (of_ℕ (length (select has_won rows))) total;
          avg_entry = div (sum_of (λ t. t.entry_price) rows) total;
        }
  ]

  unfoldable pub get_recent_outcomes :
      String → String → ℕ → PostgresDatabase F → List (Option Outcome)
  get_recent_outcomes strategy asset n db = map (λ t. t.outcome) (last_resolved strategy asset n db)

  unfoldable pub get_recent_trades : ℕ → PostgresDatabase F → List (Trade F)
  get_recent_trades limit db = take limit (reverse db.trades.rows)

  unfoldable pub get_trades_for_strategy : String → ℕ → PostgresDatabase F → List (Trade F)
  get_trades_for_strategy strategy limit db =
      take limit (reverse (select (λ t. t.strategy == strategy) db.trades.rows))

  -- The text of the indicators; an empty text counts as none. Reading the JSON is left to the caller.
  unfoldable pub get_trade_indicators : ℕ → PostgresDatabase F → Option String
  get_trade_indicators trade_id db = elim (fetch_one (has_id trade_id) db.trades.rows) [
    | none ↦ none
    | some t ↦ elim t.indicators_json [
      | none ↦ none
      | some raw ↦ if raw == "" then none else some raw
    ]
  ]

  module _ (scan : List (Trade F) → List (Trade F)) where
    unfoldable pub get_open_trades :
        Option String → Option String → PostgresDatabase F → List (Trade F)
    get_open_trades strategy asset db =
        select (λ t. is_open t && (meets strategy t.strategy && meets asset t.asset))
          (scan db.trades.rows)

    unfoldable pub get_stats : String → String → PostgresDatabase F → Stats F
    get_stats strategy asset db =
        let mine = select (is_trade_of strategy asset) (scan db.trades.rows) in
        let open_count = length (select is_open mine) in
        elim (select (λ t. not (is_open t)) mine) [
          | [] ↦ record {
            trades = 0;
            open_count = open_count;
            wins = 0;
            win_rate = zero_f;
            avg_entry = zero_f;
            total_pnl = zero_f;
            edge = zero_f;
          }
          | row ∷ more ↦
              let rows = row ∷ more in
              let wins = length (select has_won rows) in
              let total = of_ℕ (length rows) in
              let avg_entry = div (sum_of (λ t. t.entry_price) rows) total in
              let total_pnl = sum_of pnl_of (select (λ t. is_some t.pnl) rows) in
              let win_rate = div (of_ℕ wins) total in
              record {
                trades = length rows;
                open_count = open_count;
                wins = wins;
                win_rate = round 1 (mul win_rate (of_ℕ 100));
                avg_entry = round 3 avg_entry;
                total_pnl = round 2 total_pnl;
                edge = round 4 (sub win_rate avg_entry);
              }
        ]

    -- The counts for BUY_YES and BUY_NO.
    unfoldable pub count_open_by_direction : String → PostgresDatabase F → ℕ × ℕ
    count_open_by_direction asset db =
        let rows = select (λ t. t.asset == asset && is_open t) (scan db.trades.rows) in
        (length (select (λ t. is_yes t.signal) rows), length (select (λ t. is_no t.signal) rows))

    -- The inner loop, and the outer one.
    unfoldable pub stats_of_assets :
        String → List String → PostgresDatabase F → List (AccountStats F)
    unfolding get_bankroll get_stats
    stats_of_assets strategy [] db = []
    stats_of_assets strategy (asset ∷ assets) db =
        record {
          strategy = strategy;
          asset = asset;
          bankroll = round 2 (get_bankroll strategy asset db);
          stats = get_stats strategy asset db;
        }
        ∷ stats_of_assets strategy assets db

    unfoldable pub get_all_stats :
        List String → List String → PostgresDatabase F → List (AccountStats F)
    unfolding stats_of_assets
    get_all_stats [] assets db = []
    get_all_stats (strategy ∷ strategies) assets db =
        stats_of_assets strategy assets db ++ get_all_stats strategies assets db
