-- ===== src/Storage/Accounts.antt =====
-- database.py, section Bankroll: one row for each strategy and asset.
use poly_market_prediction_b.Base.{
  ℕ, String, none, some, List, [], ◌∷◌, ◌++◌, string_eq, if◌then◌else◌, any,
}
use poly_market_prediction_b.Base.Tables.{fetch_one, update_where}
use poly_market_prediction_b.Number.{Number, zero_f}
use poly_market_prediction_b.Storage.{Database, Bankroll, is_row_of}

module _ {F : Type 0} ⦃num : Number F⦄ where
  open num use {sub}

  -- One INSERT OR IGNORE of `seed_bankroll`, against the primary key (strategy, asset).
  unfoldable pub seed_row : ℕ → F → String → String → List (Bankroll F) → List (Bankroll F)
  seed_row now initial strategy asset rows =
      if any (is_row_of strategy asset) rows
      then rows
      else rows
        ++ (record {
          strategy = strategy;
          asset = asset;
          current = initial;
          peak = initial;
          updated_at = now;
        }
            ∷ [])

  unfoldable pub seed_assets : ℕ → F → String → List String → List (Bankroll F) → List (Bankroll F)
  seed_assets now initial strategy [] rows = rows
  seed_assets now initial strategy (asset ∷ assets) rows =
      seed_assets now initial strategy assets (seed_row now initial strategy asset rows)

  unfoldable pub seed_rows :
      ℕ → F → List String → List String → List (Bankroll F) → List (Bankroll F)
  seed_rows now initial [] assets rows = rows
  seed_rows now initial (strategy ∷ strategies) assets rows =
      seed_rows now initial strategies assets (seed_assets now initial strategy assets rows)

  unfoldable pub seed_bankroll : ℕ → List String → List String → F → Database F → Database F
  unfolding seed_rows seed_assets seed_row
  seed_bankroll now strategies assets initial db = record db {
    bankroll = seed_rows now initial strategies assets db.bankroll;
  }

  -- The balance, and zero where there is no row.
  unfoldable pub get_bankroll : String → String → Database F → F
  get_bankroll strategy asset db = elim (fetch_one (is_row_of strategy asset) db.bankroll) [
    | none ↦ zero_f
    | some r ↦ r.current
  ]

  unfoldable pub get_bankroll_peak : String → String → Database F → F
  get_bankroll_peak strategy asset db = elim (fetch_one (is_row_of strategy asset) db.bankroll) [
    | none ↦ zero_f
    | some r ↦ r.peak
  ]

  unfoldable pub get_all_bankrolls : Database F → List (Bankroll F)
  get_all_bankrolls db = db.bankroll

  -- `SET current = current - ?`
  abbrev pub charged : F → Bankroll F → Bankroll F
  charged amount r = record r { current = sub r.current amount }

  unfoldable pub deduct_fee : String → String → F → Database F → Database F
  deduct_fee strategy asset amount db = record db {
    bankroll = update_where (is_row_of strategy asset) (charged amount) db.bankroll;
  }
