-- ===== src/Bot/Equity.antt =====
-- main.py, `equity_snapshot_task`: the statistics of the accounts go into the equity snapshots.
use poly_market_prediction_b.Base.{
  ℕ, ◌+◌, ◌≤◌, ◌<◌, ◌≡◌, ◌∙◌, refl, ap, sym, String, none, some, List, [], ◌∷◌, ◌++◌, select,
  select-append, append_snoc, append_nil, length, All, arith,
}
use poly_market_prediction_b.Number.{Number}
use poly_market_prediction_b.Storage.{Database, EquitySnapshot}
use poly_market_prediction_b.Storage.Trades.{get_open_trades}
use poly_market_prediction_b.Storage.History.{save_equity_snapshot}
use poly_market_prediction_b.Storage.Equity.{
  AccountStats, get_all_stats, get_equity_curve, by_timestamp, is_since,
}

module _ {F : Type 0} ⦃num : Number F⦄ where
  -- The loop over the statistics. The clock gives the time at each snapshot, by its number.
  unfoldable pub record_equity : (ℕ → ℕ) → ℕ → List (AccountStats F) → Database F → Database F
  record_equity clock i [] db = db
  record_equity clock i (s ∷ rest) db =
      let open_trades = get_open_trades (some s.strategy) (some s.asset) db in
      record_equity clock (i + 1) rest (
        save_equity_snapshot (clock i) s.strategy s.asset s.bankroll s.stats.total_pnl
          (length open_trades) db)

  abbrev pub snapshot_at : ℕ → Database F → AccountStats F → EquitySnapshot F
  snapshot_at now db s = record {
    timestamp = now;
    strategy = s.strategy;
    asset = s.asset;
    bankroll = s.bankroll;
    total_pnl = s.stats.total_pnl;
    open_trades = length (get_open_trades (some s.strategy) (some s.asset) db);
  }

  -- The snapshots of the statistics, with the open trades of one database.
  abbrev pub snapshots_of :
      (ℕ → ℕ) → ℕ → Database F → List (AccountStats F) → List (EquitySnapshot F)
  snapshots_of clock i db [] = []
  snapshots_of clock i db (s ∷ rest) =
      snapshot_at (clock i) db s ∷ snapshots_of clock (i + 1) db rest

  snapshots_of-equity :
      (clock : ℕ → ℕ) (i : ℕ) (db : Database F) (rows : List (EquitySnapshot F))
      (stats : List (AccountStats F))
      → snapshots_of clock i (record db { equity_snapshots = rows }) stats
        ≡ snapshots_of clock i db stats
  unfolding get_open_trades
  snapshots_of-equity clock i db rows [] = refl
  snapshots_of-equity clock i db rows (s ∷ rest) =
      ap (λ xs. snapshot_at (clock i) db s ∷ xs) (snapshots_of-equity clock (i + 1) db rows rest)

  record_equity-snapshots_of :
      (clock : ℕ → ℕ) (i : ℕ) (stats : List (AccountStats F)) (db : Database F)
      → (record_equity clock i stats db).equity_snapshots
        ≡ db.equity_snapshots ++ snapshots_of clock i db stats
  unfolding record_equity save_equity_snapshot
  record_equity-snapshots_of clock i [] db = sym (append_nil db.equity_snapshots)
  record_equity-snapshots_of clock i (s ∷ rest) db =
      let row = snapshot_at (clock i) db s in
      let rows = db.equity_snapshots ++ (row ∷ []) in
      let db' = record db { equity_snapshots = rows } in
      record_equity-snapshots_of clock (i + 1) rest db'
      ∙ append_snoc db.equity_snapshots row (snapshots_of clock (i + 1) db' rest)
      ∙ ap (λ xs. db.equity_snapshots ++ (row ∷ xs))
          (snapshots_of-equity clock (i + 1) db rows rest)

  module _ (clock : ℕ → ℕ) (ascending : (i : ℕ) → clock i ≤ clock (i + 1)) where
    by_timestamp-snapshots_of :
        (i : ℕ) (db : Database F) (stats : List (AccountStats F))
        → by_timestamp (snapshots_of clock i db stats) ≡ snapshots_of clock i db stats
    by_timestamp-snapshots_of i db [] = refl
    by_timestamp-snapshots_of i db (s ∷ []) = refl
    by_timestamp-snapshots_of i db (s ∷ t ∷ rest) =
        ground (arith, ascending i, by_timestamp-snapshots_of (i + 1) db (t ∷ rest))

    select-snapshots_of :
        (since i : ℕ) (db : Database F) (stats : List (AccountStats F))
        → since ≤ clock i
        → select (is_since (some since)) (snapshots_of clock i db stats)
          ≡ snapshots_of clock i db stats
    select-snapshots_of since i db [] h = refl
    select-snapshots_of since i db (s ∷ rest) h =
        ground (arith, ascending i, select-snapshots_of since (i + 1) db rest)

  select_earlier :
      (since : ℕ) (rows : List (EquitySnapshot F))
      → All (λ (r : EquitySnapshot F). r.timestamp < since) rows
      → select (is_since (some since)) rows ≡ []
  select_earlier since [] h = refl
  select_earlier since (r ∷ rows) (h, hs) = ground (arith, select_earlier since rows hs)

  -- One turn of the task. Its snapshots are read back below.
  unfoldable pub equity_turn : (ℕ → ℕ) → List String → List String → Database F → Database F
  equity_turn clock strategies assets db =
      record_equity clock 0 (get_all_stats strategies assets db) db

  -- Where the clock does not go back, and all snapshots are from before a turn: the equity curve since
  -- the turn has one snapshot for each account, in their order, with the statistics of the account and
  -- the number of its open trades when the turn began.
  pub equity_turn-get_equity_curve :
      (clock : ℕ → ℕ) (strategies assets : List String) (db : Database F)
      → ((i : ℕ) → clock i ≤ clock (i + 1))
      → All (λ (r : EquitySnapshot F). r.timestamp < clock 0) db.equity_snapshots
      → get_equity_curve none none (some (clock 0)) (equity_turn clock strategies assets db)
        ≡ snapshots_of clock 0 db (get_all_stats strategies assets db)
  unfolding equity_turn get_equity_curve
  equity_turn-get_equity_curve clock strategies assets db ascending h =
      let since = clock 0 in
      let stats = get_all_stats strategies assets db in
      let rows = snapshots_of clock 0 db stats in
      ap (λ xs. by_timestamp (select (is_since (some since)) xs))
        (record_equity-snapshots_of clock 0 stats db)
      ∙ ap by_timestamp (
          select-append (is_since (some since)) db.equity_snapshots rows
          ∙ ap (λ xs. xs ++ select (is_since (some since)) rows)
              (select_earlier since db.equity_snapshots h)
          ∙ select-snapshots_of clock ascending since 0 db stats (omega arith))
      ∙ by_timestamp-snapshots_of clock ascending 0 db stats
