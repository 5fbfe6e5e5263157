-- ===== src/Storage/Queue.antt =====
-- database.py, section Dead Letter Queue: trades that stay unresolved are voided.
use poly_market_prediction_b.Base.{
  ℕ, ◌+◌, ◌*◌, String, Bool, none, some, List, [], ◌∷◌, ◌++◌, ◌==◌, nat_eq, ◌&&◌, select, ltb,
}
use poly_market_prediction_b.Base.Tables.{fetch_one, update_where, next_id}
use poly_market_prediction_b.Core.Types.{Outcome}
use poly_market_prediction_b.Number.{Number, zero_f}
use poly_market_prediction_b.Storage.{Database, Trade, DeadLetter, has_id, is_open}
use poly_market_prediction_b.Storage.Trades.{newest, set_outcome}

-- Microseconds in an hour.
abbrev pub hour : ℕ
hour = 3_600_000_000

module _ {F : Type 0} where
  -- `timestamp < cutoff`, with the cutoff `now - older_than_hours * 3600` taken to the other side.
  abbrev pub is_stale : ℕ → ℕ → Trade F → Bool
  is_stale now older_than_hours t = is_open t && ltb (t.timestamp + older_than_hours * hour) now

  unfoldable pub get_stale_open_trades : ℕ → ℕ → Database F → List (Trade F)
  get_stale_open_trades now older_than_hours db = select (is_stale now older_than_hours) db.trades

  unfoldable pub dead_letter_of : ℕ → String → Trade F → DeadLetter F
  dead_letter_of i reason t = record {
    id = i;
    original_trade_id = t.id;
    timestamp = t.timestamp;
    strategy = t.strategy;
    asset = t.asset;
    market_id = t.market_id;
    signal = t.signal;
    entry_price = t.entry_price;
    bet_size = t.bet_size;
    reason = reason;
    resolved_outcome = none;
    resolved_at = none;
  }

  unfoldable pub get_dead_letter_trades : ℕ → Database F → List (DeadLetter F)
  get_dead_letter_trades limit db = newest limit db.dead_letter_trades

  unfoldable pub resolve_dead_letter : ℕ → ℕ → Outcome → Database F → Database F
  resolve_dead_letter now dlq_id outcome db = record db {
    dead_letter_trades =
        update_where (λ (d : DeadLetter F). d.id == dlq_id)
          (λ (d : DeadLetter F). record d {
            resolved_outcome = some outcome;
            resolved_at = some now;
          })
          db.dead_letter_trades;
  }

module _ {F : Type 0} ⦃num : Number F⦄ where
  -- The balance is left as it is.
  unfoldable pub move_to_dead_letter : ℕ → String → Database F → Database F
  unfolding dead_letter_of
  move_to_dead_letter trade_id reason db = elim (fetch_one (has_id trade_id) db.trades) [
    | none ↦ db
    | some trade ↦
        let i = next_id (λ (d : DeadLetter F). d.id) db.dead_letter_trades in
        record db {
          dead_letter_trades = db.dead_letter_trades ++ (dead_letter_of i reason trade ∷ []);
          trades = update_where (has_id trade_id) (set_outcome Outcome.void zero_f) db.trades;
        }
  ]
