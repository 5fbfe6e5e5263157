-- ===== src/Tests/Market.antt =====
-- The order book, and the recorder of the equity, at concrete inputs.
use poly_market_prediction_b.Base.{Some, ◌≡◌, refl, none, some, [], ◌∷◌, ◌++◌, arith, ℕ, ◌+◌, ◌*◌}
use poly_market_prediction_b.Number.{fmin}
use poly_market_prediction_b.Number.Integer.{pos}
use poly_market_prediction_b.Number.Fixed.{Fixed, fixed_number}
use poly_market_prediction_b.Number.Fixed.Laws.{Fixed-IsOrdered}
use poly_market_prediction_b.Market.OrderBook.{asks, failed, get_best_ask}
use poly_market_prediction_b.Market.OrderBook.Fresh
use poly_market_prediction_b.Market.OrderBook.Fresh.{IsFresh, get_best_ask-IsFresh}
use poly_market_prediction_b.Market.OrderBook.Tokens.{parse_token_ids, read_tokens}
use poly_market_prediction_b.Storage.{Database}
use poly_market_prediction_b.Storage.Equity.{get_all_stats, get_equity_curve}
use poly_market_prediction_b.Bot.Equity.{equity_turn, snapshots_of, equity_turn-get_equity_curve}
use poly_market_prediction_b.Tests.Data.{three_losses}

abbrev cents : ℕ → Fixed
cents n = pos (n * 10_000)

abbrev fetched : Fresh.Call Fixed
fetched = record {
  now = 10_000_000;
  token_id = "up";
  book = asks (cents 62 ∷ cents 58 ∷ cents 60 ∷ []);
}

-- Three seconds later, when the API fails.
abbrev asked : Fresh.Call Fixed
asked = record { now = 13_000_000; token_id = "up"; book = failed }

get_best_ask-IsFresh_example :
    Some (IsFresh 13_000_000 "up" (cents 58)) ((fetched ∷ []) ++ (asked ∷ []))
unfolding Fresh.calls get_best_ask fmin
get_best_ask-IsFresh_example =
    get_best_ask-IsFresh Fixed-IsOrdered (fetched ∷ []) asked (cents 58) refl

-- No list of ids, and tokens of which one names its outcome.
parse_run :
    parse_token_ids (record {
      clob_token_ids = none;
      tokens =
          some (record { outcome = "over"; token_id = some "a" })
          ∷ some (record { outcome = "down"; token_id = some "b" })
          ∷ [];
    })
    ≡ (some "a", some "b")
unfolding parse_token_ids read_tokens
parse_run = refl

-- A snapshot from an earlier turn.
abbrev after_a_turn : Database Fixed
after_a_turn = record three_losses {
  equity_snapshots =
      record {
        timestamp = 4;
        strategy = "MOMENTUM";
        asset = "BTC";
        bankroll = pos 0;
        total_pnl = pos 0;
        open_trades = 0;
      }
      ∷ [];
}

equity_turn-get_equity_curve_example :
    let accounts = get_all_stats ("MOMENTUM" ∷ []) ("BTC" ∷ "SOL" ∷ []) after_a_turn in
    get_equity_curve none none
      (some 5)
      (equity_turn (λ i. i + 5) ("MOMENTUM" ∷ []) ("BTC" ∷ "SOL" ∷ []) after_a_turn)
    ≡ snapshots_of (λ i. i + 5) 0 after_a_turn accounts
equity_turn-get_equity_curve_example =
    equity_turn-get_equity_curve (λ i. i + 5) ("MOMENTUM" ∷ []) ("BTC" ∷ "SOL" ∷ []) after_a_turn
      (λ i. omega arith) (omega arith)
