-- ===== src/Execution/Resolver.antt =====
-- execution/resolver.py: open trades are settled by the outcome of their markets, and what stays
-- open too long goes to the dead-letter queue. The answers of the Gamma API and the reading of its
-- JSON are inputs.
pub mod Payoff
pub mod Cycle
pub mod Groups
pub mod Once
pub mod Settled
use poly_market_prediction_b.Base.{
  ℕ, String, Bool, not, Option, none, some, List, [], ◌∷◌, ◌++◌, ◌==◌, string_eq, ◌&&◌, ◌||◌,
  if◌then◌else◌,
}
use poly_market_prediction_b.Base.Dict.{Dict, lookup, insert}
use poly_market_prediction_b.Core.Types.{Signal, Outcome, is_yes}
use poly_market_prediction_b.Number.{Number, one_f}
use poly_market_prediction_b.Storage.{Database, Trade}
use poly_market_prediction_b.Storage.Queue.{get_stale_open_trades, move_to_dead_letter}
use poly_market_prediction_b.Storage.Trades.{get_open_trades, resolve_trade}

-- A market of the Gamma API, with JSON values `V`.
pub record Market (V : Type 0) : Type 0 where
  pub resolution : Option String
  pub closed : Bool
  pub outcome_prices : V

-- `isinstance(raw, str)`, `json.loads` and `[float(p) for p in raw]`, `none` for an exception.
pub record Json (F V : Type 0) : Type 0 where
  pub as_text : V → Option String
  pub loads : String → Option V
  pub floats : V → Option (List F)

-- The event "trade.resolved".
pub record Resolved (F : Type 0) : Type 0 where
  pub trade_id : ℕ
  pub strategy : String
  pub asset : String
  pub outcome : Outcome
  pub pnl : F
  pub signal : Signal
  pub entry_price : F
  pub bet_size : F
  pub market_id : String

-- The database, and the events published so far.
pub record State (F : Type 0) : Type 0 where
  pub db : Database F
  pub resolved : List (Resolved F)
  pub dead_letters : List ℕ

abbrev pub dead_letter_after_hours : ℕ
dead_letter_after_hours = 6

abbrev pub dead_letter_reason : String
dead_letter_reason = "Unresolved after 6h"

-- `by_market.setdefault(mid, []).append(trade)`, for the trades that have a market.
module _ {F : Type 0} where
  unfoldable pub group :
      List (Trade F) → Dict String (List (Trade F)) → Dict String (List (Trade F))
  group [] groups = groups
  group (t ∷ ts) groups = group ts (elim t.market_id [
    | none ↦ groups
    | some m ↦ if m == "" then groups else elim (lookup m groups) [
      | none ↦ insert m (t ∷ []) groups
      | some old ↦ insert m (old ++ (t ∷ [])) groups
    ]
  ])

unfoldable pub bet_won : Signal → String → Bool
bet_won signal resolution =
    let yes_won = resolution == "1" in
    let bet_on_yes = is_yes signal in yes_won && bet_on_yes || (not yes_won && not bet_on_yes)

module _ {F : Type 0} ⦃num : Number F⦄ where
  open num use {dec, le}

  -- "1" for Up, "0" for Down, by the prices of the two outcomes.
  unfoldable pub by_prices : List F → Option String
  by_prices (up ∷ down ∷ more) =
      if le (dec 99 2) up then some "1" else if le (dec 99 2) down then some "0" else none
  by_prices _ = none

module _ {F V : Type 0} ⦃num : Number F⦄ where
  -- The list that `outcomePrices` holds, as a value or as the text of one.
  unfoldable pub parsed : Json F V → V → Option V
  parsed json raw = elim (json.as_text raw) [ none ↦ some raw | some s ↦ json.loads s ]

  unfoldable pub infer_resolution : Json F V → Market V → Option String
  unfolding by_prices parsed
  infer_resolution json market = elim market.resolution [
    | some r ↦ some r
    | none ↦
        if market.closed
        then elim (parsed json market.outcome_prices) [
          | none ↦ none
          | some raw ↦ elim (json.floats raw) [ none ↦ none | some prices ↦ by_prices prices ]
        ]
        else none
  ]

module _ {F : Type 0} ⦃num : Number F⦄ where
  open num use {sub, mul, neg}

  unfoldable pub calculate_pnl : F → Signal → F → F → String → Outcome × F
  unfolding bet_won
  calculate_pnl taker_fee_pct signal entry_price bet_size resolution =
      let gross_profit = mul (sub one_f entry_price) bet_size in
      let fee = mul gross_profit taker_fee_pct in
      if bet_won signal resolution
      then (Outcome.win, sub gross_profit fee)
      else (Outcome.loss, mul (neg entry_price) bet_size)

  -- The body of the inner loop, for one trade of a resolved market.
  unfoldable pub settle : F → (ℕ → ℕ) → String → String → Trade F → State F → State F
  settle fee clock market_id resolution t s =
      let (outcome, pnl) = calculate_pnl fee t.signal t.entry_price t.bet_size resolution in
      record s {
        db = resolve_trade (clock t.id) t.id outcome pnl s.db;
        resolved =
            s.resolved
            ++ (record {
              trade_id = t.id;
              strategy = t.strategy;
              asset = t.asset;
              outcome = outcome;
              pnl = pnl;
              signal = t.signal;
              entry_price = t.entry_price;
              bet_size = t.bet_size;
              market_id = market_id;
            }
                ∷ []);
      }

  unfoldable pub settle_all : F → (ℕ → ℕ) → String → String → List (Trade F) → State F → State F
  settle_all fee clock market_id resolution [] s = s
  settle_all fee clock market_id resolution (t ∷ ts) s =
      settle_all fee clock market_id resolution ts (settle fee clock market_id resolution t s)

  -- The trades of one market, by its resolution: `continue` where there is none.
  unfoldable pub settle_market :
      F → (ℕ → ℕ) → String → List (Trade F) → Option String → State F → State F
  unfolding settle_all
  settle_market fee clock m ts none s = s
  settle_market fee clock m ts (some r) s = settle_all fee clock m r ts s

  -- The loop over the markets; `resolution_of` fetches a market and infers its resolution.
  unfoldable pub settle_markets :
      F → (ℕ → ℕ) → (String → Option String) → Dict String (List (Trade F)) → State F → State F
  unfolding settle_market
  settle_markets fee clock resolution_of [] s = s
  settle_markets fee clock resolution_of ((m, ts) ∷ groups) s =
      settle_markets fee clock resolution_of groups
        (settle_market fee clock m ts (resolution_of m) s)

  unfoldable pub queue_stale : List (Trade F) → State F → State F
  queue_stale [] s = s
  queue_stale (t ∷ ts) s = queue_stale ts (record s {
    db = move_to_dead_letter t.id dead_letter_reason s.db;
    dead_letters = s.dead_letters ++ (t.id ∷ []);
  })

  unfoldable pub dlq_cycle : ℕ → State F → State F
  unfolding queue_stale
  dlq_cycle now s = queue_stale (get_stale_open_trades now dead_letter_after_hours s.db) s

module _ {F V : Type 0} ⦃num : Number F⦄ where
  -- `_fetch_market` is `fetch`, `none` for a failed request.
  abbrev pub resolution_of : Json F V → (String → Option (Market V)) → String → Option String
  resolution_of json fetch m = elim (fetch m) [
    | none ↦ none
    | some market ↦ infer_resolution json market
  ]

  unfoldable pub resolve_cycle :
      Json F V → F → (ℕ → ℕ) → (String → Option (Market V)) → State F → State F
  unfolding group settle_markets
  resolve_cycle json fee clock fetch s =
      settle_markets fee clock (resolution_of json fetch)
        (group (get_open_trades none none s.db) []) s
