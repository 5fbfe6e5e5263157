-- ===== src/Feeds/Binance.antt =====
-- feeds/binance_ws.py (`BinanceFeed`): the windows and the state of the assets, under the messages of
-- the streams, the answers of the REST interface, and the connections. A message is taken after its
-- numbers are read; `connected` and `disconnected` are the two ends of `_ws_loop`. Times are
-- microseconds. The backoff, a whole number of seconds, is a natural number.
pub mod Window
pub mod Trades
pub mod Backoff
use mathlib.Core.List.{foldl}
use poly_market_prediction_b.Base.{
  ℕ, ◌+◌, ◌-◌, String, Bool, false, ◌&&◌, none, some, List, [], ◌∷◌, ◌++◌, ◌==◌, map, select,
  if◌then◌else◌, ltb, string_eq,
}
use poly_market_prediction_b.Base.Dict.{Dict, lookup, insert}
use poly_market_prediction_b.Core.Types.{FeedSnapshot}
use poly_market_prediction_b.Number.{Number, zero_f, one_f}

-- `WINDOW_SECS`
abbrev pub window_secs : ℕ
window_secs = 120_000_000

abbrev pub followed_assets : List String
followed_assets = "BTC" ∷ "ETH" ∷ "SOL" ∷ []

pub record AssetState (F : Type 0) : Type 0 where
  pub last_price : F
  pub price_2min_ago : F
  pub vwap_change : F
  pub cvd_2min : F
  pub funding_rate : F
  pub liq_long_2min : F
  pub liq_short_2min : F
  pub bid : F
  pub ask : F
  pub book_imbalance : F
  pub open_interest : F
  pub long_short_ratio : F
  pub last_update : ℕ
  pub connected : Bool

-- The side and the size in dollars.
pub record Liquidation (F : Type 0) : Type 0 where
  pub side : String
  pub size : F

-- The deques of an asset, and its state.
pub record AssetFeed (F : Type 0) : Type 0 where
  pub state : AssetState F
  pub trade : List (ℕ × F)
  pub price : List (ℕ × F)
  pub liq : List (ℕ × Liquidation F)

pub data Message (F : Type 0) : Type 0 where
  agg_trade : F → F → Bool → Message F
  mark_price : F → Message F
  force_order : String → F → F → Message F
  book_ticker : F → F → F → F → Message F
  open_interest : F → Message F
  long_short_ratio : F → Message F

abbrev pub BinanceFeed : Type 0 → Type 0
BinanceFeed F = Dict String (AssetFeed F)

-- `_trim`
abbrev pub is_past : ℕ → ℕ → Bool
is_past now t = ltb window_secs (now - t)

unfoldable pub trim : {X : Type 0} → ℕ → List (ℕ × X) → List (ℕ × X)
trim now [] = []
trim now ((t, x) ∷ window) =
    let rest = trim now window in if is_past now t then rest else (t, x) ∷ window

module _ {F : Type 0} ⦃num : Number F⦄ where
  open num use {dec, add, sub, mul, div, neg, lt, eq}

  abbrev pub empty_state : AssetState F
  empty_state = record {
    last_price = zero_f;
    price_2min_ago = zero_f;
    vwap_change = zero_f;
    cvd_2min = zero_f;
    funding_rate = zero_f;
    liq_long_2min = zero_f;
    liq_short_2min = zero_f;
    bid = zero_f;
    ask = zero_f;
    book_imbalance = zero_f;
    open_interest = zero_f;
    long_short_ratio = zero_f;
    last_update = 0;
    connected = false;
  }

  abbrev pub empty_feed : AssetFeed F
  empty_feed = record { state = empty_state; trade = []; price = []; liq = [] }

  -- `sum(v for _, v in window)`
  abbrev pub sum_window : List (ℕ × F) → F
  sum_window window = foldl (λ acc e. add acc e.1) zero_f window

  -- The volume of a trade, negative where the buyer is the maker.
  abbrev pub net : F → F → Bool → F
  net price qty is_maker = if is_maker then neg (mul price qty) else mul price qty

  -- What the oldest price of the window sets.
  abbrev pub set_oldest : F → List (ℕ × F) → AssetState F → AssetState F
  set_oldest price [] s = s
  set_oldest price ((t, oldest) ∷ window) s = record s {
    price_2min_ago = oldest;
    vwap_change = (if lt zero_f oldest then div (sub price oldest) oldest else s.vwap_change);
  }

  unfoldable pub handle_agg_trade : ℕ → F → F → Bool → AssetFeed F → AssetFeed F
  unfolding trim
  handle_agg_trade now price qty is_maker feed =
      let trades = trim now (feed.trade ++ ((now, net price qty is_maker) ∷ [])) in
      let prices = trim now (feed.price ++ ((now, price) ∷ [])) in
      let s = record feed.state { last_price = price; cvd_2min = sum_window trades } in
      record feed {
        trade = trades;
        price = prices;
        state = record (set_oldest price prices s) { last_update = now };
      }

  unfoldable pub handle_mark_price : F → AssetFeed F → AssetFeed F
  handle_mark_price rate feed = record feed { state = record feed.state { funding_rate = rate } }

  unfoldable pub handle_book_ticker : F → F → F → F → AssetFeed F → AssetFeed F
  handle_book_ticker bid ask bid_qty ask_qty feed =
      let total = add bid_qty ask_qty in
      record feed {
        state = record feed.state {
          bid = bid;
          ask = ask;
          book_imbalance = (if lt zero_f total then div (sub bid_qty ask_qty) total else zero_f);
        };
      }

  -- The sum of the sizes of one side.
  abbrev pub sum_side : String → List (ℕ × Liquidation F) → F
  sum_side side window =
      foldl (λ acc e. add acc e.1.size) zero_f (select (λ e. e.1.side == side) window)

  unfoldable pub handle_force_order : ℕ → String → F → F → AssetFeed F → AssetFeed F
  unfolding trim
  handle_force_order now side avg_price qty feed =
      let entry : Liquidation F = record { side = side; size = mul avg_price qty } in
      let window = trim now (feed.liq ++ ((now, entry) ∷ [])) in
      record feed {
        liq = window;
        state = record feed.state {
          liq_short_2min = sum_side "BUY" window;
          liq_long_2min = sum_side "SELL" window;
        };
      }

  -- `oi * (last_price or 1)`
  unfoldable pub poll_open_interest : F → AssetFeed F → AssetFeed F
  poll_open_interest oi feed =
      let price = if eq feed.state.last_price zero_f then one_f else feed.state.last_price in
      record feed { state = record feed.state { open_interest = mul oi price } }

  unfoldable pub poll_long_short : F → AssetFeed F → AssetFeed F
  poll_long_short ratio feed = record feed {
    state = record feed.state { long_short_ratio = ratio };
  }

  unfoldable pub handle : ℕ → Message F → AssetFeed F → AssetFeed F
  handle now (agg_trade price qty is_maker) feed = handle_agg_trade now price qty is_maker feed
  handle now (mark_price rate) feed = handle_mark_price rate feed
  handle now (force_order side avg_price qty) feed = handle_force_order now side avg_price qty feed
  handle now (book_ticker bid ask bid_qty ask_qty) feed =
      handle_book_ticker bid ask bid_qty ask_qty feed
  handle now (open_interest oi) feed = poll_open_interest oi feed
  handle now (long_short_ratio ratio) feed = poll_long_short ratio feed

  abbrev pub new_feed : BinanceFeed F
  new_feed = map (λ a. (a, empty_feed)) followed_assets

  -- A message for an asset; one for an unknown symbol is passed over.
  unfoldable pub receive : ℕ → String → Message F → BinanceFeed F → BinanceFeed F
  receive now asset message feeds = elim (lookup asset feeds) [
    | none ↦ feeds
    | some feed ↦ insert asset (handle now message feed) feeds
  ]

  -- `s["connected"] = value` for all states.
  unfoldable pub set_connected : Bool → BinanceFeed F → BinanceFeed F
  set_connected value feeds =
      map (λ (a, feed). (a, record feed { state = record feed.state { connected = value } })) feeds

  unfoldable pub is_healthy : ℕ → String → BinanceFeed F → Bool
  is_healthy now asset feeds = elim (lookup asset feeds) [
    | none ↦ false
    | some feed ↦ feed.state.connected && ltb (now - feed.state.last_update) 30_000_000
  ]

  abbrev pub snapshot_of : AssetState F → FeedSnapshot F
  snapshot_of s = record {
    last_price = s.last_price;
    price_2min_ago = s.price_2min_ago;
    vwap_change = s.vwap_change;
    cvd_2min = s.cvd_2min;
    funding_rate = s.funding_rate;
    liq_long_2min = s.liq_long_2min;
    liq_short_2min = s.liq_short_2min;
    bid = s.bid;
    ask = s.ask;
    book_imbalance = s.book_imbalance;
    open_interest = s.open_interest;
    long_short_ratio = s.long_short_ratio;
    connected = s.connected;
    last_update = dec s.last_update 6;
  }

  unfoldable pub get_snapshot : String → BinanceFeed F → FeedSnapshot F
  get_snapshot asset feeds = elim (lookup asset feeds) [
    | none ↦ snapshot_of empty_state
    | some feed ↦ snapshot_of feed.state
  ]
