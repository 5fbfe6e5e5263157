-- ===== src/Feeds/Binance/Trades.antt =====
-- feeds/binance_ws.py: the cumulative volume delta after any messages.
use poly_market_prediction_b.Base.{
  append_nil, append_snoc, ℕ, ◌≤◌, Bool, ◌≡◌, refl, ap, ◌∙◌, List, [], ◌∷◌, ◌++◌, select, All,
  All-append, All-imp, arith,
}
use poly_market_prediction_b.Number.{Number}
use poly_market_prediction_b.Feeds.Binance.{
  AssetFeed, AssetState, Message, agg_trade, mark_price, force_order, book_ticker, open_interest,
  long_short_ratio, trim, net, sum_window, empty_feed, handle_agg_trade, handle_mark_price,
  handle_book_ticker, handle_force_order, poll_open_interest, poll_long_short, handle, set_oldest,
}
use poly_market_prediction_b.Feeds.Binance.Window.{IsTimed, is_recent, snoc-IsTimed, trim-snoc}

-- The times do not go back, from a first one on.
abbrev pub IsAscending : {F : Type 0} → ℕ → List (ℕ × Message F) → Type 0
IsAscending last [] = Unit
IsAscending last ((t, m) ∷ es) = (last ≤ t) × IsAscending t es

-- The time of the last trade.
abbrev pub last_trade : {F : Type 0} → ℕ → List (ℕ × Message F) → ℕ
last_trade last [] = last
last_trade last ((t, agg_trade p q m) ∷ es) = last_trade t es
last_trade last ((t, _) ∷ es) = last_trade last es

module _ {F : Type 0} ⦃num : Number F⦄ where
  unfoldable pub handle_all : List (ℕ × Message F) → AssetFeed F → AssetFeed F
  unfolding handle
  handle_all [] feed = feed
  handle_all ((t, m) ∷ es) feed = handle_all es (handle t m feed)

  -- The signed volumes of all trades.
  abbrev pub nets : List (ℕ × Message F) → List (ℕ × F)
  nets [] = []
  nets ((t, agg_trade p q m) ∷ es) = (t, net p q m) ∷ nets es
  nets ((t, _) ∷ es) = nets es

  -- The window holds what was recent at the last trade, and the delta is its sum.
  abbrev Holds : ℕ → List (ℕ × F) → AssetFeed F → Type 0
  Holds last history feed =
      (feed.trade ≡ select (is_recent last) history)
      × (feed.state.cvd_2min ≡ sum_window (select (is_recent last) history))

  -- What the history is by some time.
  abbrev IsPast : ℕ → List (ℕ × F) → Type 0
  IsPast clock history = IsTimed history × All (λ (e : ℕ × F). e.0 ≤ clock) history

  IsPast-later :
      (clock t : ℕ) (history : List (ℕ × F)) → clock ≤ t → IsPast clock history → IsPast t history
  IsPast-later clock t history h (timed, before) =
      (timed, All-imp (λ e. e.0 ≤ clock) (λ e. e.0 ≤ t) (λ e k. omega arith) history before)

  IsPast-snoc :
      (t : ℕ) (x : F) (history : List (ℕ × F))
      → IsPast t history
      → IsPast t (history ++ ((t, x) ∷ []))
  IsPast-snoc t x history (timed, before) = (
    snoc-IsTimed history t x timed before,
    All-append (λ e. e.0 ≤ t) history ((t, x) ∷ []) before (omega arith, tt),
  )

  set_oldest-cvd_2min :
      (price : F) (prices : List (ℕ × F)) (s : AssetState F)
      → (set_oldest price prices s).cvd_2min ≡ s.cvd_2min
  set_oldest-cvd_2min price [] s = refl
  set_oldest-cvd_2min price (e ∷ prices) s = refl

  handle_agg_trade-Holds :
      (last t : ℕ) (p q : F) (m : Bool) (history : List (ℕ × F)) (feed : AssetFeed F)
      → last ≤ t
      → IsPast t history
      → Holds last history feed
      → Holds t (history ++ ((t, net p q m) ∷ [])) (handle_agg_trade t p q m feed)
  unfolding handle_agg_trade
  handle_agg_trade-Holds last t p q m history feed h (timed, before) (w, c) =
      let x = net p q m in
      let window : trim t (feed.trade ++ ((t, x) ∷ []))
          ≡ select (is_recent t) (history ++ ((t, x) ∷ [])) =
        ap (λ es. trim t (es ++ ((t, x) ∷ []))) w ∙ trim-snoc last t history x h timed before in
      (
        window,
        set_oldest-cvd_2min p (trim t (feed.price ++ ((t, p) ∷ []))) _ ∙ ap sum_window window,
      )

  handle_all-Holds :
      (es : List (ℕ × Message F)) (last clock : ℕ) (history : List (ℕ × F)) (feed : AssetFeed F)
      → last ≤ clock
      → IsAscending clock es
      → IsPast clock history
      → Holds last history feed
      → Holds (last_trade last es) (history ++ nets es) (handle_all es feed)
  unfolding handle_all handle handle_mark_price handle_book_ticker handle_force_order
      poll_open_interest poll_long_short
  handle_all-Holds [] last clock history feed h asc past holds = rw (append_nil history) holds
  handle_all-Holds ((t, agg_trade p q m) ∷ es) last clock history feed h (k, asc) past holds =
      let past' = IsPast-later clock t history k past in
      rw (← append_snoc history (t, net p q m) (nets es)) (
        handle_all-Holds es t t (history ++ ((t, net p q m) ∷ [])) (handle_agg_trade t p q m feed)
          (omega arith) asc (IsPast-snoc t (net p q m) history past')
          (handle_agg_trade-Holds last t p q m history feed (omega arith) past' holds))
  handle_all-Holds ((t, mark_price r) ∷ es) last clock history feed h (k, asc) past holds =
      handle_all-Holds es last t history _ (omega arith) asc (IsPast-later clock t history k past)
        holds
  handle_all-Holds ((t, force_order s p q) ∷ es) last clock history feed h (k, asc) past holds =
      handle_all-Holds es last t history _ (omega arith) asc (IsPast-later clock t history k past)
        holds
  handle_all-Holds ((t, book_ticker a b c d) ∷ es) last clock history feed h (k, asc) past holds =
      handle_all-Holds es last t history _ (omega arith) asc (IsPast-later clock t history k past)
        holds
  handle_all-Holds ((t, open_interest x) ∷ es) last clock history feed h (k, asc) past holds =
      handle_all-Holds es last t history _ (omega arith) asc (IsPast-later clock t history k past)
        holds
  handle_all-Holds ((t, long_short_ratio x) ∷ es) last clock history feed h (k, asc) past holds =
      handle_all-Holds es last t history _ (omega arith) asc (IsPast-later clock t history k past)
        holds

  -- After any messages for an asset at times that do not go back: the window of the trades holds the
  -- trades of the 120 seconds up to the last one, and the volume delta is the sum of their signed
  -- volumes.
  pub handle_all-cvd :
      (es : List (ℕ × Message F))
      → IsAscending 0 es
      → let feed = handle_all es empty_feed in
        let recent = select (is_recent (last_trade 0 es)) (nets es) in
        (feed.trade ≡ recent) × (feed.state.cvd_2min ≡ sum_window recent)
  handle_all-cvd es asc =
      handle_all-Holds es 0 0 [] empty_feed (omega arith) asc (tt, tt) (refl, refl)
