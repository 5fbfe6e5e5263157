-- ===== src/Execution/Resolver/Settled.antt =====
-- execution/resolver.py: the cycle settles the trades that it should, and no other.
use mathlib.Core.List.Permᴰ.{Permᴰ}
use poly_market_prediction_b.Base.{
  ℕ, String, true, false, ◌≡◌, inl, inr, refl, ap, ◌∙◌, Option, List, [], ◌∷◌, string_eq, nat_eq,
  ◌&&◌, arith, any, All, All-imp, Bool-cases, map, select,
}
use poly_market_prediction_b.Base.Tables.{Distinct}
use poly_market_prediction_b.Number.{Number}
use poly_market_prediction_b.Storage.{Trade, has_id, is_open}
use poly_market_prediction_b.Storage.Trades.{get_open_trades}
use poly_market_prediction_b.Storage.Invariant.{same_trade}
use poly_market_prediction_b.Execution.Resolver.{
  State, group, resolve_cycle, resolution_of, Market, Json,
}
use poly_market_prediction_b.Execution.Resolver.Groups.{
  has_market, found, found-group, Grouped-group,
}
use poly_market_prediction_b.Execution.Resolver.Once.{
  is_due, settle_each, settle_markets-settle_each,
}
use poly_market_prediction_b.Execution.Resolver.Cycle.{
  settled_by, touch, touch_none, touch-settled_by, settle_markets_trades, Sole, Known,
}

module _ {F : Type 0} ⦃num : Number F⦄ (fee : F) where
  abbrev opens : List (Trade F) → List (Trade F)
  opens = select (λ t. is_open t && (true && true))

  opens-Known :
      (u : Trade F) (ts : List (Trade F))
      → All (λ t. Sole fee u t) ts
      → All (λ t. Known fee u t) (opens ts)
  opens-Known u [] h = tt
  opens-Known u (t ∷ ts) (s, h) = elim (Bool-cases (is_open t)) [
    | inl e ↦ rw e ((s, e), opens-Known u ts h)
    | inr e ↦ rw e (opens-Known u ts h)
  ]

  -- An open trade with a market is among those that are grouped.
  opens-any :
      (u : Trade F) (ts : List (Trade F))
      → All (λ t. Sole fee u t) ts
      → any (has_id u.id) ts ≡ true
      → (is_open u && has_market u) ≡ true
      → any (λ t. has_id u.id t && has_market t) (opens ts) ≡ true
  opens-any u [] h a o = absurd (ground arith)
  opens-any u (t ∷ ts) (inl other, h) a o = ground (arith, opens-any u ts h)
  opens-any u (t ∷ ts) (inr same, h) a o =
      let op : is_open t ≡ true = ap is_open same ∙ ground arith in
      let ma : has_market t ≡ true = ap has_market same ∙ ground arith in
      let id : has_id u.id t ≡ true = ap (has_id u.id) same ∙ ground arith in rw op (ground arith)

  touch-eq-settled_by :
      (res : String → Option String) (u : Trade F) (ts : List (Trade F))
      → All (λ t. Sole fee u t) ts
      → any (has_id u.id) ts ≡ true
      → touch fee res (group (opens ts) []) u ≡ settled_by fee res u
  unfolding settled_by
  touch-eq-settled_by res u ts h a =
      let grouped = Grouped-group (Known fee u) (opens ts) [] (opens-Known u ts h) tt in
      elim (Bool-cases (found u.id (group (opens ts) []))) [
        | inl e ↦ touch-settled_by fee res u u (group (opens ts) []) grouped (inr (refl, e))
        | inr e ↦
            let same = touch_none fee res u u (group (opens ts) []) refl e in
            ground (arith, same, opens-any u ts h a, found-group u.id (opens ts) [])
      ]

  any-false :
      (i : ℕ) (ts : List (Trade F)) → any (has_id i) ts ≡ false → All (λ t. has_id i t ≡ false) ts
  any-false i [] h = tt
  any-false i (t ∷ ts) h = (ground arith, any-false i ts (ground arith))

  abbrev Alone : List (Trade F) → Trade F → Type 0
  Alone ts u = All (λ t. Sole fee u t) ts × (any (has_id u.id) ts ≡ true)

  extend :
      (t : Trade F) (ts us : List (Trade F))
      → All (λ u. has_id t.id u ≡ false) us
      → All (Alone ts) us
      → All (Alone (t ∷ ts)) us
  extend t ts [] h k = tt
  extend t ts (u ∷ us) (other, h) ((s, a), k) =
      (((inl (ground arith), s), ground arith), extend t ts us h k)

  -- The trades of a table in which no id stands twice.
  Distinct-Alone : (ts : List (Trade F)) → Distinct same_trade ts → All (Alone ts) ts
  Distinct-Alone [] h = tt
  Distinct-Alone (t ∷ ts) (h, hs) =
      let others = any-false t.id ts h in
      (
        (
          (
            inr refl,
            All-imp (λ u. has_id t.id u ≡ false) (λ u. Sole fee t u) (λ u e. inl e) ts others,
          ),
          ground arith,
        ),
        extend t ts ts others (Distinct-Alone ts hs),
      )

  map-All :
      (f g : Trade F → Trade F) (ts : List (Trade F))
      → All (λ u. f u ≡ g u) ts
      → map f ts ≡ map g ts
  map-All f g [] h = refl
  map-All f g (t ∷ ts) (e, h) = cc (e, map-All f g ts h)

  -- Where no id stands twice among the trades, a cycle settles each open trade whose market has a
  -- resolution by then, with the outcome and P&L of that resolution, and leaves every other trade as
  -- it is. The state that it leaves is that of settling those trades one after the other, in some
  -- order, each once: its outcome and P&L go to the database, and one event tells of them.
  pub resolve_cycle-settled_by :
      {V : Type 0} (json : Json F V) (clock : ℕ → ℕ) (fetch : String → Option (Market V))
      (s : State F)
      → Distinct same_trade s.db.trades
      → let res = resolution_of json fetch in
        ((resolve_cycle json fee clock fetch s).db.trades ≡ map (settled_by fee res) s.db.trades)
        × (order : List (Trade F)) × Permᴰ order (select (is_due fee clock res) s.db.trades)
        × (resolve_cycle json fee clock fetch s ≡ settle_each fee clock res order s)
  unfolding resolve_cycle get_open_trades
  resolve_cycle-settled_by json clock fetch s h =
      let res = resolution_of json fetch in
      let ts = s.db.trades in
      let rows =
        settle_markets_trades fee clock res (group (opens ts) []) s
        ∙ map-All (touch fee res (group (opens ts) [])) (settled_by fee res) ts (
            All-imp (Alone ts) (λ u. touch fee res (group (opens ts) []) u ≡ settled_by fee res u)
              (λ u p. touch-eq-settled_by res u ts p.0 p.1) ts (Distinct-Alone ts h)) in
      let (order, perm, same) = settle_markets-settle_each fee clock res s in
      (rows, order, perm, same)
