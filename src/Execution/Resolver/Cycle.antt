-- ===== src/Execution/Resolver/Cycle.antt =====
-- execution/resolver.py: a whole cycle, against what it means for each trade.
use mathlib.Core.List.{map-map, map-id}
use poly_market_prediction_b.Base.{
  ℕ, String, Bool, true, false, ◌≡◌, ◌⊎◌, inl, inr, refl, sym, ap, ◌∙◌, Option, none, some, List,
  [], ◌∷◌, ◌==◌, string_eq, nat_eq, ◌&&◌, if◌then◌else◌, arith, any, All, All-imp, Option-cases,
  Bool-cases, map,
}
use poly_market_prediction_b.Base.Tables.{update_where, fetch_one}
use poly_market_prediction_b.Base.Dict.{Dict}
use poly_market_prediction_b.Number.{Number}
use poly_market_prediction_b.Storage.{Trade, has_id, is_open}
use poly_market_prediction_b.Storage.Trades.{set_outcome, resolve_trade}
use poly_market_prediction_b.Execution.Resolver.{
  State, settle, settle_all, settle_market, settle_markets,
}
use poly_market_prediction_b.Execution.Resolver.Payoff.{payoff, calculate_pnl-payoff}
use poly_market_prediction_b.Execution.Resolver.Groups.{has_market, found, Under, Grouped}

module _ {F : Type 0} ⦃num : Number F⦄ (fee : F) where
  -- A trade that is settled with the resolution `r`.
  abbrev pub settled_with : String → Trade F → Trade F
  settled_with r u =
      let (outcome, pnl) = payoff fee u.signal u.entry_price u.bet_size r in
      set_outcome outcome pnl u

  -- What a cycle means for a trade: one that is open, and whose market has a resolution, is settled
  -- with it; any other stays.
  unfoldable pub settled_by : (String → Option String) → Trade F → Trade F
  settled_by resolution_of u =
      if is_open u && has_market u
      then elim u.market_id [
        | none ↦ u
        | some m ↦ elim (resolution_of m) [ none ↦ u | some r ↦ settled_with r u ]
      ]
      else u

  -- What the loops do to one row of the table.
  abbrev touch_trade : String → Trade F → Trade F → Trade F
  touch_trade r t u =
      let (outcome, pnl) = payoff fee t.signal t.entry_price t.bet_size r in
      if has_id t.id u then set_outcome outcome pnl u else u

  touch_all : String → List (Trade F) → Trade F → Trade F
  touch_all r [] u = u
  touch_all r (t ∷ ts) u = touch_all r ts (touch_trade r t u)

  touch_market : Option String → List (Trade F) → Trade F → Trade F
  unfolding touch_all
  touch_market none ts u = u
  touch_market (some r) ts u = touch_all r ts u

  pub touch : (String → Option String) → Dict String (List (Trade F)) → Trade F → Trade F
  unfolding touch_market
  touch resolution_of [] u = u
  touch resolution_of ((m, ts) ∷ groups) u =
      touch resolution_of groups (touch_market (resolution_of m) ts u)

  update_where-map :
      (p : Trade F → Bool) (f : Trade F → Trade F) (xs : List (Trade F))
      → update_where p f xs ≡ map (λ x. if p x then f x else x) xs
  update_where-map p f [] = refl
  update_where-map p f (x ∷ xs) = ap (λ l. (if p x then f x else x) ∷ l) (update_where-map p f xs)

  update_where-none :
      (p : Trade F → Bool) (f : Trade F → Trade F) (xs : List (Trade F))
      → fetch_one p xs ≡ none
      → update_where p f xs ≡ xs
  update_where-none p f [] h = refl
  update_where-none p f (x ∷ xs) h = ground (arith, update_where-none p f xs)

  settle_trades :
      (clock : ℕ → ℕ) (m r : String) (t : Trade F) (s : State F)
      → (settle fee clock m r t s).db.trades ≡ map (touch_trade r t) s.db.trades
  unfolding settle resolve_trade
  settle_trades clock m r t s =
      let (outcome, pnl) = payoff fee t.signal t.entry_price t.bet_size r in
      let paid = calculate_pnl-payoff fee t.signal t.entry_price t.bet_size r in
      elim (Option-cases (fetch_one (has_id t.id) s.db.trades)) [
        | inl e ↦ ground (
          arith,
          paid,
          update_where-none (has_id t.id) (set_outcome outcome pnl) s.db.trades e,
          update_where-map (has_id t.id) (set_outcome outcome pnl) s.db.trades,
        )
        | inr (u, e) ↦
            ground
              (arith, paid, update_where-map (has_id t.id) (set_outcome outcome pnl) s.db.trades)
      ]

  settle_all_trades :
      (clock : ℕ → ℕ) (m r : String) (ts : List (Trade F)) (s : State F)
      → (settle_all fee clock m r ts s).db.trades ≡ map (touch_all r ts) s.db.trades
  unfolding settle_all touch_all
  settle_all_trades clock m r [] s = sym (map-id s.db.trades)
  settle_all_trades clock m r (t ∷ ts) s =
      settle_all_trades clock m r ts (settle fee clock m r t s)
      ∙ ap (map (touch_all r ts)) (settle_trades clock m r t s)
      ∙ map-map (touch_all r ts) (touch_trade r t) s.db.trades

  settle_market_trades :
      (clock : ℕ → ℕ) (m : String) (ts : List (Trade F)) (o : Option String) (s : State F)
      → (settle_market fee clock m ts o s).db.trades ≡ map (touch_market o ts) s.db.trades
  unfolding settle_market touch_market
  settle_market_trades clock m ts none s = sym (map-id s.db.trades)
  settle_market_trades clock m ts (some r) s = settle_all_trades clock m r ts s

  pub settle_markets_trades :
      (clock : ℕ → ℕ) (resolution_of : String → Option String)
      (groups : Dict String (List (Trade F))) (s : State F)
      → (settle_markets fee clock resolution_of groups s).db.trades
        ≡ map (touch resolution_of groups) s.db.trades
  unfolding settle_markets touch
  settle_markets_trades clock resolution_of [] s = sym (map-id s.db.trades)
  settle_markets_trades clock resolution_of ((m, ts) ∷ groups) s =
      let o = resolution_of m in
      settle_markets_trades clock resolution_of groups (settle_market fee clock m ts o s)
      ∙ ap (map (touch resolution_of groups)) (settle_market_trades clock m ts o s)
      ∙ map-map (touch resolution_of groups) (touch_market o ts) s.db.trades

  -- The only trade of its id.
  abbrev pub Sole : Trade F → Trade F → Type 0
  Sole u t = (has_id u.id t ≡ false) ⊎ (t ≡ u)

  touch_all_none :
      (r : String) (u x : Trade F) (ts : List (Trade F))
      → x.id ≡ u.id
      → any (has_id u.id) ts ≡ false
      → touch_all r ts x ≡ x
  unfolding touch_all
  touch_all_none r u x [] e h = refl
  touch_all_none r u x (t ∷ ts) e h =
      let same : touch_trade r t x ≡ x = ground arith in
      ap (touch_all r ts) same ∙ touch_all_none r u x ts e (ground arith)

  xid_of :
      (r : String) (u x : Trade F) (B : Type 0)
      → (x ≡ settled_with r u) ⊎ ((x ≡ u) × B)
      → x.id ≡ u.id
  xid_of r u x B (inl e) = ap (λ (t : Trade F). t.id) e
  xid_of r u x B (inr (e, _)) = ap (λ (t : Trade F). t.id) e

  touch_own :
      (r : String) (u x : Trade F) (B : Type 0)
      → (x ≡ settled_with r u) ⊎ ((x ≡ u) × B)
      → touch_trade r u x ≡ settled_with r u
  touch_own r u x B (inl e) = ap (touch_trade r u) e ∙ ground arith
  touch_own r u x B (inr (e, _)) = ap (touch_trade r u) e ∙ ground arith

  touch_all_settled :
      (r : String) (u x : Trade F) (ts : List (Trade F))
      → All (λ t. Sole u t) ts
      → (x ≡ settled_with r u) ⊎ ((x ≡ u) × (any (has_id u.id) ts ≡ true))
      → touch_all r ts x ≡ settled_with r u
  unfolding touch_all
  touch_all_settled r u x [] h k = ground arith
  touch_all_settled r u x (t ∷ ts) (sole, h) k = elim sole [
    | inl other ↦
        let xid : x.id ≡ u.id = xid_of r u x _ k in
        let same : touch_trade r t x ≡ x = ground arith in
        ap (touch_all r ts) same ∙ touch_all_settled r u x ts h (ground arith)
    | inr e ↦
        let now : touch_trade r t x ≡ settled_with r u =
          ap (λ (v : Trade F). touch_trade r v x) e ∙ touch_own r u x _ k in
        touch_all_settled r u (touch_trade r t x) ts h (inl now)
  ]

  -- A group leaves a trade that is not in it.
  touch_market_none :
      (o : Option String) (u x : Trade F) (ts : List (Trade F))
      → x.id ≡ u.id
      → any (has_id u.id) ts ≡ false
      → touch_market o ts x ≡ x
  unfolding touch_market
  touch_market_none none u x ts e h = refl
  touch_market_none (some r) u x ts e h = touch_all_none r u x ts e h

  -- What is known of a trade in the groups, seen from the trade `u`.
  abbrev pub Known : Trade F → Trade F → Type 0
  Known u t = Sole u t × (is_open t ≡ true)

  -- A trade that is in a group is open, and of its market.
  in_group :
      (m : String) (u : Trade F) (ts : List (Trade F))
      → All (Under (Known u) m) ts
      → any (has_id u.id) ts ≡ true
      → (u.market_id ≡ some m) × ((m == "") ≡ false) × (is_open u ≡ true)
  in_group m u [] h k = absurd (ground arith)
  in_group m u (t ∷ ts) (((inl other, op), e, n), h) k = in_group m u ts h (ground arith)
  in_group m u (t ∷ ts) (((inr same, op), e, n), h) k =
      (sym (ap (λ (v : Trade F). v.market_id) same) ∙ e, n, sym (ap is_open same) ∙ op)

  -- In its group a trade becomes what the cycle means for it.
  touch_market_settled :
      (resolution_of : String → Option String) (m : String) (u x : Trade F) (ts : List (Trade F))
      → All (Under (Known u) m) ts
      → any (has_id u.id) ts ≡ true
      → (x ≡ settled_by resolution_of u) ⊎ (x ≡ u)
      → touch_market (resolution_of m) ts x ≡ settled_by resolution_of u
  unfolding settled_by touch_market
  touch_market_settled resolution_of m u x ts h a k =
      let (e, n, op) = in_group m u ts h a in
      elim (Option-cases (resolution_of m)) [
        | inl none_yet ↦ ground arith
        | inr (r, d) ↦
            let known = All-imp (Under (Known u) m) (Sole u) (λ t p. p.0.0) ts h in
            let start : (x ≡ settled_with r u) ⊎ ((x ≡ u) × (any (has_id u.id) ts ≡ true)) =
              ground arith in
            let done = touch_all_settled r u x ts known start in ground arith
      ]

  settled_by-id :
      (resolution_of : String → Option String) (u : Trade F)
      → (settled_by resolution_of u).id ≡ u.id
  unfolding settled_by
  settled_by-id resolution_of u = ground arith

  id_of :
      (resolution_of : String → Option String) (u x : Trade F)
      → (x ≡ settled_by resolution_of u) ⊎ (x ≡ u)
      → x.id ≡ u.id
  id_of resolution_of u x (inl e) = ap (λ (t : Trade F). t.id) e ∙ settled_by-id resolution_of u
  id_of resolution_of u x (inr e) = ap (λ (t : Trade F). t.id) e

  either : (x y u : Trade F) (B : Type 0) → (x ≡ y) ⊎ ((x ≡ u) × B) → (x ≡ y) ⊎ (x ≡ u)
  either x y u B (inl e) = inl e
  either x y u B (inr (e, _)) = inr e

  -- A trade that is alone with its id, as it is or settled already, and in some group.
  pub touch-settled_by :
      (resolution_of : String → Option String) (u x : Trade F)
      (groups : Dict String (List (Trade F)))
      → Grouped (Known u) groups
      → (x ≡ settled_by resolution_of u) ⊎ ((x ≡ u) × (found u.id groups ≡ true))
      → touch resolution_of groups x ≡ settled_by resolution_of u
  unfolding touch
  touch-settled_by resolution_of u x [] h k = ground arith
  touch-settled_by resolution_of u x ((m, ts) ∷ groups) (h, hs) k =
      let x' = touch_market (resolution_of m) ts x in
      elim (Bool-cases (any (has_id u.id) ts)) [
        | inl a ↦
            let done = touch_market_settled resolution_of m u x ts h a (either _ _ _ _ k) in
            touch-settled_by resolution_of u x' groups hs (inl done)
        | inr a ↦
            let same =
              touch_market_none (resolution_of m) u x ts
                (id_of resolution_of u x (either _ _ _ _ k)) a in
            ap (touch resolution_of groups) same
            ∙ touch-settled_by resolution_of u x groups hs (ground arith)
      ]

  -- The groups leave a trade that is in none of them.
  pub touch_none :
      (res : String → Option String) (u x : Trade F) (groups : Dict String (List (Trade F)))
      → x.id ≡ u.id
      → found u.id groups ≡ false
      → touch res groups x ≡ x
  unfolding touch
  touch_none res u x [] e h = refl
  touch_none res u x ((m, ts) ∷ groups) e h =
      ap (touch res groups) (touch_market_none (res m) u x ts e (ground arith))
      ∙ touch_none res u x groups e (ground arith)
