-- ===== src/Execution/Resolver/Once.antt =====
-- execution/resolver.py: the loops over the groups settle each of the grouped trades once.
use mathlib.Core.List.Permᴰ
use mathlib.Core.List.Permᴰ.{Permᴰ}
use mathlib.Core.Path.{subst}
use poly_market_prediction_b.Base.{
  ℕ, String, Bool, true, false, ◌≡◌, inl, inr, refl, sym, ap, ◌∙◌, Option, none, some, List, [],
  ◌∷◌, ◌++◌, ◌==◌, string_eq, ◌&&◌, arith, All, Option-cases, Bool-cases, select, is_some,
}
use poly_market_prediction_b.Base.Perms.{select-perm}
use poly_market_prediction_b.Base.Dict.{Dict, lookup, insert}
use poly_market_prediction_b.Number.{Number}
use poly_market_prediction_b.Storage.{Trade, is_open}
use poly_market_prediction_b.Storage.Trades.{resolve_trade}
use poly_market_prediction_b.Execution.Resolver.{
  State, Resolved, group, settle, settle_all, settle_market, settle_markets,
}
use poly_market_prediction_b.Execution.Resolver.Payoff.{payoff, calculate_pnl-payoff}
use poly_market_prediction_b.Execution.Resolver.Groups.{has_market, Under, Grouped, Grouped-group}

module _ {F : Type 0} where
  -- The resolution of the market of a trade, where it has a market, and the market a resolution.
  abbrev pub resolution_for : (String → Option String) → Trade F → Option String
  resolution_for res t = elim t.market_id [
    | none ↦ none
    | some m ↦ elim (m == "") [ true ↦ none | false ↦ res m ]
  ]

  All-Unit : (ts : List (Trade F)) → All {0, 0} (λ _. Unit) ts
  All-Unit [] = tt
  All-Unit (t ∷ ts) = (tt, All-Unit ts)

  -- The trades of all groups.
  flat : Dict String (List (Trade F)) → List (Trade F)
  flat [] = []
  flat ((m, ts) ∷ groups) = ts ++ flat groups

  flat-new :
      (m : String) (t : Trade F) (groups : Dict String (List (Trade F)))
      → lookup m groups ≡ none
      → Permᴰ (flat (insert m (t ∷ []) groups)) (t ∷ flat groups)
  unfolding flat
  flat-new m t [] h = Permᴰ.refl _
  flat-new m t ((j, ts) ∷ groups) h = elim (Bool-cases (m == j)) [
    | inl e ↦ absurd (ground arith)
    | inr e ↦ rw e (
        Permᴰ.trans (Permᴰ.append_left ts (flat-new m t groups (ground arith)))
          (Permᴰ.middle t ts (flat groups)))
  ]

  snoc-perm :
      (t : Trade F) (ts more : List (Trade F)) → Permᴰ ((ts ++ (t ∷ [])) ++ more) (t ∷ ts ++ more)
  snoc-perm t ts more =
      Permᴰ.append_right more
        (Permᴰ.trans (Permᴰ.middle t ts []) (Permᴰ.cons refl (Permᴰ.append-nil ts)))

  flat-old :
      (m : String) (t : Trade F) (old : List (Trade F)) (groups : Dict String (List (Trade F)))
      → lookup m groups ≡ some old
      → Permᴰ (flat (insert m (old ++ (t ∷ [])) groups)) (t ∷ flat groups)
  unfolding flat
  flat-old m t old [] h = absurd (ground arith)
  flat-old m t old ((j, ts) ∷ groups) h = elim (Bool-cases (m == j)) [
    | inl e ↦ let same : ts ≡ old = ground arith in rw e (rw same (snoc-perm t old (flat groups)))
    | inr e ↦ rw e (
        Permᴰ.trans (Permᴰ.append_left ts (flat-old m t old groups (ground arith)))
          (Permᴰ.middle t ts (flat groups)))
  ]

  -- The groups hold each trade that has a market as often as the list does.
  group-perm :
      (ts : List (Trade F)) (groups : Dict String (List (Trade F)))
      → Permᴰ (flat (group ts groups)) (select has_market ts ++ flat groups)
  unfolding group
  group-perm [] groups = Permᴰ.refl _
  group-perm (t ∷ ts) groups =
      let more = select has_market ts in
      let step : (gs : Dict String (List (Trade F)))
          → Permᴰ (flat gs) (t ∷ flat groups)
          → Permᴰ (flat (group ts gs)) (t ∷ more ++ flat groups) =
        λ gs p.
          Permᴰ.trans (group-perm ts gs)
            (Permᴰ.trans (Permᴰ.append_left more p) (Permᴰ.middle t more (flat groups))) in
      let goal : Dict String (List (Trade F)) → List (Trade F) → Type 0 =
        λ gs us. Permᴰ (flat gs) (us ++ flat groups) in
      let put : (gs : Dict String (List (Trade F))) (us : List (Trade F))
          → group (t ∷ ts) groups ≡ group ts gs
          → select has_market (t ∷ ts) ≡ us
          → goal (group ts gs) us
          → goal (group (t ∷ ts) groups) (select has_market (t ∷ ts)) =
        λ gs us e d p.
          subst (λ l. goal (group (t ∷ ts) groups) l) (sym d) (subst (λ g. goal g us) (sym e) p) in
      elim (Option-cases t.market_id) [
        | inl e ↦ put groups more (ground arith) (ground arith) (group-perm ts groups)
        | inr (m, e) ↦ elim (Bool-cases (m == "")) [
          | inl b ↦ put groups more (ground arith) (ground arith) (group-perm ts groups)
          | inr b ↦ elim (Option-cases (lookup m groups)) [
            | inl l ↦
                put (insert m (t ∷ []) groups) (t ∷ more) (ground arith) (ground arith)
                  (step _ (flat-new m t groups l))
            | inr (old, l) ↦
                put (insert m (old ++ (t ∷ [])) groups) (t ∷ more) (ground arith) (ground arith)
                  (step _ (flat-old m t old groups l))
          ]
        ]
      ]

module _ {F : Type 0} ⦃num : Number F⦄ (fee : F) (clock : ℕ → ℕ)
    (res : String → Option String) where
  -- One settlement: the outcome and the P&L go to the database, and one event tells of them.
  abbrev pub settle_once : String → String → Trade F → State F → State F
  settle_once m r t s =
      let (outcome, pnl) = payoff fee t.signal t.entry_price t.bet_size r in
      let event : Resolved F = record {
        trade_id = t.id;
        strategy = t.strategy;
        asset = t.asset;
        outcome = outcome;
        pnl = pnl;
        signal = t.signal;
        entry_price = t.entry_price;
        bet_size = t.bet_size;
        market_id = m;
      } in
      record s {
        db = resolve_trade (clock t.id) t.id outcome pnl s.db;
        resolved = s.resolved ++ (event ∷ []);
      }

  settle-settle_once :
      (m r : String) (t : Trade F) (s : State F) → settle fee clock m r t s ≡ settle_once m r t s
  unfolding settle
  settle-settle_once m r t s =
      ground (arith, calculate_pnl-payoff fee t.signal t.entry_price t.bet_size r)

  -- A trade is settled by the resolution of its market, where there is one.
  abbrev pub settle_due : Trade F → State F → State F
  settle_due t s = elim t.market_id [
    | none ↦ s
    | some m ↦ elim (resolution_for res t) [ none ↦ s | some r ↦ settle_once m r t s ]
  ]

  -- The trades are settled one after the other, each once.
  unfoldable pub settle_each : List (Trade F) → State F → State F
  settle_each [] s = s
  settle_each (t ∷ ts) s = settle_each ts (settle_due t s)

  settle_each-append :
      (ts us : List (Trade F)) (s : State F)
      → settle_each (ts ++ us) s ≡ settle_each us (settle_each ts s)
  unfolding settle_each
  settle_each-append [] us s = refl
  settle_each-append (t ∷ ts) us s = settle_each-append ts us (settle_due t s)

  settle_market_each :
      (m : String) (ts : List (Trade F)) (o : Option String) (s : State F)
      → res m ≡ o
      → All (Under (λ _. Unit) m) ts
      → settle_market fee clock m ts o s ≡ settle_each ts s
  unfolding settle_market settle_all settle_each
  settle_market_each m [] none s e h = refl
  settle_market_each m [] (some r) s e h = refl
  settle_market_each m (t ∷ ts) none s e ((_, k, b), h) =
      let same : settle_due t s ≡ s = ground arith in
      settle_market_each m ts none s e h ∙ ap (settle_each ts) (sym same)
  settle_market_each m (t ∷ ts) (some r) s e ((_, k, b), h) =
      let due : settle_due t s ≡ settle_once m r t s = ground arith in
      let same : settle_due t s ≡ settle fee clock m r t s =
        due ∙ sym (settle-settle_once m r t s) in
      settle_market_each m ts (some r) (settle fee clock m r t s) e h
      ∙ ap (settle_each ts) (sym same)

  settle_markets_each :
      (groups : Dict String (List (Trade F))) (s : State F)
      → Grouped (λ _. Unit) groups
      → settle_markets fee clock res groups s ≡ settle_each (flat groups) s
  unfolding settle_markets flat settle_each
  settle_markets_each [] s h = refl
  settle_markets_each ((m, ts) ∷ groups) s (g, gs) =
      settle_markets_each groups (settle_market fee clock m ts (res m) s) gs
      ∙ ap (settle_each (flat groups)) (settle_market_each m ts (res m) s refl g)
      ∙ sym (settle_each-append ts (flat groups) s)

  -- A trade without a resolution is passed over.
  settle_each-select :
      (ts : List (Trade F)) (s : State F)
      → settle_each ts s ≡ settle_each (select (λ t. is_some (resolution_for res t)) ts) s
  unfolding settle_each
  settle_each-select [] s = refl
  settle_each-select (t ∷ ts) s = elim (Option-cases (resolution_for res t)) [
    | inl e ↦
        let same : settle_due t s ≡ s = ground arith in
        rw e (ap (settle_each ts) same ∙ settle_each-select ts s)
    | inr (r, e) ↦ rw e (settle_each-select ts (settle_due t s))
  ]

  -- An open trade whose market has a resolution.
  abbrev pub is_due : Trade F → Bool
  is_due t = is_open t && is_some (resolution_for res t)

  select-is_due :
      (ts : List (Trade F))
      → select
          (λ t. is_some (resolution_for res t))
          (select has_market (select (λ t. is_open t && (true && true)) ts))
        ≡ select is_due ts
  select-is_due [] = refl
  select-is_due (t ∷ ts) = ground (arith, select-is_due ts)

  -- The loops settle each open trade whose market has a resolution, once, in some order.
  pub settle_markets-settle_each :
      (s : State F)
      → let opens = select (λ (t : Trade F). is_open t && (true && true)) s.db.trades in
        (order : List (Trade F)) × Permᴰ order (select is_due s.db.trades)
        × (settle_markets fee clock res (group opens []) s ≡ settle_each order s)
  unfolding flat
  settle_markets-settle_each s =
      let has : Trade F → Bool = λ t. is_some (resolution_for res t) in
      let ts = s.db.trades in
      let opens = select (λ (t : Trade F). is_open t && (true && true)) ts in
      let groups = group opens [] in
      let perm : Permᴰ (flat groups) (select has_market opens) =
        Permᴰ.trans (group-perm opens []) (Permᴰ.append-nil _) in
      (
        select has (flat groups),
        subst (Permᴰ (select has (flat groups))) (select-is_due ts) (select-perm has perm),
        settle_markets_each groups s (Grouped-group (λ _. Unit) opens [] (All-Unit opens) tt)
            ∙ settle_each-select (flat groups) s,
      )
