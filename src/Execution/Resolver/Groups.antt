-- ===== src/Execution/Resolver/Groups.antt =====
-- execution/resolver.py: the open trades by market, and what settling the groups does to one trade.
use poly_market_prediction_b.Base.{
  ℕ, String, Bool, false, not, ◌≡◌, inl, inr, refl, none, some, List, [], ◌∷◌, ◌++◌, ◌==◌,
  string_eq, nat_eq, ◌&&◌, ◌||◌, arith, any, All, All-append, Option-cases, Bool-cases,
}
use poly_market_prediction_b.Base.Dict.{Dict, lookup, insert}
use poly_market_prediction_b.Storage.{Trade, has_id}
use poly_market_prediction_b.Execution.Resolver.{group}

module _ {F : Type 0} where
  -- The trade has a market: `if mid:`
  abbrev pub has_market : Trade F → Bool
  has_market t = elim t.market_id [ none ↦ false | some m ↦ not (m == "") ]

  -- A trade of the id is in one of the groups.
  abbrev pub found : ℕ → Dict String (List (Trade F)) → Bool
  found i [] = false
  found i ((m, ts) ∷ groups) = any (has_id i) ts || found i groups

  found-new :
      (i : ℕ) (m : String) (t : Trade F) (groups : Dict String (List (Trade F)))
      → lookup m groups ≡ none
      → found i (insert m (t ∷ []) groups) ≡ (has_id i t || found i groups)
  found-new i m t [] h = ground arith
  found-new i m t ((j, ts) ∷ groups) h = ground (arith, found-new i m t groups)

  any-snoc :
      (i : ℕ) (ts : List (Trade F)) (t : Trade F)
      → any (has_id i) (ts ++ (t ∷ [])) ≡ (has_id i t || any (has_id i) ts)
  any-snoc i [] t = refl
  any-snoc i (u ∷ ts) t = ground (arith, any-snoc i ts t)

  found-old :
      (i : ℕ) (m : String) (t : Trade F) (old : List (Trade F))
      (groups : Dict String (List (Trade F)))
      → lookup m groups ≡ some old
      → found i (insert m (old ++ (t ∷ [])) groups) ≡ (has_id i t || found i groups)
  found-old i m t old [] h = absurd (ground arith)
  found-old i m t old ((j, ts) ∷ groups) h =
      ground (arith, found-old i m t old groups, any-snoc i ts t)

  -- The groups hold the trades that have a market, and no other.
  pub found-group :
      (i : ℕ) (ts : List (Trade F)) (groups : Dict String (List (Trade F)))
      → found i (group ts groups) ≡ (any (λ t. has_id i t && has_market t) ts || found i groups)
  unfolding group
  found-group i [] groups = refl
  found-group i (t ∷ ts) groups = elim (Option-cases t.market_id) [
    | inl e ↦ ground (arith, found-group i ts groups)
    | inr (m, e) ↦ elim (Bool-cases (m == "")) [
      | inl b ↦ ground (arith, found-group i ts groups)
      | inr b ↦ elim (Option-cases (lookup m groups)) [
        | inl l ↦
            ground (arith, found-group i ts (insert m (t ∷ []) groups), found-new i m t groups l)
        | inr (old, l) ↦ ground (
          arith,
          found-group i ts (insert m (old ++ (t ∷ [])) groups),
          found-old i m t old groups l,
        )
      ]
    ]
  ]

  -- A trade stands under its market.
  abbrev pub Under : (Trade F → Type 0) → String → Trade F → Type 0
  Under P m t = P t × (t.market_id ≡ some m) × ((m == "") ≡ false)

  abbrev pub Grouped : (Trade F → Type 0) → Dict String (List (Trade F)) → Type 0
  Grouped P [] = Unit
  Grouped P ((m, ts) ∷ groups) = All (Under P m) ts × Grouped P groups

  module _ (P : Trade F → Type 0) where
    Grouped-new :
        (m : String) (t : Trade F) (groups : Dict String (List (Trade F)))
        → Under P m t
        → lookup m groups ≡ none
        → Grouped P groups
        → Grouped P (insert m (t ∷ []) groups)
    Grouped-new m t [] u h g = ((u, tt), tt)
    Grouped-new m t ((j, ts) ∷ groups) u h (g, gs) = elim (Bool-cases (m == j)) [
      | inl e ↦ absurd (ground arith)
      | inr e ↦ rw e ((g, Grouped-new m t groups u (ground arith) gs))
    ]

    Grouped-old :
        (m : String) (t : Trade F) (old : List (Trade F)) (groups : Dict String (List (Trade F)))
        → Under P m t
        → lookup m groups ≡ some old
        → Grouped P groups
        → Grouped P (insert m (old ++ (t ∷ [])) groups)
    Grouped-old m t old [] u h g = absurd (ground arith)
    Grouped-old m t old ((j, ts) ∷ groups) u h (g, gs) = elim (Bool-cases (m == j)) [
      | inl e ↦
          let same : ts ≡ old = ground arith in
          let key : m ≡ j = (string_eq.beq_iff m j).0 e in
          rw e ((All-append (Under P j) old (t ∷ []) (rw same at g) (rw key at u, tt), gs))
      | inr e ↦ rw e ((g, Grouped-old m t old groups u (ground arith) gs))
    ]

    pub Grouped-group :
        (ts : List (Trade F)) (groups : Dict String (List (Trade F)))
        → All P ts
        → Grouped P groups
        → Grouped P (group ts groups)
    unfolding group
    Grouped-group [] groups h g = g
    Grouped-group (t ∷ ts) groups (p, h) g = elim (Option-cases t.market_id) [
      | inl e ↦ rw e (Grouped-group ts groups h g)
      | inr (m, e) ↦ elim (Bool-cases (m == "")) [
        | inl b ↦ rw e (rw b (Grouped-group ts groups h g))
        | inr b ↦ elim (Option-cases (lookup m groups)) [
          | inl l ↦ rw e (rw b (rw l (Grouped-group ts _ h (Grouped-new m t groups (p, e, b) l g))))
          | inr (old, l) ↦
              rw e (rw b (rw l (Grouped-group ts _ h (Grouped-old m t old groups (p, e, b) l g))))
        ]
      ]
    ]
