-- ===== src/Feeds/Exchanges/Adapters.antt =====
-- feeds/exchange_manager.py: what any additions of adapters leave.
use poly_market_prediction_b.Base.{
  append_nil, append_snoc, ◌≡◌, Option, none, some, List, [], ◌∷◌, ◌++◌, if◌then◌else◌, arith,
}
use poly_market_prediction_b.Feeds.Exchanges.{
  ExchangeAdapter, ExchangeManager, add_adapter, new_manager,
}

module _ {F : Type 0} where
  -- Additions one after another, those that raise included.
  unfoldable pub add_all : List (ExchangeAdapter F) → ExchangeManager F → ExchangeManager F
  add_all [] manager = manager
  add_all (a ∷ xs) manager = add_all xs (add_adapter a manager).1

  abbrev pub first_primary : List (ExchangeAdapter F) → Option (ExchangeAdapter F)
  first_primary [] = none
  first_primary (a ∷ xs) = if a.is_primary then some a else first_primary xs

  abbrev or_first :
      Option (ExchangeAdapter F) → List (ExchangeAdapter F) → Option (ExchangeAdapter F)
  or_first none xs = first_primary xs
  or_first (some p) xs = some p

  add_all-from :
      (xs bs : List (ExchangeAdapter F)) (p : Option (ExchangeAdapter F))
      → add_all xs (record { adapters = bs; primary = p })
        ≡ record { adapters = bs ++ xs; primary = or_first p xs }
  unfolding add_all add_adapter
  add_all-from [] bs none = ground (arith, append_nil bs)
  add_all-from [] bs (some p) = ground (arith, append_nil bs)
  add_all-from (a ∷ xs) bs none = ground (
    arith,
    append_snoc bs a xs,
    add_all-from xs (bs ++ (a ∷ [])) none,
    add_all-from xs (bs ++ (a ∷ [])) (some a),
  )
  add_all-from (a ∷ xs) bs (some p) =
      ground (arith, append_snoc bs a xs, add_all-from xs (bs ++ (a ∷ [])) (some p))

  -- After any additions, the primary adapter is the first that was added as a primary, and the adapters
  -- are all those added, in their order: a second primary, for which `add_adapter` raises, included.
  pub add_all_lem :
      (xs : List (ExchangeAdapter F))
      → add_all xs new_manager ≡ record { adapters = xs; primary = first_primary xs }
  add_all_lem xs = add_all-from xs [] none
