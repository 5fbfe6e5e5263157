-- ===== src/Market/OrderBook/Fresh.antt =====
-- market/orderbook.py: a best ask is the lowest one of a book fetched in the last 5 seconds.
use mathlib.Core.Path.{subst}
use poly_market_prediction_b.Base.{
  string_eq, ℕ, ◌+◌, ◌<◌, ◌≡◌, refl, ◌⊎◌, inl, inr, String, some, List, [], ◌∷◌, ◌++◌, ◌==◌, ltb,
  ltb→lt, All, Some, Some-append, Some-imp, Bool-cases, Option-cases, arith,
}
use poly_market_prediction_b.Base.Dict.{lookup, lookup-insert}
use poly_market_prediction_b.Number.{Number, fmin}
use poly_market_prediction_b.Number.Order.{◌≼◌, IsOrdered, le_refl, fmin-le_left, fmin-le_right}
use poly_market_prediction_b.Market.OrderBook.{
  cache_ttl, PriceCache, Book, failed, asks, lowest, fetch, get_best_ask,
}

-- A call: the time, the token, and what a request for its book would give.
pub record Call (F : Type 0) : Type 0 where
  pub now : ℕ
  pub token_id : String
  pub book : Book F

module _ {F : Type 0} ⦃num : Number F⦄ where
  open num use {lt}

  -- The cache after the calls.
  unfoldable pub calls : List (Call F) → PriceCache F → PriceCache F
  unfolding get_best_ask
  calls [] cache = cache
  calls (call ∷ rest) cache = calls rest (get_best_ask call.now call.token_id call.book cache).1

  -- The price is the lowest of the asks of a book.
  abbrev pub IsLowest : F → Book F → Type 0
  IsLowest price failed = ⊥
  IsLowest price (asks prices) = Some (λ p. p ≡ price) prices × All (λ p. price ≼ p) prices

  abbrev pub HasFetched : String → F → ℕ → Call F → Type 0
  HasFetched token_id price at call =
      (call.token_id ≡ token_id) × (call.now ≡ at) × IsLowest price call.book

  -- A call for the token, less than 5 seconds before this time or after it, whose book has the price
  -- as its lowest ask.
  abbrev pub IsFresh : ℕ → String → F → Call F → Type 0
  IsFresh now token_id price call =
      (call.token_id ≡ token_id) × (now < call.now + cache_ttl) × IsLowest price call.book

  module _ (laws : IsOrdered F) where
    open laws use {le_trans}

    lowest-All :
        (x price : F) (prices : List F)
        → price ≼ x
        → (lowest price prices ≼ x) × All (λ p. lowest price prices ≼ p) prices
    unfolding lowest
    lowest-All x price [] h = (h, tt)
    lowest-All x price (p ∷ prices) h =
        let least = fmin price p in
        (
          (lowest-All x least prices (le_trans least price x (fmin-le_left laws price p) h)).0,
          lowest-All p least prices (fmin-le_right laws price p),
        )

    lowest-Some :
        (price : F) (prices : List F) → Some (λ p. p ≡ lowest price prices) (price ∷ prices)
    unfolding lowest fmin
    lowest-Some price [] = inl refl
    lowest-Some price (p ∷ prices) = elim (lowest-Some (fmin price p) prices) [
      | inl e ↦ elim (Bool-cases (lt p price)) [
        | inl less ↦ inr (inl (ground (arith, e, less)))
        | inr more ↦ inl (ground (arith, e, more))
      ]
      | inr found ↦ inr (inr found)
    ]

    lowest-IsLowest :
        (price : F) (prices : List F) → IsLowest (lowest price prices) (asks (price ∷ prices))
    lowest-IsLowest price prices =
        let (least, rest) = lowest-All price price prices (le_refl laws price) in
        (lowest-Some price prices, (least, rest))

    -- What the cache gains by a request.
    fetch-lookup :
        (token_id : String) (price : F) (at now : ℕ) (id : String) (book : Book F)
        (cache : PriceCache F)
        → lookup token_id (fetch now id book cache).1 ≡ some (price, at)
        → (lookup token_id cache ≡ some (price, at))
          ⊎ (id ≡ token_id) × (now ≡ at) × IsLowest price book
    unfolding fetch
    fetch-lookup token_id price at now id failed cache h = inl h
    fetch-lookup token_id price at now id (asks []) cache h = inl h
    fetch-lookup token_id price at now id (asks (p ∷ ps)) cache h =
        let entry = lookup-insert id token_id (lowest p ps, now) cache in
        elim (Bool-cases (token_id == id)) [
          | inl same ↦
              let found : lowest p ps ≡ price = ground (arith, h, entry, same) in
              inr (
                ground (arith, same, string_eq.beq_iff token_id id),
                ground (arith, h, entry, same),
                subst (λ x. IsLowest x (asks (p ∷ ps))) found (lowest-IsLowest p ps),
              )
          | inr other ↦ inl (ground (arith, h, entry, other))
        ]

    fetch-some :
        (now : ℕ) (id : String) (book : Book F) (cache : PriceCache F) (price : F)
        → (fetch now id book cache).0 ≡ some price
        → IsLowest price book
    unfolding fetch
    fetch-some now id failed cache price h = absurd (ground arith)
    fetch-some now id (asks []) cache price h = absurd (ground arith)
    fetch-some now id (asks (p ∷ ps)) cache price h =
        let found : lowest p ps ≡ price = ground arith in
        subst (λ x. IsLowest x (asks (p ∷ ps))) found (lowest-IsLowest p ps)

    -- A call answers from the cache, or by a request.
    get_best_ask-cases :
        (now : ℕ) (id : String) (book : Book F) (cache : PriceCache F)
        → (get_best_ask now id book cache ≡ fetch now id book cache)
          ⊎ ((price : F) × (at : ℕ) × (lookup id cache ≡ some (price, at))
              × (now < at + cache_ttl)
              × (get_best_ask now id book cache ≡ (some price, cache)))
    unfolding get_best_ask
    get_best_ask-cases now id book cache = elim (Option-cases (lookup id cache)) [
      | inl missing ↦ inl (ground (arith, missing))
      | inr ((price, at), held) ↦ elim (Bool-cases (ltb now (at + cache_ttl))) [
        | inl fresh ↦
            inr (price, at, held, ltb→lt now (at + cache_ttl) fresh, ground (arith, held, fresh))
        | inr stale ↦ inl (ground (arith, held, stale))
      ]
    ]

    calls-lookup :
        (token_id : String) (price : F) (at : ℕ) (rest : List (Call F)) (cache : PriceCache F)
        → lookup token_id (calls rest cache) ≡ some (price, at)
        → (lookup token_id cache ≡ some (price, at)) ⊎ Some (HasFetched token_id price at) rest
    unfolding calls
    calls-lookup token_id price at [] cache h = inl h
    calls-lookup token_id price at (call ∷ rest) cache h =
        let answer = get_best_ask call.now call.token_id call.book cache in
        elim (calls-lookup token_id price at rest answer.1 h) [
          | inl held ↦ elim (get_best_ask-cases call.now call.token_id call.book cache) [
            | inl fetched ↦
                elim (fetch-lookup token_id price at call.now call.token_id call.book cache
                  (subst (λ a. lookup token_id a.1 ≡ some (price, at)) fetched held)) [
                    | inl before ↦ inl before
                    | inr found ↦ inr (inl found)
                  ]
            | inr (p, t, cached, fresh, same) ↦
                inl (subst (λ a. lookup token_id a.1 ≡ some (price, at)) same held)
          ]
          | inr found ↦ inr (inr found)
        ]

    -- A price that is answered after any calls, on an empty cache, is the lowest ask of the book at one
    -- of the calls for the token less than 5 seconds ago, or at this call.
    pub get_best_ask-IsFresh :
        (rest : List (Call F)) (call : Call F) (price : F)
        → (get_best_ask call.now call.token_id call.book (calls rest [])).0 ≡ some price
        → Some (IsFresh call.now call.token_id price) (rest ++ (call ∷ []))
    get_best_ask-IsFresh rest call price h =
        let cache = calls rest [] in
        let id = call.token_id in
        Some-append (IsFresh call.now id price) rest (call ∷ [])
          (elim (get_best_ask-cases call.now id call.book cache) [
            | inl fetched ↦
                let asked = subst (λ a. a.0 ≡ some price) fetched h in
                inr (inl (refl, omega arith, fetch-some call.now id call.book cache price asked))
            | inr (p, at, cached, fresh, same) ↦
                let found : p ≡ price = ground (arith, h, same) in
                elim (calls-lookup id p at rest [] cached) [
                  | inl empty ↦ absurd (ground (arith, empty))
                  | inr given ↦ inl (
                      Some-imp (HasFetched id p at) (IsFresh call.now id price)
                        (λ c (of_token, then_at, least).
                          (of_token, rw then_at fresh, subst (λ x. IsLowest x c.book) found least))
                        rest given)
                ]
          ])
