-- ===== src/Feeds/Exchanges/Robust.antt =====
-- feeds/exchange_manager.py: a minority of exchanges does not move the median.
use poly_market_prediction_b.Base.{
  ℕ, zero, suc, ◌+◌, ◌-◌, ◌*◌, ◌/◌, ◌%◌, ◌≤◌, ◌<◌, String, string_eq, nat_eq, ◌==◌, Bool, true,
  false, not, ◌&&◌, ◌≡◌, inl, inr, refl, none, some, List, [], ◌∷◌, All, All-imp, map, select,
  length, arith, Bool-cases,
}
use poly_market_prediction_b.Number.{Number, zero_f}
use poly_market_prediction_b.Number.Order.{◌≼◌, IsOrdered, IsRounded, le_of_lt}
use poly_market_prediction_b.Feeds.Exchanges.{
  NormalizedTick, ExchangeManager, get_all_ticks, insert_sorted, sorted, at_or, median, price_of,
  get_median_price,
}

module _ {F : Type 0} ⦃num : Number F⦄ where
  open num use {lt, le}

  abbrev pub IsSorted : List F → Type 0
  IsSorted [] = Unit
  IsSorted (x ∷ xs) = All (λ y. x ≼ y) xs × IsSorted xs

  -- How many of the values fail a test.
  abbrev pub misses : (F → Bool) → List F → ℕ
  misses test xs = length (select (λ x. not (test x)) xs)

  length-insert_sorted : (x : F) (xs : List F) → length (insert_sorted x xs) ≡ suc (length xs)
  length-insert_sorted x [] = refl
  length-insert_sorted x (y ∷ ys) = ground (arith, length-insert_sorted x ys)

  length-sorted : (xs : List F) → length (sorted xs) ≡ length xs
  length-sorted [] = refl
  length-sorted (x ∷ xs) = ground (arith, length-insert_sorted x (sorted xs), length-sorted xs)

  misses-insert_sorted :
      (test : F → Bool) (x : F) (xs : List F)
      → misses test (insert_sorted x xs) ≡ misses test (x ∷ xs)
  misses-insert_sorted test x [] = refl
  misses-insert_sorted test x (y ∷ ys) = ground (arith, misses-insert_sorted test x ys)

  misses-sorted : (test : F → Bool) (xs : List F) → misses test (sorted xs) ≡ misses test xs
  misses-sorted test [] = refl
  misses-sorted test (x ∷ xs) =
      ground (arith, misses-insert_sorted test x (sorted xs), misses-sorted test xs)

  misses-le :
      (test other : F → Bool) (xs : List F)
      → ((x : F) → other x ≡ true → test x ≡ true)
      → misses test xs ≤ misses other xs
  misses-le test other [] h = omega arith
  misses-le test other (x ∷ xs) h = ground (arith, h x, misses-le test other xs h)

  misses-All :
      (test : F → Bool) (xs : List F) → All (λ x. test x ≡ false) xs → misses test xs ≡ length xs
  misses-All test [] h = refl
  misses-All test (x ∷ xs) (e, h) = ground (arith, misses-All test xs h)

module _ {F : Type 0} ⦃num : Number F⦄ (laws : IsOrdered F) where
  open num use {lt, le}
  open laws use {le_total, le_trans, lt-eq-not-le}

  All-insert_sorted :
      (z x : F) (xs : List F) → z ≼ x → All (λ y. z ≼ y) xs → All (λ y. z ≼ y) (insert_sorted x xs)
  All-insert_sorted z x [] h a = (h, tt)
  All-insert_sorted z x (y ∷ ys) h (g, a) = ground (arith, All-insert_sorted z x ys h a)

  insert_sorted-IsSorted : (x : F) (xs : List F) → IsSorted xs → IsSorted (insert_sorted x xs)
  insert_sorted-IsSorted x [] h = (tt, tt)
  insert_sorted-IsSorted x (y ∷ ys) (a, h) = elim (Bool-cases (lt y x)) [
    | inl e ↦
        ground (arith, le_of_lt laws y x, All-insert_sorted y x ys, insert_sorted-IsSorted x ys h)
    | inr e ↦
        let first : le x y ≡ true = ground (arith, lt-eq-not-le y x) in
        let rest = All-imp (λ z. y ≼ z) (λ z. x ≼ z) (λ z g. le_trans x y z first g) ys a in
        ground (arith, e, rest)
  ]

  sorted-IsSorted : (xs : List F) → IsSorted (sorted xs)
  sorted-IsSorted [] = tt
  sorted-IsSorted (x ∷ xs) = insert_sorted-IsSorted x (sorted xs) (sorted-IsSorted xs)

  -- Past the values that are too low, nothing is.
  at_or-above :
      (lo default : F) (xs : List F) (i : ℕ)
      → IsSorted xs
      → i < length xs
      → misses (λ x. le lo x) xs ≤ i
      → lo ≼ at_or default xs i
  at_or-above lo default [] i s h k = absurd (omega arith)
  at_or-above lo default (x ∷ xs) zero (a, s) h k = ground arith
  at_or-above lo default (x ∷ xs) (suc i) (a, s) h k = elim (Bool-cases (le lo x)) [
    | inl e ↦
        at_All (λ y. lo ≼ y) default xs i
          (All-imp (λ y. x ≼ y) (λ y. lo ≼ y) (λ y g. le_trans lo x y e g) xs a) (omega arith)
    | inr e ↦ at_or-above lo default xs i s (omega arith) (ground arith)
  ]
    where
      at_All :
          (P : F → Type 0) (default : F) (xs : List F) (i : ℕ)
          → All P xs
          → i < length xs
          → P (at_or default xs i)
      at_All P default [] i a h = absurd (omega arith)
      at_All P default (x ∷ xs) zero (p, a) h = p
      at_All P default (x ∷ xs) (suc i) (p, a) h = at_All P default xs i a (omega arith)

  -- Before the values that are too high, nothing is.
  at_or-below :
      (hi default : F) (xs : List F) (i : ℕ)
      → IsSorted xs
      → i + misses (λ x. le x hi) xs < length xs
      → at_or default xs i ≼ hi
  at_or-below hi default [] i s h = absurd (omega arith)
  at_or-below hi default (x ∷ xs) zero (a, s) h = elim (Bool-cases (le x hi)) [
    | inl e ↦ e
    | inr e ↦
        let high : All (λ y. le y hi ≡ false) xs =
          All-imp (λ y. x ≼ y) (λ y. le y hi ≡ false) (λ y g. ground (arith, le_trans x y hi g)) xs
            a in
        absurd (ground (arith, misses-All (λ y. le y hi) xs high))
  ]
  at_or-below hi default (x ∷ xs) (suc i) (a, s) h = at_or-below hi default xs i s (ground arith)

  -- Where less than half of the values are outside of two bounds, the median is within them.
  median_robust :
      (rounded : IsRounded F) (lo hi : F) (xs : List F)
      → misses (λ x. le lo x && le x hi) xs * 2 < length xs
      → (lo ≼ median xs) × (median xs ≼ hi)
  unfolding median
  median_robust rounded lo hi xs h =
      let ordered = sorted xs in
      let n = length xs in
      let s = sorted-IsSorted xs in
      let low : misses (λ x. le lo x) ordered * 2 < n = ground (
        arith,
        misses-sorted (λ x. le lo x) xs,
        misses-le (λ x. le lo x) (λ x. le lo x && le x hi) xs (λ x g. ground arith),
      ) in
      let high : misses (λ x. le x hi) ordered * 2 < n = ground (
        arith,
        misses-sorted (λ x. le x hi) xs,
        misses-le (λ x. le x hi) (λ x. le lo x && le x hi) xs (λ x g. ground arith),
      ) in
      let count : length ordered ≡ n = length-sorted xs in
      let upper = at_or zero_f ordered (n / 2) in
      let lower = at_or zero_f ordered (n / 2 - 1) in
      let upper_low = at_or-above lo zero_f ordered (n / 2) s (omega arith) (omega arith) in
      let upper_high = at_or-below hi zero_f ordered (n / 2) s (omega arith) in
      elim (Bool-cases (n % 2 == 1)) [
        | inl odd ↦ ground (arith, odd, upper_low, upper_high)
        | inr even ↦
            let pair : 2 * (n / 2) ≡ n = ground arith in
            let lower_low =
              at_or-above lo zero_f ordered (n / 2 - 1) s (omega arith) (omega arith) in
            let lower_high = at_or-below hi zero_f ordered (n / 2 - 1) s (omega arith) in
            ground (
              arith,
              even,
              rounded.half_sum_ge lower upper lo lower_low upper_low,
              rounded.half_sum_le lower upper hi lower_high upper_high,
            )
      ]

  -- Where less than half of the exchanges with a price for the asset are outside of two bounds, there
  -- is a median price, and it is within the bounds.
  pub get_median_price-robust :
      (rounded : IsRounded F) (lo hi : F) (asset : String) (manager : ExchangeManager F)
      → misses (λ x. le lo x && le x hi) (map price_of (get_all_ticks asset manager.adapters)) * 2
        < length (map price_of (get_all_ticks asset manager.adapters))
      → (price : F) × (get_median_price asset manager ≡ some price) × (lo ≼ price) × (price ≼ hi)
  unfolding get_median_price
  get_median_price-robust rounded lo hi asset manager h =
      of_ticks (get_all_ticks asset manager.adapters) h
    where
      of_ticks :
          (ticks : List (NormalizedTick F))
          → misses (λ x. le lo x && le x hi) (map price_of ticks) * 2 < length (map price_of ticks)
          → (price : F) × (elim ticks [ [] ↦ none | t ∷ ts ↦ some (median (map price_of (t ∷ ts))) ]
              ≡ some price)
            × (lo ≼ price)
            × (price ≼ hi)
      of_ticks [] h = absurd (omega arith)
      of_ticks (t ∷ ts) h =
          let (low, high) = median_robust rounded lo hi (map price_of (t ∷ ts)) h in
          (median (map price_of (t ∷ ts)), refl, low, high)
