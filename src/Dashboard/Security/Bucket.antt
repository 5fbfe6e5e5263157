-- ===== src/Dashboard/Security/Bucket.antt =====
-- dashboard/security.py: what a token bucket lets through.
use poly_market_prediction_b.Base.{
  ℕ, suc, ◌≡◌, ◌∙◌, List, [], ◌∷◌, arith, Bool-cases, inl, inr, if◌then◌else◌,
}
use poly_market_prediction_b.Number.{Number, zero_f, one_f, of_ℕ, fmin}
use poly_market_prediction_b.Number.Order.{
  ◌≼◌, IsOrdered, IsRounded, IsExact, le_refl, fmin-le_right, le-fmin,
}
use poly_market_prediction_b.Dashboard.Security.{TokenBucket, new_bucket, allow}

module _ {F : Type 0} ⦃num : Number F⦄ where
  open num use {add, sub, mul, neg, le}

  -- The calls at these times: how many are allowed, and the bucket after them.
  unfoldable pub allowed : List F → TokenBucket F → ℕ × TokenBucket F
  unfolding allow
  allowed [] bucket = (0, bucket)
  allowed (now ∷ times) bucket =
      let (granted, bucket') = allow now bucket in
      let (count, end) = allowed times bucket' in ((if granted then suc count else count), end)

  -- The tokens that the time from `last` to the last of the times brings.
  abbrev pub refill : F → F → List F → F
  refill rate last [] = zero_f
  refill rate last (now ∷ times) = add (mul (sub now last) rate) (refill rate now times)

  -- The times do not go back.
  abbrev pub IsAscending : F → List F → Type 0
  IsAscending last [] = Unit
  IsAscending last (now ∷ times) = (last ≼ now) × IsAscending now times

  module _ (ordered : IsOrdered F) (rounded : IsRounded F) (exact : IsExact F) where
    open ordered use {le_trans, lt-eq-not-le}
    open rounded use {sub_self, sub_mono, mul_nonneg, add_ge}
    open exact use {add_comm, add_assoc, add_zero, add_neg, sub-eq-add, add_whole}

    sub_add : (x y : F) → add (sub x y) y ≡ x
    sub_add x y =
        ground
          (arith, sub-eq-add x y, add_assoc x (neg y) y, add_comm (neg y) y, add_neg y, add_zero x)

    neg-neg : (z : F) → neg (neg z) ≡ z
    neg-neg z = ground (
      arith,
      add_zero (neg (neg z)),
      add_neg z,
      add_zero z,
      add_neg (neg z),
      add_assoc z (neg z) (neg (neg z)),
      add_comm zero_f (neg (neg z)),
    )

    add_mono : (x y z : F) → x ≼ y → add x z ≼ add y z
    add_mono x y z h =
        ground
          (arith, sub_mono x y (neg z) h, sub-eq-add x (neg z), sub-eq-add y (neg z), neg-neg z)

    -- Where the clock has not gone back, a call spends what it allows, and no more than there is.
    allow_spends :
        (now : F) (bucket : TokenBucket F)
        → bucket.last ≼ now
        → zero_f ≼ bucket.rate
        → zero_f ≼ bucket.capacity
        → zero_f ≼ bucket.tokens
        → let (granted, after) = allow now bucket in
          (zero_f ≼ after.tokens)
          × (after.last ≡ now)
          × (after.rate ≡ bucket.rate)
          × (after.capacity ≡ bucket.capacity)
          × (add (of_ℕ (if granted then 1 else 0)) after.tokens
              ≼ add bucket.tokens (mul (sub now bucket.last) bucket.rate))
    unfolding allow
    allow_spends now bucket h r c t =
        let brought = mul (sub now bucket.last) bucket.rate in
        let held = fmin bucket.capacity (add bucket.tokens brought) in
        let gained : zero_f ≼ brought =
          mul_nonneg (sub now bucket.last) bucket.rate
            (ground (arith, sub_mono bucket.last now bucket.last h, sub_self bucket.last)) r in
        let some_held : zero_f ≼ held =
          le-fmin ordered bucket.capacity (add bucket.tokens brought) zero_f c (
            le_trans zero_f bucket.tokens (add bucket.tokens brought) t
              (add_ge bucket.tokens brought gained)) in
        let most : held ≼ add bucket.tokens brought =
          fmin-le_right ordered bucket.capacity (add bucket.tokens brought) in
        elim (Bool-cases (le one_f held)) [
          | inl enough ↦
              let left : zero_f ≼ sub held one_f =
                ground (arith, sub_mono one_f held one_f enough, sub_self one_f) in
              let spent : add one_f (sub held one_f) ≡ held =
                add_comm one_f (sub held one_f) ∙ sub_add held one_f in
              ground (arith, enough, left, spent, most)
          | inr short ↦
              let spent : add zero_f held ≡ held = add_comm zero_f held ∙ add_zero held in
              ground (arith, short, some_held, spent, most)
        ]

    -- What is spent first, and then the rest, against what there was.
    spend_more :
        (first later end tokens rest most : F)
        → add later end ≼ add tokens rest
        → add first tokens ≼ most
        → add (add first later) end ≼ add most rest
    spend_more first later end tokens rest most h k =
        le_trans (add (add first later) end) (add (add first tokens) rest) (add most rest)
          (ground (
            arith,
            add_mono (add later end) (add tokens rest) first h,
            add_comm (add later end) first,
            add_comm (add tokens rest) first,
            add_assoc first later end,
            add_assoc first tokens rest,
          ))
          (add_mono (add first tokens) most rest k)

    allowed_spends :
        (times : List F) (bucket : TokenBucket F)
        → zero_f ≼ bucket.rate
        → zero_f ≼ bucket.capacity
        → zero_f ≼ bucket.tokens
        → IsAscending bucket.last times
        → let (count, end) = allowed times bucket in
          (zero_f ≼ end.tokens)
          × (add (of_ℕ count) end.tokens ≼ add bucket.tokens (refill bucket.rate bucket.last times))
    unfolding allowed
    allowed_spends [] bucket r c t h = (
      t,
      ground (arith, add_comm zero_f bucket.tokens, le_refl ordered (add bucket.tokens zero_f)),
    )
    allowed_spends (now ∷ times) bucket r c t (h, later) =
        let (granted, after) = allow now bucket in
        let (some_left, at_now, same_rate, same_capacity, spent) =
          allow_spends now bucket h r c t in
        let (count, end) = allowed times after in
        let brought = mul (sub now bucket.last) bucket.rate in
        let rest = refill bucket.rate now times in
        let (left, fits) =
          allowed_spends times after (ground (arith, same_rate)) (ground (arith, same_capacity))
            some_left (rw at_now later) in
        let extra = of_ℕ (if granted then 1 else 0) in
        let sum : of_ℕ (if granted then suc count else count) ≡ add extra (of_ℕ count) =
          ground (arith, add_whole 1 count, add_comm zero_f (of_ℕ count), add_zero (of_ℕ count)) in
        let fits' : add (of_ℕ count) end.tokens ≼ add after.tokens rest =
          ground (arith, fits, at_now, same_rate) in
        let all =
          spend_more extra (of_ℕ count) end.tokens after.tokens rest (add bucket.tokens brought)
            fits' spent in
        (left, ground (arith, sum, all, add_assoc bucket.tokens brought rest))

    -- At times that do not go back, under exact arithmetic: the calls that a new bucket allows are at
    -- most its capacity and the tokens that the time has brought.
    pub allowed-new_bucket :
        (rate capacity now : F) (times : List F)
        → zero_f ≼ rate
        → zero_f ≼ capacity
        → IsAscending now times
        → of_ℕ (allowed times (new_bucket rate capacity now)).0
          ≼ add capacity (refill rate now times)
    allowed-new_bucket rate capacity now times r c h =
        let bucket = new_bucket rate capacity now in
        let (count, end) = allowed times bucket in
        let (left, fits) = allowed_spends times bucket r c c h in
        le_trans (of_ℕ count) (add (of_ℕ count) end.tokens) (add capacity (refill rate now times))
          (add_ge (of_ℕ count) end.tokens left) fits
