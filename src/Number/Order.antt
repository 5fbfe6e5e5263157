-- ===== src/Number/Order.antt =====
-- What the proofs assume of numbers: the order of doubles that are no NaN, facts on rounded
-- operations that hold of IEEE arithmetic without overflow, and exact arithmetic, which only the
-- accounting laws take. Then the laws of Python's `max` and `min`.
use poly_market_prediction_b.Base.{ℕ, ◌+◌, ◌≤◌, ◌≡◌, ◌⊎◌, true, not, ◌&&◌, arith}
use poly_market_prediction_b.Number.{Number, zero_f, one_f, fmax, fmin}

infix 4 ◌≼◌
abbrev pub ◌≼◌ : {F : Type 0} ⦃num : Number F⦄ → F → F → Type 0
◌≼◌ ⦃num⦄ x y = num.le x y ≡ true

pub record IsOrdered (F : Type 0) ⦃num : Number F⦄ : Type 0 where
  pub le_total : (x y : F) → (x ≼ y) ⊎ (y ≼ x)
  pub le_trans : (x y z : F) → x ≼ y → y ≼ z → x ≼ z
  pub lt-eq-not-le : (x y : F) → num.lt x y ≡ not (num.le y x)
  pub eq-eq-le : (x y : F) → num.eq x y ≡ (num.le x y && num.le y x)
  pub dec_mono : (m n k : ℕ) → m ≤ n → num.dec m k ≼ num.dec n k
  pub zero-lt-one : num.lt zero_f one_f ≡ true
  pub zero-lt-mill : num.lt zero_f (num.dec 1 3) ≡ true
  pub mills-lt-one : num.lt (num.dec 999 3) one_f ≡ true

pub record IsRounded (F : Type 0) ⦃num : Number F⦄ : Type 0 where
  pub round_mono : (k : ℕ) (x y : F) → x ≼ y → num.round k x ≼ num.round k y
  pub round_idem : (k : ℕ) (x : F) → num.round k (num.round k x) ≡ num.round k x
  pub round_cents : (m : ℕ) → num.round 2 (num.dec m 2) ≡ num.dec m 2
  pub round_whole : (m : ℕ) → num.round 4 (num.dec m 0) ≡ num.dec m 0
  pub round_dollars : (m : ℕ) → num.round 2 (num.dec m 0) ≡ num.dec m 0
  pub neg_nonneg : (x : F) → x ≼ zero_f → zero_f ≼ num.neg x
  pub sub_self : (x : F) → num.sub x x ≡ zero_f
  pub sub_mono : (x y z : F) → x ≼ y → num.sub x z ≼ num.sub y z
  pub sub_zero : (x y : F) → num.eq (num.sub x y) zero_f ≡ num.eq x y
  pub mul_neg : (x y : F) → num.mul (num.neg x) y ≡ num.neg (num.mul x y)
  pub sub_le : (x y : F) → zero_f ≼ y → num.sub x y ≼ x
  pub mul_nonneg : (x y : F) → zero_f ≼ x → zero_f ≼ y → zero_f ≼ num.mul x y
  pub div_nonneg : (x y : F) → zero_f ≼ x → num.lt zero_f y ≡ true → zero_f ≼ num.div x y
  pub half_sum_ge : (x y z : F) → z ≼ x → z ≼ y → z ≼ num.div (num.add x y) (num.dec 2 0)
  pub half_sum_le : (x y z : F) → x ≼ z → y ≼ z → num.div (num.add x y) (num.dec 2 0) ≼ z
  pub add_ge : (x y : F) → zero_f ≼ y → x ≼ num.add x y
  pub div_le : (x y : F) → zero_f ≼ x → one_f ≼ y → num.div x y ≼ x

pub record IsExact (F : Type 0) ⦃num : Number F⦄ : Type 0 where
  pub add_comm : (x y : F) → num.add x y ≡ num.add y x
  pub add_assoc : (x y z : F) → num.add (num.add x y) z ≡ num.add x (num.add y z)
  pub add_zero : (x : F) → num.add x zero_f ≡ x
  pub add_neg : (x : F) → num.add x (num.neg x) ≡ zero_f
  pub sub-eq-add : (x y : F) → num.sub x y ≡ num.add x (num.neg y)
  pub add_whole : (m n : ℕ) → num.add (num.dec m 0) (num.dec n 0) ≡ num.dec (m + n) 0

module _ {F : Type 0} ⦃num : Number F⦄ (laws : IsOrdered F) where
  open laws use {le_total, le_trans, lt-eq-not-le}

  pub le_refl : (x : F) → x ≼ x
  le_refl x = ground (arith, le_total x x)

  pub le_of_lt : (x y : F) → num.lt x y ≡ true → x ≼ y
  le_of_lt x y h = ground (arith, le_total x y, lt-eq-not-le x y)

  pub le-fmax_left : (x y : F) → x ≼ fmax x y
  unfolding fmax
  le-fmax_left x y = ground (arith, le_of_lt x y, le_refl x)

  pub le-fmax_right : (x y : F) → y ≼ fmax x y
  unfolding fmax
  le-fmax_right x y = ground (arith, lt-eq-not-le x y, le_refl y)

  pub fmax-le : (x y z : F) → x ≼ z → y ≼ z → fmax x y ≼ z
  unfolding fmax
  fmax-le x y z h k = ground arith

  pub fmin-le_left : (x y : F) → fmin x y ≼ x
  unfolding fmin
  fmin-le_left x y = ground (arith, le_of_lt y x, le_refl x)

  pub fmin-le_right : (x y : F) → fmin x y ≼ y
  unfolding fmin
  fmin-le_right x y = ground (arith, lt-eq-not-le y x, le_refl y)

  pub le-fmin : (x y z : F) → z ≼ x → z ≼ y → z ≼ fmin x y
  unfolding fmin
  le-fmin x y z h k = ground arith

  -- `max(lo, min(hi, x))` lies between the limits.
  pub clamp_bounds :
      (lo hi x : F) → lo ≼ hi → (lo ≼ fmax lo (fmin hi x)) × (fmax lo (fmin hi x) ≼ hi)
  clamp_bounds lo hi x h =
      (le-fmax_left lo (fmin hi x), fmax-le lo (fmin hi x) hi h (fmin-le_left hi x))

  -- The larger of two rounded numbers is rounded.
  pub round-fmax :
      (k : ℕ) (x y : F) → num.round k x ≡ x → num.round k y ≡ y → num.round k (fmax x y) ≡ fmax x y
  unfolding fmax
  round-fmax k x y h l = ground arith
