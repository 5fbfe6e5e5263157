-- ===== src/Number/Fixed/Laws.antt =====
-- The fixed-point numbers meet every law that the development assumes of numbers.
use native.Mathlib.Nat.{mul-le-mul, pow-suc}
use poly_market_prediction_b.Base.{
  ℕ, zero, suc, ◌+◌, ◌-◌, ◌*◌, ◌/◌, ◌^◌, ◌≤◌, ◌<◌, ◌≡◌, refl, sym, arith,
}
use poly_market_prediction_b.Number.Order.{◌≼◌, IsOrdered, IsRounded, IsExact}
use poly_market_prediction_b.Number.Integer.{
  pos, negsuc, negate, on_magnitude, +ℤ_comm, +ℤ_parts, +ℤ_assoc, +ℤ_negate, +ℤ_zero, ◌+ℤ◌,
  pos_part, neg_part,
}
use poly_market_prediction_b.Number.Fixed.{
  Fixed, fixed_number, round_to, units, times, over, step_of, signed,
}

div_mono : (a b k : ℕ) → a ≤ b → a / k ≤ b / k
div_mono a b k h = grind arith

div_self : (q s : ℕ) → 0 < s → (q * s + s / 2) / s ≡ q
div_self q s h = grind arith

round_to_mono : (s a b : ℕ) → a ≤ b → round_to s a ≤ round_to s b
unfolding round_to
round_to_mono s a b h = mul-le-mul (div_mono (a + s / 2) (b + s / 2) s (omega arith)) (omega arith)

pow_pos : (k : ℕ) → 0 < 10 ^ k
pow_pos zero = omega arith
pow_pos (suc k) = rw pow-suc (omega (arith, pow_pos k))

round_to_idem : (s a : ℕ) → 0 < s → round_to s (round_to s a) ≡ round_to s a
unfolding round_to
round_to_idem s a h = rw (div_self ((a + s / 2) / s) s h)

on_magnitude_mono :
    (f : ℕ → ℕ) (a b : Fixed)
    → ((m n : ℕ) → m ≤ n → f m ≤ f n)
    → a ≼ b
    → on_magnitude f a ≼ on_magnitude f b
on_magnitude_mono f (pos m) (pos n) mono h = ground (arith, mono m n)
on_magnitude_mono f (pos m) (negsuc n) mono h = absurd (ground arith)
on_magnitude_mono f (negsuc m) (pos n) mono h = ground arith
on_magnitude_mono f (negsuc m) (negsuc n) mono h = ground (arith, mono (suc n) (suc m))

on_magnitude_idem :
    (f : ℕ → ℕ) (a : Fixed)
    → ((m : ℕ) → f (f m) ≡ f m)
    → f 0 ≡ 0
    → on_magnitude f (on_magnitude f a) ≡ on_magnitude f a
on_magnitude_idem f (pos m) idem z = ground (arith, idem m)
on_magnitude_idem f (negsuc m) idem z = ground (arith, idem (suc m))

round_to_zero : (s : ℕ) → 0 < s → round_to s 0 ≡ 0
unfolding round_to
round_to_zero s h = grind (arith, div_self 0 s h)

signed_nonneg : (f : ℕ → ℕ → ℕ) (x y : Fixed) → pos 0 ≼ x → pos 0 ≼ y → pos 0 ≼ signed f x y
signed_nonneg f (pos m) (pos n) h k = ground arith
signed_nonneg f (negsuc m) y h k = absurd (ground arith)
signed_nonneg f (pos m) (negsuc n) h k = absurd (ground arith)

negate-negate : (x : Fixed) → negate (negate x) ≡ x
negate-negate (pos zero) = refl
negate-negate (pos (suc n)) = refl
negate-negate (negsuc n) = refl

signed-negate :
    (f : ℕ → ℕ → ℕ) (x y : Fixed)
    → ((n : ℕ) → f 0 n ≡ 0)
    → signed f (negate x) y ≡ negate (signed f x y)
signed-negate f (pos zero) (pos n) z = ground (arith, z n)
signed-negate f (pos zero) (negsuc n) z = ground (arith, z (suc n))
signed-negate f (pos (suc m)) y z = refl
signed-negate f (negsuc m) y z = sym (negate-negate (signed f (pos (suc m)) y))

times_zero : (n : ℕ) → times 0 n ≡ 0
unfolding times
times_zero n = omega arith

over-le : (m n : ℕ) → 1_000_000 ≤ n → over m n ≤ m
unfolding over
over-le m n h = grind (arith, div_mono (m * 1_000_000) (m * n) n, mul-le-mul)

signed_over-le : (x y : Fixed) → pos 0 ≼ x → pos 1_000_000 ≼ y → signed over x y ≼ x
signed_over-le (pos m) (pos n) h k = ground (arith, over-le m n)
signed_over-le (negsuc m) y h k = absurd (ground arith)
signed_over-le (pos m) (negsuc n) h k = absurd (ground arith)

over_two : (m : ℕ) → over m 2_000_000 ≡ m / 2
unfolding over
over_two m = omega arith

half : (s : Fixed) → signed over s (pos 2_000_000) ≡ on_magnitude (λ m. m / 2) s
half (pos m) = ground (arith, over_two m)
half (negsuc m) = ground (arith, over_two (suc m))

half-ge :
    (s z : Fixed)
    → pos_part z * 2 + neg_part s ≤ pos_part s + neg_part z * 2
    → z ≼ on_magnitude (λ m. m / 2) s
half-ge (pos m) (pos n) h = ground arith
half-ge (pos m) (negsuc n) h = ground arith
half-ge (negsuc m) (pos n) h = ground arith
half-ge (negsuc m) (negsuc n) h = ground arith

half-le :
    (s z : Fixed)
    → pos_part s + neg_part z * 2 ≤ pos_part z * 2 + neg_part s
    → on_magnitude (λ m. m / 2) s ≼ z
half-le (pos m) (pos n) h = ground arith
half-le (pos m) (negsuc n) h = ground arith
half-le (negsuc m) (pos n) h = ground arith
half-le (negsuc m) (negsuc n) h = ground arith

half_sum-ge : (x y z : Fixed) → z ≼ x → z ≼ y → z ≼ signed over (x +ℤ y) (pos (units 2 0))
unfolding units
half_sum-ge x y z h k = rw (half (x +ℤ y)) (half-ge (x +ℤ y) z (ground (arith, +ℤ_parts x y)))

half_sum-le : (x y z : Fixed) → x ≼ z → y ≼ z → signed over (x +ℤ y) (pos (units 2 0)) ≼ z
unfolding units
half_sum-le x y z h k = rw (half (x +ℤ y)) (half-le (x +ℤ y) z (ground (arith, +ℤ_parts x y)))

round_to_cents : (m : ℕ) → round_to 10_000 (units m 2) ≡ units m 2
unfolding round_to units
round_to_cents m = omega arith

round_to_dollars : (m : ℕ) → round_to 10_000 (units m 0) ≡ units m 0
unfolding round_to units
round_to_dollars m = omega arith

round_to_whole : (m : ℕ) → round_to 100 (units m 0) ≡ units m 0
unfolding round_to units
round_to_whole m = omega arith

pub Fixed-IsOrdered : IsOrdered Fixed
unfolding units
Fixed-IsOrdered = record {
  le_total = ground arith;
  le_trans = ground arith;
  lt-eq-not-le = ground arith;
  eq-eq-le = λ x y. refl;
  dec_mono = λ m n k h. ground (arith, div_mono (m * 1_000_000) (n * 1_000_000) (10 ^ k));
  zero-lt-one = refl;
  zero-lt-mill = refl;
  mills-lt-one = refl;
}

pub Fixed-IsRounded : IsRounded Fixed
unfolding units
Fixed-IsRounded = record {
  round_mono =
      λ k x y h. on_magnitude_mono (round_to (step_of k)) x y (round_to_mono (step_of k)) h;
  round_idem = λ k x.
      on_magnitude_idem (round_to (step_of k)) x
        (λ m. round_to_idem (step_of k) m (pow_pos (6 - k)))
        (round_to_zero (step_of k) (pow_pos (6 - k)));
  round_cents = λ m. ground (arith, round_to_cents m);
  round_whole = λ m. ground (arith, round_to_whole m);
  round_dollars = λ m. ground (arith, round_to_dollars m);
  neg_nonneg = ground arith;
  sub_self = +ℤ_negate;
  sub_mono = λ x y z h. ground (arith, +ℤ_parts x (negate z), +ℤ_parts y (negate z));
  sub_zero = λ x y. ground (arith, +ℤ_parts x (negate y));
  mul_neg = λ x y. signed-negate times x y times_zero;
  sub_le = λ x y h. ground (arith, +ℤ_parts x (negate y));
  mul_nonneg = signed_nonneg times;
  div_nonneg = λ x y h k. signed_nonneg over x y h (ground arith);
  half_sum_ge = half_sum-ge;
  half_sum_le = half_sum-le;
  add_ge = λ x y h. ground (arith, +ℤ_parts x y);
  div_le = signed_over-le;
}

units_add : (m n : ℕ) → pos (units m 0) +ℤ pos (units n 0) ≡ pos (units (m + n) 0)
unfolding units ◌+ℤ◌
units_add m n = grind arith

pub Fixed-IsExact : IsExact Fixed
unfolding units
Fixed-IsExact = record {
  add_comm = +ℤ_comm;
  add_assoc = +ℤ_assoc;
  add_zero = +ℤ_zero;
  add_neg = +ℤ_negate;
  sub-eq-add = λ x y. refl;
  add_whole = units_add;
}
