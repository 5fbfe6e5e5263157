-- ===== src/Number/Fixed.antt =====
-- Numbers that meet the laws and run in tests: integers that count millionths.
pub mod Laws
use poly_market_prediction_b.Base.{ℕ, suc, ◌+◌, ◌-◌, ◌*◌, ◌/◌, ◌^◌, ◌&&◌}
use poly_market_prediction_b.Number.{Number}
use poly_market_prediction_b.Number.Integer.{
  ℤ, pos, negsuc, ◌+ℤ◌, negate, leb_ℤ, ltb_ℤ, on_magnitude,
}

abbrev pub Fixed : Type 0
Fixed = ℤ

abbrev pub unit : ℕ
unit = 1_000_000

-- A product or quotient of magnitudes, with the sign of the two.
abbrev signed : (ℕ → ℕ → ℕ) → ℤ → ℤ → ℤ
signed f (pos m) b = on_magnitude (f m) b
signed f (negsuc m) b = negate (on_magnitude (f (suc m)) b)

abbrev step_of : ℕ → ℕ
step_of k = 10 ^ (6 - k)

unfoldable pub round_to : ℕ → ℕ → ℕ
round_to s n = (n + s / 2) / s * s

unfoldable pub times : ℕ → ℕ → ℕ
times a b = a * b / 1_000_000

unfoldable pub over : ℕ → ℕ → ℕ
over a b = a * 1_000_000 / b

unfoldable pub units : ℕ → ℕ → ℕ
units m k = m * 1_000_000 / 10 ^ k

instance abbrev pub fixed_number : Number Fixed
fixed_number = record {
  dec = λ m k. pos (units m k);
  add = ◌+ℤ◌;
  sub = λ a b. a +ℤ negate b;
  mul = signed times;
  div = signed over;
  neg = negate;
  round = λ k a. on_magnitude (round_to (step_of k)) a;
  lt = ltb_ℤ;
  le = leb_ℤ;
  eq = λ a b. leb_ℤ a b && leb_ℤ b a;
}
