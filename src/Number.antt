-- ===== src/Number.antt =====
-- Python's `float` as the program uses it: constants, arithmetic, comparisons, `round`.
-- The number type is a parameter of every model. The operations are total here; a division by a
-- zero raises in Python, so the code's `/` is `divide`, which returns `none` there.
pub mod Order
pub mod Integer
pub mod Fixed
use poly_market_prediction_b.Base.{ℕ, Bool, Option, none, some, if◌then◌else◌}

-- `dec m k` is the constant m * 10^-k, as 0.99 is `dec 99 2`, and `round k x` is `round(x, k)`.
-- `div x y` is the quotient at a `y` that is no zero.
pub record Number (F : Type 0) : Type 0 where
  pub dec : ℕ → ℕ → F
  pub add : F → F → F
  pub sub : F → F → F
  pub mul : F → F → F
  pub div : F → F → F
  pub neg : F → F
  pub round : ℕ → F → F
  pub lt : F → F → Bool
  pub le : F → F → Bool
  pub eq : F → F → Bool

module _ {F : Type 0} ⦃num : Number F⦄ where
  open num use {dec, div, neg, lt, eq}

  abbrev pub zero_f : F
  zero_f = dec 0 0

  abbrev pub one_f : F
  one_f = dec 1 0

  -- An integer met by a float.
  abbrev pub of_ℕ : ℕ → F
  of_ℕ n = dec n 0

  -- `x / y`
  abbrev pub divide : F → F → Option F
  divide x y = if eq y zero_f then none else some (div x y)

  -- `max(x, y)` and `min(x, y)`: the second argument only where it is strictly better.
  unfoldable pub fmax : F → F → F
  fmax x y = if lt x y then y else x

  unfoldable pub fmin : F → F → F
  fmin x y = if lt y x then y else x

  -- `abs(x)`
  abbrev pub fabs : F → F
  fabs x = if lt x zero_f then neg x else x
