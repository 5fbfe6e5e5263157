-- ===== src/Base/Tables.antt =====
-- SQL statements on a table, as functions on its list of rows in the order of their ids:
-- `fetchone` of a SELECT, UPDATE with a WHERE clause, and the id of an inserted row.
use Prim.Native.Nat.{ℕ, suc, ◌+◌, ◌≤◌, max}
use mathlib.Core.Path.{◌≡◌, refl, ap, ◌∙◌, fun_ext}
use mathlib.Core.Bool.{Bool, true, false, ◌||◌}
use mathlib.Core.Option
use mathlib.Core.Option.{Option, none, some, some-injective}
use mathlib.Core.List.{List, [], ◌∷◌, ◌++◌}
use mathlib.Core.Logic.{inl, inr}
use native.Mathlib.Omega.{arith}
use poly_market_prediction_b.Base.Tests.{if◌then◌else◌, is_some, nat_beq, Bool-cases}
use poly_market_prediction_b.Base.Lists.{length, All, All-imp, any}

module _ {ℓ} {A : Type ℓ} where
  -- The first row that meets the WHERE clause.
  abbrev pub fetch_one : (A → Bool) → List A → Option A
  fetch_one p [] = none
  fetch_one p (x ∷ xs) = if p x then some x else fetch_one p xs

  abbrev pub update_where : (A → Bool) → (A → A) → List A → List A
  update_where p f [] = []
  update_where p f (x ∷ xs) = (if p x then f x else x) ∷ update_where p f xs

  -- The id that SQLite gives to a row inserted into a table with an INTEGER PRIMARY KEY.
  abbrev pub next_id : (A → ℕ) → List A → ℕ
  next_id id [] = 1
  next_id id (x ∷ xs) = max (id x + 1) (next_id id xs)

module _ {ℓ} {A : Type ℓ} where
  pub length-update_where :
      (p : A → Bool) (f : A → A) (xs : List A) → length (update_where p f xs) ≡ length xs
  length-update_where p f [] = refl
  length-update_where p f (x ∷ xs) = ap suc (length-update_where p f xs)

  pub All-update_where {κ} :
      (P : A → Type κ) (p : A → Bool) (f : A → A) (xs : List A)
      → ((x : A) → p x ≡ true → P x → P (f x))
      → All P xs
      → All P (update_where p f xs)
  All-update_where P p f [] keep h = tt
  All-update_where P p f (x ∷ xs) keep (h, hs) =
      (ground (arith, keep x), All-update_where P p f xs keep hs)

  -- An update that keeps what a test reads leaves the row found, updated if it meets the clause.
  pub fetch_one-update_where :
      (q p : A → Bool) (f : A → A) (xs : List A)
      → ((x : A) → q (f x) ≡ q x)
      → fetch_one q (update_where p f xs)
        ≡ Option.map (λ x. if p x then f x else x) (fetch_one q xs)
  fetch_one-update_where q p f [] keep = refl
  fetch_one-update_where q p f (x ∷ xs) keep =
      ground (arith, keep x, fetch_one-update_where q p f xs keep)

  pub All-fetch_one {κ} :
      (P : A → Type κ) (p : A → Bool) (xs : List A) {x : A}
      → All P xs
      → fetch_one p xs ≡ some x
      → P x × (p x ≡ true)
  All-fetch_one P p [] h e = cc
  All-fetch_one P p (y ∷ ys) {x} h e =
      grind (arith, λ (g : fetch_one p ys ≡ some x). All-fetch_one P p ys h.1 g)

module _ {ℓ} {A : Type ℓ} where
  pub any-update_where :
      (q p : A → Bool) (f : A → A) (xs : List A)
      → ((x : A) → q (f x) ≡ q x)
      → any q (update_where p f xs) ≡ any q xs
  any-update_where q p f [] keep = refl
  any-update_where q p f (x ∷ xs) keep = ground (arith, keep x, any-update_where q p f xs keep)

  pub any-append : (q : A → Bool) (xs ys : List A) → any q (xs ++ ys) ≡ (any q xs || any q ys)
  any-append q [] ys = refl
  any-append q (x ∷ xs) ys = ground (arith, any-append q xs ys)

  pub any_of_fetch_one : (p : A → Bool) (xs : List A) → any p xs ≡ is_some (fetch_one p xs)
  any_of_fetch_one p [] = refl
  any_of_fetch_one p (x ∷ xs) = ground (arith, any_of_fetch_one p xs)

  -- No row is like a later one.
  abbrev pub Distinct : (A → A → Bool) → List A → Type 0
  Distinct same [] = Unit
  Distinct same (x ∷ xs) = (any (same x) xs ≡ false) × Distinct same xs

  pub Distinct-update_where :
      (same : A → A → Bool) (p : A → Bool) (f : A → A) (xs : List A)
      → ((x y : A) → same (f x) y ≡ same x y)
      → ((x y : A) → same x (f y) ≡ same x y)
      → Distinct same xs
      → Distinct same (update_where p f xs)
  Distinct-update_where same p f [] left right h = tt
  Distinct-update_where same p f (x ∷ xs) left right (h, hs) = (
    any-update_where (same (if p x then f x else x)) p f xs (right _)
        ∙ (rw (fun_ext (left_if x)) h),
    Distinct-update_where same p f xs left right hs,
  )
    where
      left_if : (x y : A) → same (if p x then f x else x) y ≡ same x y
      left_if x y = ground (arith, left x y)

  pub Distinct-append :
      (same : A → A → Bool) (xs : List A) (y : A)
      → ((x z : A) → same x z ≡ same z x)
      → any (same y) xs ≡ false
      → Distinct same xs
      → Distinct same (xs ++ (y ∷ []))
  Distinct-append same [] y swap fresh h = (refl, tt)
  Distinct-append same (x ∷ xs) y swap fresh (h, hs) =
      ground (arith, swap x y, any-append (same x) xs (y ∷ []), Distinct-append same xs y swap)

  pub fetch_one-append :
      (p : A → Bool) (xs : List A) (y : A)
      → any p xs ≡ false
      → fetch_one p (xs ++ (y ∷ [])) ≡ (if p y then some y else none)
  fetch_one-append p [] y h = refl
  fetch_one-append p (x ∷ xs) y h = ground (arith, fetch_one-append p xs y)

  pub any-lt-next_id :
      (id : A → ℕ) (i : ℕ) (xs : List A)
      → next_id id xs ≤ i
      → any (λ x. nat_beq (id x) i) xs ≡ false
  any-lt-next_id id i [] h = refl
  any-lt-next_id id i (x ∷ xs) h = ground (arith, any-lt-next_id id i xs)

  -- An update where what a second predicate says of the rows may be used.
  pub All-update_where_of {κ μ} :
      (P : A → Type κ) (Q : A → Type μ) (p : A → Bool) (f : A → A) (xs : List A)
      → ((x : A) → p x ≡ true → Q x → P x → P (f x))
      → All Q xs
      → All P xs
      → All P (update_where p f xs)
  All-update_where_of P Q p f [] keep g h = tt
  All-update_where_of P Q p f (x ∷ xs) keep (g, gs) (h, hs) =
      (ground (arith, keep x), All-update_where_of P Q p f xs keep gs hs)

  pub All-of_any : (p : A → Bool) (xs : List A) → any p xs ≡ false → All (λ x. p x ≡ false) xs
  All-of_any p [] h = tt
  All-of_any p (x ∷ xs) h = (ground arith, All-of_any p xs (ground arith))

  -- Where rows are distinct, all that meet a clause which names one row are the row found.
  pub fetch_one_unique :
      (same : A → A → Bool) (p : A → Bool) (xs : List A) {row : A}
      → ((x y : A) → p x ≡ true → same x y ≡ p y)
      → Distinct same xs
      → fetch_one p xs ≡ some row
      → All (λ x. p x ≡ true → x ≡ row) xs
  fetch_one_unique same p [] names h e = tt
  fetch_one_unique same p (x ∷ xs) {row} names (h, hs) e = elim (Bool-cases (p x)) [
    | inl found ↦ (
      λ _. some-injective _ _ (rw found at e),
      All-imp (λ y. same x y ≡ false) (λ y. p y ≡ true → y ≡ row)
          (λ y differ found'. absurd (ground (arith, names x y found))) xs
          (All-of_any (same x) xs h),
    )
    | inr other ↦
        (λ found. absurd (ground arith), fetch_one_unique same p xs names hs (rw other at e))
  ]
