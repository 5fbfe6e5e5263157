-- ===== src/Base/Lists.antt =====
-- Lists measured by native numbers, under the library's names.
use Prim.Native.Nat.{ℕ, zero, suc, ◌+◌, ◌-◌, ◌≤◌}
use mathlib.Core.Path.{◌≡◌, refl, ap, ◌∙◌}
use mathlib.Core.Bool.{Bool, true, false, ◌&&◌, ◌||◌}
use mathlib.Core.List.{List, [], ◌∷◌, ◌++◌, map}
use mathlib.Core.Logic.{◌⊎◌, inl, inr}
use native.Mathlib.Omega.{arith}
use poly_market_prediction_b.Base.Tests.{if◌then◌else◌}

module _ {ℓ} {A : Type ℓ} where
  abbrev pub length : List A → ℕ
  length [] = 0
  length (x ∷ xs) = suc (length xs)

  abbrev pub take : ℕ → List A → List A
  take zero xs = []
  take (suc n) [] = []
  take (suc n) (x ∷ xs) = x ∷ take n xs

  abbrev pub drop : ℕ → List A → List A
  drop zero xs = xs
  drop (suc n) [] = []
  drop (suc n) (x ∷ xs) = drop n xs

  -- `xs[-n:]` for a positive `n`, and a queue cut down to its newest `n` elements.
  abbrev pub last_n : ℕ → List A → List A
  last_n n xs = drop (length xs - n) xs

  -- A comprehension with an `if`, over a Boolean test.
  abbrev pub select : (A → Bool) → List A → List A
  select p [] = []
  select p (x ∷ xs) = if p x then x ∷ select p xs else select p xs

  -- Python's `any` and `all`.
  abbrev pub any : (A → Bool) → List A → Bool
  any p [] = false
  any p (x ∷ xs) = p x || any p xs

  abbrev pub all : (A → Bool) → List A → Bool
  all p [] = true
  all p (x ∷ xs) = p x && all p xs

  abbrev pub All {κ} : (A → Type κ) → List A → Type κ
  All Q [] = Unit
  All Q (first ∷ rest) = Q first × All Q rest

  -- One of the elements meets a predicate.
  abbrev pub Some : (A → Type 0) → List A → Type 0
  Some Q [] = ⊥
  Some Q (first ∷ rest) = Q first ⊎ Some Q rest

module _ {ℓ} {A : Type ℓ} where
  pub length-append : (xs ys : List A) → length (xs ++ ys) ≡ length xs + length ys
  length-append [] ys = omega arith
  length-append (x ∷ xs) ys = omega (arith, length-append xs ys)

  pub length-take-le : (n : ℕ) (xs : List A) → length (take n xs) ≤ n
  length-take-le zero xs = omega arith
  length-take-le (suc n) [] = omega arith
  length-take-le (suc n) (x ∷ xs) = omega (arith, length-take-le n xs)

  pub length-drop : (n : ℕ) (xs : List A) → length (drop n xs) ≡ length xs - n
  length-drop zero xs = omega arith
  length-drop (suc n) [] = omega arith
  length-drop (suc n) (x ∷ xs) = omega (arith, length-drop n xs)

  pub length-last_n-le : (n : ℕ) (xs : List A) → length (last_n n xs) ≤ n
  length-last_n-le n xs = omega (arith, length-drop (length xs - n) xs)

  pub length-select-le : (p : A → Bool) (xs : List A) → length (select p xs) ≤ length xs
  length-select-le p [] = omega arith
  length-select-le p (x ∷ xs) = ground (arith, length-select-le p xs)

  pub All-append {κ} :
      (Q : A → Type κ) (front back : List A) → All Q front → All Q back → All Q (front ++ back)
  All-append Q [] back left right = right
  All-append Q (x ∷ front) back (first, left) right = (first, All-append Q front back left right)

  pub All-imp {κ μ} :
      (P : A → Type κ) (Q : A → Type μ)
      → ((x : A) → P x → Q x)
      → (xs : List A) → All P xs
      → All Q xs
  All-imp P Q f [] h = tt
  All-imp P Q f (x ∷ xs) (h, hs) = (f x h, All-imp P Q f xs hs)

  pub select-append :
      (p : A → Bool) (xs ys : List A) → select p (xs ++ ys) ≡ select p xs ++ select p ys
  select-append p [] ys = refl
  select-append p (x ∷ xs) ys = ground (arith, select-append p xs ys)

  pub length-map {κ} : {B : Type κ} (f : A → B) (xs : List A) → length (map f xs) ≡ length xs
  length-map f [] = refl
  length-map f (x ∷ xs) = ap suc (length-map f xs)

module _ {ℓ} {A : Type ℓ} where
  pub drop-append :
      (k j : ℕ) (xs ys : List A)
      → k ≤ length xs
      → drop j (drop k xs ++ ys) ≡ drop (k + j) (xs ++ ys)
  drop-append zero j xs ys h = ground arith
  drop-append (suc k) j [] ys h = absurd (omega (arith, h))
  drop-append (suc k) j (x ∷ xs) ys h =
      let e : suc (k + j) ≡ suc k + j = omega arith in
      drop-append k j xs ys (omega arith) ∙ ap (λ n. drop n (x ∷ (xs ++ ys))) e

  pub append_nil : (xs : List A) → xs ++ [] ≡ xs
  append_nil [] = refl
  append_nil (x ∷ xs) = ap (λ ys. x ∷ ys) (append_nil xs)

  pub append_snoc : (xs : List A) (x : A) (ys : List A) → (xs ++ (x ∷ [])) ++ ys ≡ xs ++ (x ∷ ys)
  append_snoc [] x ys = refl
  append_snoc (y ∷ xs) x ys = ap (λ zs. y ∷ zs) (append_snoc xs x ys)

  pub drop-prefix : (k : ℕ) (xs ys : List A) → k ≤ length xs → drop k (xs ++ ys) ≡ drop k xs ++ ys
  drop-prefix zero xs ys h = refl
  drop-prefix (suc k) [] ys h = absurd (omega (arith, h))
  drop-prefix (suc k) (x ∷ xs) ys h = drop-prefix k xs ys (omega (arith, h))

  -- A queue cut down after each part holds what one cut at the end leaves.
  pub last_n-append : (n : ℕ) (xs ys : List A) → last_n n (last_n n xs ++ ys) ≡ last_n n (xs ++ ys)
  last_n-append n xs ys =
      drop-append (length xs - n) (length (last_n n xs ++ ys) - n) xs ys (omega arith)
      ∙ ap (λ k. drop k (xs ++ ys))
          (omega (
            arith,
            length-append (last_n n xs) ys,
            length-append xs ys,
            length-drop (length xs - n) xs,
          ))

  pub Some-append : (Q : A → Type 0) (xs ys : List A) → Some Q xs ⊎ Some Q ys → Some Q (xs ++ ys)
  Some-append Q [] ys (inl h) = absurd h
  Some-append Q [] ys (inr h) = h
  Some-append Q (x ∷ xs) ys (inl (inl h)) = inl h
  Some-append Q (x ∷ xs) ys (inl (inr h)) = inr (Some-append Q xs ys (inl h))
  Some-append Q (x ∷ xs) ys (inr h) = inr (Some-append Q xs ys (inr h))

  pub Some-imp : (P Q : A → Type 0) → ((a : A) → P a → Q a) → (xs : List A) → Some P xs → Some Q xs
  Some-imp P Q f [] h = absurd h
  Some-imp P Q f (x ∷ xs) (inl h) = inl (f x h)
  Some-imp P Q f (x ∷ xs) (inr h) = inr (Some-imp P Q f xs h)
