-- ===== src/Base/Perms.antt =====
-- Lists in another order: what a selection of them keeps.
use mathlib.Core.List.Permᴰ
use mathlib.Core.List.Permᴰ.{Permᴰ}
use mathlib.Core.Path.{subst}
use poly_market_prediction_b.Base.{
  suc, Bool, true, false, ◌≡◌, refl, ap, ◌∙◌, List, ◌∷◌, select, length, if◌then◌else◌,
}

module _ {A : Type 0} where
  if_cons :
      (c : Bool) (a : A) {xs ys : List A}
      → Permᴰ xs ys
      → Permᴰ (if c then a ∷ xs else xs) (if c then a ∷ ys else ys)
  if_cons true a q = Permᴰ.cons refl q
  if_cons false a q = q

  if_swap :
      (c d : Bool) (a b : A) (l : List A)
      → let right : Bool → A → List A → List A = λ c x xs. if c then x ∷ xs else xs in
        Permᴰ (right c a (right d b l)) (right d b (right c a l))
  if_swap true true a b l = Permᴰ.swap refl refl
  if_swap true false a b l = Permᴰ.refl _
  if_swap false d a b l = Permᴰ.refl _

  pub select-perm :
      (p : A → Bool) {xs ys : List A} → Permᴰ xs ys → Permᴰ (select p xs) (select p ys)
  select-perm p Permᴰ.nil = Permᴰ.nil
  select-perm p (Permᴰ.cons {a = a} {l₁ = xs} {l₂ = ys} e q) =
      subst (λ b. Permᴰ (select p (a ∷ xs)) (select p (b ∷ ys))) e
        (if_cons (p a) a (select-perm p q))
  select-perm p (Permᴰ.swap {a = a} {b = b} {b' = b'} {l = l} e d) =
      subst (λ a'. Permᴰ (select p (a ∷ b ∷ l)) (select p (a' ∷ b' ∷ l))) d
        (subst (λ b'. Permᴰ (select p (a ∷ b ∷ l)) (select p (b ∷ b' ∷ l))) e
          (if_swap (p a) (p b) a b (select p l)))
  select-perm p (Permᴰ.trans q r) = Permᴰ.trans (select-perm p q) (select-perm p r)

  pub length-perm : {xs ys : List A} → Permᴰ xs ys → length xs ≡ length ys
  length-perm Permᴰ.nil = refl
  length-perm (Permᴰ.cons e q) = ap suc (length-perm q)
  length-perm (Permᴰ.swap e d) = refl
  length-perm (Permᴰ.trans p q) = length-perm p ∙ length-perm q
