-- ===== src/Feeds/Binance/Window.antt =====
-- feeds/binance_ws.py: the windows of the trades are those of the last two minutes.
use poly_market_prediction_b.Base.{
  ℕ, ◌≤◌, Bool, false, not, ◌≡◌, inl, inr, refl, sym, ap, ◌∙◌, List, [], ◌∷◌, ◌++◌, select,
  select-append, All, All-append, arith, Bool-cases,
}
use poly_market_prediction_b.Feeds.Binance.{is_past, trim}

module _ {X : Type 0} where
  -- The times do not decrease.
  abbrev pub IsTimed : List (ℕ × X) → Type 0
  IsTimed [] = Unit
  IsTimed ((t, x) ∷ es) = All (λ (e : ℕ × X). t ≤ e.0) es × IsTimed es

  abbrev pub is_recent : ℕ → ℕ × X → Bool
  is_recent now e = not (is_past now e.0)

  select_recent :
      (now t : ℕ) (es : List (ℕ × X))
      → is_past now t ≡ false
      → All (λ (e : ℕ × X). t ≤ e.0) es
      → select (is_recent now) es ≡ es
  select_recent now t [] h later = refl
  select_recent now t (e ∷ es) h (first, later) = ground (arith, select_recent now t es h later)

  -- Dropping from the front alone drops all that is past, since the times do not decrease.
  trim-eq-select :
      (now : ℕ) (es : List (ℕ × X)) → IsTimed es → trim now es ≡ select (is_recent now) es
  unfolding trim
  trim-eq-select now [] h = refl
  trim-eq-select now ((t, x) ∷ es) (later, h) = elim (Bool-cases (is_past now t)) [
    | inl past ↦ ground (arith, past, trim-eq-select now es h)
    | inr young ↦ ground (arith, young, select_recent now t es young later)
  ]

  All-select :
      (P : ℕ × X → Type 0) (p : ℕ × X → Bool) (es : List (ℕ × X)) → All P es → All P (select p es)
  All-select P p [] h = tt
  All-select P p (e ∷ es) (h, hs) = ground (arith, All-select P p es hs)

  select-IsTimed : (p : ℕ × X → Bool) (es : List (ℕ × X)) → IsTimed es → IsTimed (select p es)
  select-IsTimed p [] h = tt
  select-IsTimed p ((t, x) ∷ es) (later, h) =
      ground (arith, select-IsTimed p es h, All-select (λ e. t ≤ e.0) p es later)

  pub snoc-IsTimed :
      (es : List (ℕ × X)) (now : ℕ) (x : X)
      → IsTimed es
      → All (λ (e : ℕ × X). e.0 ≤ now) es
      → IsTimed (es ++ ((now, x) ∷ []))
  snoc-IsTimed [] now x h before = (tt, tt)
  snoc-IsTimed ((t, y) ∷ es) now x (later, h) (first, before) = (
    All-append (λ (e : ℕ × X). t ≤ e.0) es ((now, x) ∷ []) later (first, tt),
    snoc-IsTimed es now x h before,
  )

  select-select :
      (last now : ℕ) (es : List (ℕ × X))
      → last ≤ now
      → select (is_recent now) (select (is_recent last) es) ≡ select (is_recent now) es
  select-select last now [] h = refl
  select-select last now (e ∷ es) h = ground (arith, select-select last now es h)

  -- A window that holds what was recent holds, with a new entry, what is recent then.
  pub trim-snoc :
      (last now : ℕ) (es : List (ℕ × X)) (x : X)
      → last ≤ now
      → IsTimed es
      → All (λ (e : ℕ × X). e.0 ≤ now) es
      → trim now (select (is_recent last) es ++ ((now, x) ∷ []))
        ≡ select (is_recent now) (es ++ ((now, x) ∷ []))
  trim-snoc last now es x h timed before =
      let window = select (is_recent last) es in
      trim-eq-select now (window ++ ((now, x) ∷ [])) (
        snoc-IsTimed window now x (select-IsTimed (is_recent last) es timed)
          (All-select (λ e. e.0 ≤ now) (is_recent last) es before))
      ∙ select-append (is_recent now) window ((now, x) ∷ [])
      ∙ ap (λ front. front ++ select (is_recent now) ((now, x) ∷ [])) (select-select last now es h)
      ∙ sym (select-append (is_recent now) es ((now, x) ∷ []))
