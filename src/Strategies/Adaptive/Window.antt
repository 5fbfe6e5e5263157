-- ===== src/Strategies/Adaptive/Window.antt =====
-- strategies/adaptive.py: the deques hold exactly the values of the window.
use native.Mathlib.Nat.{le_refl as le_refl_nat}
use poly_market_prediction_b.Base.{
  ℕ, ◌≤◌, String, Bool, true, false, not, ◌≡◌, refl, List, [], ◌∷◌, ◌++◌, ◌==◌, string_eq,
  if◌then◌else◌, get_or, arith, select, All, All-append, Bool-cases, inl, inr,
}
use mathlib.Core.List.{map}
use poly_market_prediction_b.Base.Dict.{lookup, lookup-insert, beq_self}
use poly_market_prediction_b.Number.{Number, fabs}
use poly_market_prediction_b.Strategies.Adaptive.{
  Deque, Store, Limits, AdaptiveThreshold, is_old, trim, trimmed, recorded, update,
  percentile_value, get_cvd_threshold, has_enough_data,
}

-- The times do not decrease.
unfoldable pub IsTimed : {F : Type 0} → Deque F → Type 0
IsTimed [] = Unit
IsTimed (e ∷ dq) = All (λ x. e.0 ≤ x.0) dq × IsTimed dq

module _ {F : Type 0} where
  abbrev pub is_recent : Limits → ℕ → ℕ × F → Bool
  is_recent l now e = not (is_old l now e.0)

  select_recent :
      (l : Limits) (now t : ℕ) (dq : Deque F)
      → is_old l now t ≡ false
      → All (λ x. t ≤ x.0) dq
      → select (is_recent l now) dq ≡ dq
  select_recent l now t [] h later = refl
  select_recent l now t (e ∷ dq) h later = ground (arith, select_recent l now t dq h later.1)

  -- Dropping from the front alone drops all old entries, since the times do not decrease.
  trim-eq-select :
      (l : Limits) (now : ℕ) (dq : Deque F)
      → IsTimed dq
      → trim l now dq ≡ select (is_recent l now) dq
  unfolding trim IsTimed
  trim-eq-select l now [] h = refl
  trim-eq-select l now (e ∷ dq) h = elim (Bool-cases (is_old l now e.0)) [
    | inl old ↦ ground (arith, trim-eq-select l now dq h.1)
    | inr young ↦ ground (arith, select_recent l now e.0 dq young h.0)
  ]

module _ {F : Type 0} ⦃num : Number F⦄ where
  -- The deque of an asset, empty where there is none.
  abbrev pub deque_of : String → Store F → Deque F
  deque_of asset store = get_or (lookup asset store) []

  -- Where the times of an asset's CVD values do not decrease, an update keeps exactly those within
  -- the window, adds the new absolute value, and leaves every other asset.
  pub update_lem :
      (now : ℕ) (asset other : String) (cvd vwap : F) (a : AdaptiveThreshold F)
      → IsTimed (deque_of asset a.cvd)
      → deque_of other (update now asset cvd vwap a).cvd ≡ (
          if other == asset
          then select (is_recent a.limits now) (deque_of asset a.cvd) ++ ((now, fabs cvd) ∷ [])
          else deque_of other a.cvd)
  unfolding update recorded trimmed
  update_lem now asset other cvd vwap a h = ground (
    arith,
    trim-eq-select a.limits now (deque_of asset a.cvd) h,
    lookup-insert asset other (trim a.limits now (deque_of asset a.cvd) ++ ((now, fabs cvd) ∷ []))
        a.cvd,
  )

  -- Where the times do not decrease and there are enough data at a time, the CVD threshold at that
  -- time is the percentile of the values within the window, whatever the fallback is.
  pub get_cvd_threshold-has_enough_data :
      (percentile : List F → ℕ → F) (now now' : ℕ) (asset : String) (fallback : F)
      (a : AdaptiveThreshold F)
      → IsTimed (deque_of asset a.cvd)
      → (has_enough_data now now' asset a).0 ≡ true
      → (get_cvd_threshold percentile now asset fallback a).0
        ≡ percentile
            (map (λ e. e.1) (select (is_recent a.limits now) (deque_of asset a.cvd)))
            a.limits.percentile
  unfolding has_enough_data get_cvd_threshold trimmed percentile_value
  get_cvd_threshold-has_enough_data percentile now now' asset fallback a h enough =
      ground (arith, trim-eq-select a.limits now (deque_of asset a.cvd) h)

module _ {F : Type 0} where
  All-trim :
      (P : ℕ × F → Type 0) (l : Limits) (now : ℕ) (dq : Deque F) → All P dq → All P (trim l now dq)
  unfolding trim
  All-trim P l now [] h = tt
  All-trim P l now (e ∷ dq) h = elim (Bool-cases (is_old l now e.0)) [
    | inl old ↦ rw old (All-trim P l now dq h.1)
    | inr young ↦ rw young h
  ]

  trim-IsTimed : (l : Limits) (now : ℕ) (dq : Deque F) → IsTimed dq → IsTimed (trim l now dq)
  unfolding trim IsTimed
  trim-IsTimed l now [] h = tt
  trim-IsTimed l now (e ∷ dq) h = elim (Bool-cases (is_old l now e.0)) [
    | inl old ↦ rw old (trim-IsTimed l now dq h.1)
    | inr young ↦ rw young h
  ]

  append-IsTimed :
      (now : ℕ) (x : F) (dq : Deque F)
      → IsTimed dq
      → All (λ e. e.0 ≤ now) dq
      → IsTimed (dq ++ ((now, x) ∷ []))
  unfolding IsTimed
  append-IsTimed now x [] h before = (tt, tt)
  append-IsTimed now x (e ∷ dq) h before =
      (All-append _ dq ((now, x) ∷ []) h.0 (before.0, tt), append-IsTimed now x dq h.1 before.1)

module _ {F : Type 0} ⦃num : Number F⦄ where
  -- An update at a time that no recorded time exceeds keeps the times of the CVD values of its asset
  -- in order, none later than the update.
  pub update-IsTimed :
      (now : ℕ) (asset : String) (cvd vwap : F) (a : AdaptiveThreshold F)
      → IsTimed (deque_of asset a.cvd)
      → All (λ (e : ℕ × F). e.0 ≤ now) (deque_of asset a.cvd)
      → let dq = deque_of asset (update now asset cvd vwap a).cvd in
        IsTimed dq × All (λ (e : ℕ × F). e.0 ≤ now) dq
  unfolding update recorded trimmed
  update-IsTimed now asset cvd vwap a h before =
      let kept = trim a.limits now (deque_of asset a.cvd) in
      let sound = trim-IsTimed a.limits now (deque_of asset a.cvd) h in
      let early = All-trim _ a.limits now (deque_of asset a.cvd) before in
      let found : deque_of asset (update now asset cvd vwap a).cvd
          ≡ kept ++ ((now, fabs cvd) ∷ []) =
        ground (
          arith,
          lookup-insert asset asset (kept ++ ((now, fabs cvd) ∷ [])) a.cvd,
          beq_self asset,
        ) in
      rw found (
        append-IsTimed now (fabs cvd) kept sound early,
        All-append _ kept ((now, fabs cvd) ∷ []) early (le_refl_nat now, tt),
      )
