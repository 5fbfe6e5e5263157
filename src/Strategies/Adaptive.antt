-- ===== src/Strategies/Adaptive.antt =====
-- strategies/adaptive.py: thresholds from the percentile of a rolling window of absolute values.
-- numpy's percentile is an argument. A time is in microseconds, and is read again where the code does.
pub mod Window
use poly_market_prediction_b.Base.{
  ℕ, ◌+◌, ◌*◌, String, Bool, false, Option, none, some, List, [], ◌∷◌, ◌++◌, string_eq, ◌&&◌,
  if◌then◌else◌, ltb, leb, length, map, get_or,
}
use poly_market_prediction_b.Base.Dict.{Dict, lookup, insert}
use poly_market_prediction_b.Number.{Number, fabs}

-- A `deque` of times and absolute values, the oldest first.
abbrev pub Deque : Type 0 → Type 0
Deque F = List (ℕ × F)

abbrev pub Store : Type 0 → Type 0
Store F = Dict String (Deque F)

pub record Limits : Type 0 where
  pub window_seconds : ℕ
  pub percentile : ℕ
  pub min_samples : ℕ

pub record AdaptiveThreshold (F : Type 0) : Type 0 where
  pub limits : Limits
  pub cvd : Store F
  pub vwap : Store F

-- `t < now - window_seconds`
abbrev pub is_old : Limits → ℕ → ℕ → Bool
is_old l now t = ltb (t + l.window_seconds * 1_000_000) now

module _ {F : Type 0} where
  -- The loop of `popleft`.
  unfoldable pub trim : Limits → ℕ → Deque F → Deque F
  trim l now [] = []
  trim l now (e ∷ dq) = let rest = trim l now dq in if is_old l now e.0 then rest else e ∷ dq

  -- The deque of an asset, created where it is missing, with the old entries dropped.
  unfoldable pub trimmed : Limits → ℕ → String → Store F → Deque F
  trimmed l now asset store = trim l now (get_or (lookup asset store) [])

  unfoldable pub percentile_value : (List F → ℕ → F) → Limits → Deque F → F → F
  percentile_value percentile l dq fallback =
      if ltb (length dq) l.min_samples
      then fallback
      else percentile (map (λ e. e.1) dq) l.percentile

  unfoldable pub get_cvd_threshold :
      (List F → ℕ → F) → ℕ → String → F → AdaptiveThreshold F → F × AdaptiveThreshold F
  unfolding trimmed percentile_value
  get_cvd_threshold percentile now asset fallback a =
      let dq = trimmed a.limits now asset a.cvd in
      (percentile_value percentile a.limits dq fallback, record a { cvd = insert asset dq a.cvd })

  unfoldable pub get_vwap_threshold :
      (List F → ℕ → F) → ℕ → String → F → AdaptiveThreshold F → F × AdaptiveThreshold F
  unfolding trimmed percentile_value
  get_vwap_threshold percentile now asset fallback a =
      let dq = trimmed a.limits now asset a.vwap in
      (percentile_value percentile a.limits dq fallback, record a { vwap = insert asset dq a.vwap })

  -- Neither store is touched where one of them lacks the asset.
  unfoldable pub has_enough_data : ℕ → ℕ → String → AdaptiveThreshold F → Bool × AdaptiveThreshold F
  has_enough_data now now' asset a = elim (lookup asset a.cvd) [
    | none ↦ (false, a)
    | some cvd ↦ elim (lookup asset a.vwap) [
      | none ↦ (false, a)
      | some vwap ↦
          let cvd' = trim a.limits now cvd in
          let vwap' = trim a.limits now' vwap in
          (
            leb a.limits.min_samples (length cvd') && leb a.limits.min_samples (length vwap'),
            record a { cvd = insert asset cvd' a.cvd; vwap = insert asset vwap' a.vwap },
          )
    ]
  ]

module _ {F : Type 0} ⦃num : Number F⦄ where
  unfoldable pub recorded : Limits → ℕ → String → F → Store F → Store F
  unfolding trimmed
  recorded l now asset x store =
      insert asset (trimmed l now asset store ++ ((now, fabs x) ∷ [])) store

  unfoldable pub update : ℕ → String → F → F → AdaptiveThreshold F → AdaptiveThreshold F
  unfolding recorded
  update now asset cvd vwap_change a = record a {
    cvd = recorded a.limits now asset cvd a.cvd;
    vwap = recorded a.limits now asset vwap_change a.vwap;
  }
