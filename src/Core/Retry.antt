-- ===== src/Core/Retry.antt =====
-- core/retry.py: the decorator `with_retry`. The wrapped function is its outcome at each attempt.
-- A run is the result with the seconds slept, in order.
pub mod Laws
use poly_market_prediction_b.Base.{
  ℕ, zero, suc, ◌+◌, ◌-◌, ◌^◌, Bool, Option, none, some, List, [], ◌∷◌, ltb, if◌then◌else◌,
}
use poly_market_prediction_b.Number.{Number, of_ℕ, fmin}

-- `Retry-After`: absent, a number, or a text that `float` refuses.
pub data Header (F : Type 0) : Type 0 where
  absent : Header F
  seconds : F → Header F
  malformed : Header F

-- What the wrapped function did: it returned, or raised a 429, another HTTP status, an exception
-- of `retriable`, or any other.
pub data Attempt (F A : Type 0) : Type 0 where
  returned : A → Attempt F A
  rate_limited : Header F → Attempt F A
  http_status : Attempt F A
  transient : Attempt F A
  fatal : Attempt F A

-- What the wrapper raises: what the function raised at an attempt, the ValueError of a malformed
-- header, or the TypeError of `raise None` where no attempt was made.
pub data Result (A : Type 0) : Type 0 where
  ok : A → Result A
  failed_at : ℕ → Result A
  value_error : Result A
  type_error : Result A

-- `raise last_exc`
abbrev pub raise_last : {A : Type 0} → Option ℕ → Result A
raise_last last = elim last [ none ↦ type_error | some k ↦ failed_at k ]

abbrev pub slept : {F A : Type 0} → F → Result A × List F → Result A × List F
slept w (r, ws) = (r, w ∷ ws)

module _ {F : Type 0} ⦃num : Number F⦄ where
  open num use {mul}

  -- `min(base_delay * 2 ** (attempt - 1), max_delay)`
  abbrev pub backoff : F → F → ℕ → F
  backoff base_delay max_delay attempt = fmin (mul base_delay (of_ℕ (2 ^ (attempt - 1)))) max_delay

module _ {F A : Type 0} ⦃num : Number F⦄ where
  -- `left` attempts remain, the next of which is number `attempt`. The loop sleeps after a failure
  -- unless it was the last attempt.
  unfoldable pub attempts : (ℕ → Attempt F A) → F → F → ℕ → ℕ → Option ℕ → Result A × List F
  attempts fn base_delay max_delay zero attempt last = (raise_last last, [])
  attempts fn base_delay max_delay (suc left) attempt last =
      let rest = attempts fn base_delay max_delay left (suc attempt) (some attempt) in
      let again = λ (w : F). if ltb 0 left then slept w rest else rest in
      elim (fn attempt) [
        | returned a ↦ (ok a, [])
        | rate_limited h ↦ elim h [
          | absent ↦ again (backoff base_delay max_delay attempt)
          | seconds s ↦ again (fmin s max_delay)
          | malformed ↦ (value_error, [])
        ]
        | http_status ↦ (failed_at attempt, [])
        | transient ↦ again (backoff base_delay max_delay attempt)
        | fatal ↦ (failed_at attempt, [])
      ]

  -- `with_retry(max_attempts, base_delay, max_delay)` round a function.
  unfoldable pub with_retry : ℕ → F → F → (ℕ → Attempt F A) → Result A × List F
  unfolding attempts
  with_retry max_attempts base_delay max_delay fn =
      attempts fn base_delay max_delay max_attempts 1 none
