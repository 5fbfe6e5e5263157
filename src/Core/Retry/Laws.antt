-- ===== src/Core/Retry/Laws.antt =====
-- core/retry.py: the first success is returned, a failure is raised once the attempts are used up,
-- and every wait is capped.
use native.Mathlib.Nat.{add-zero}
use poly_market_prediction_b.Base.{
  ℕ, zero, suc, ◌+◌, ◌-◌, ◌≤◌, ◌<◌, ◌≡◌, Bool, true, false, Option, none, some, ltb, if◌then◌else◌,
  arith, length, All,
}
use poly_market_prediction_b.Number.{Number}
use poly_market_prediction_b.Number.Order.{◌≼◌, IsOrdered, fmin-le_right}
use poly_market_prediction_b.Core.Retry.{
  absent, seconds, malformed, Attempt, returned, rate_limited, http_status, transient, fatal, ok,
  value_error, failed_at, attempts, with_retry,
}

-- The failures after which the loop goes on: a 429 whose header is absent or a number, and an
-- exception of `retriable`.
abbrev pub is_retried : {F A : Type 0} → Attempt F A → Bool
is_retried (returned a) = false
is_retried (rate_limited absent) = true
is_retried (rate_limited (seconds s)) = true
is_retried (rate_limited malformed) = false
is_retried http_status = false
is_retried transient = true
is_retried fatal = false

module _ {F A : Type 0} ⦃num : Number F⦄ (fn : ℕ → Attempt F A) (base_delay max_delay : F) where
  shift : (m n : ℕ) → suc m + n ≡ m + suc n
  shift m n = omega arith

  -- What a retried failure leaves to the later attempts.
  attempts_retried :
      (left k : ℕ) (last : Option ℕ)
      → is_retried (fn k) ≡ true
      → let rest = attempts fn base_delay max_delay left (suc k) (some k) in
        let run = attempts fn base_delay max_delay (suc left) k last in
        (run.0 ≡ rest.0)
        × (length run.1 ≡ (if ltb 0 left then suc (length rest.1) else length rest.1))
  unfolding attempts
  attempts_retried left k last h = ground arith

  attempts_success :
      (i left k : ℕ) (last : Option ℕ) (a : A)
      → i < left
      → ((j : ℕ) → j < i → is_retried (fn (k + j)) ≡ true)
      → fn (k + i) ≡ returned a
      → let run = attempts fn base_delay max_delay left k last in
        (run.0 ≡ ok a) × (length run.1 ≡ i)
  unfolding attempts
  attempts_success zero zero k last a lt h e = absurd (omega arith)
  attempts_success zero (suc left) k last a lt h e =
      let first : fn k ≡ returned a = rw add-zero at e in ground arith
  attempts_success (suc i) zero k last a lt h e = absurd (omega arith)
  attempts_success (suc i) (suc left) k last a lt h e =
      let failed : is_retried (fn k) ≡ true = rw add-zero at (h 0 (omega arith)) in
      let rest =
        attempts_success i left (suc k) (some k) a (omega arith)
          (λ j lt'. rw (shift k j) (h (suc j) (omega arith))) (rw (shift k i) e) in
      ground (arith, attempts_retried left k last failed)

  attempts_exhausted :
      (left k : ℕ) (last : Option ℕ)
      → ((j : ℕ) → j < suc left → is_retried (fn (k + j)) ≡ true)
      → let run = attempts fn base_delay max_delay (suc left) k last in
        (run.0 ≡ failed_at (k + left)) × (length run.1 ≡ left)
  unfolding attempts
  attempts_exhausted zero k last h =
      let failed : is_retried (fn k) ≡ true = rw add-zero at (h 0 (omega arith)) in
      rw add-zero (ground (arith, attempts_retried 0 k last failed))
  attempts_exhausted (suc left) k last h =
      let failed : is_retried (fn k) ≡ true = rw add-zero at (h 0 (omega arith)) in
      let rest =
        attempts_exhausted left (suc k) (some k)
          (λ j lt'. rw (shift k j) (h (suc j) (omega arith))) in
      rw (← shift k left) (ground (arith, attempts_retried (suc left) k last failed))

  attempts_malformed :
      (i left k : ℕ) (last : Option ℕ)
      → i < left
      → ((j : ℕ) → j < i → is_retried (fn (k + j)) ≡ true)
      → fn (k + i) ≡ rate_limited malformed
      → (attempts fn base_delay max_delay left k last).0 ≡ value_error
  unfolding attempts
  attempts_malformed zero zero k last lt h e = absurd (omega arith)
  attempts_malformed zero (suc left) k last lt h e =
      let first : fn k ≡ rate_limited malformed = rw add-zero at e in ground arith
  attempts_malformed (suc i) zero k last lt h e = absurd (omega arith)
  attempts_malformed (suc i) (suc left) k last lt h e =
      let failed : is_retried (fn k) ≡ true = rw add-zero at (h 0 (omega arith)) in
      let rest =
        attempts_malformed i left (suc k) (some k) (omega arith)
          (λ j lt'. rw (shift k j) (h (suc j) (omega arith))) (rw (shift k i) e) in
      ground (arith, attempts_retried left k last failed)

  waits_bound :
      IsOrdered F
      → (left k : ℕ) (last : Option ℕ)
      → let run = attempts fn base_delay max_delay left k last in
        All (λ w. w ≼ max_delay) run.1 × (length run.1 ≤ left - 1)
  unfolding attempts
  waits_bound laws zero k last = omega arith
  waits_bound laws (suc left) k last =
      grind (arith, waits_bound laws left (suc k) (some k), fmin-le_right laws)

  -- If the first `i` attempts fail in a way that is retried, and attempt `i + 1`, which is within
  -- the limit, returns a value, then that value is returned after `i` waits.
  pub with_retry_success :
      (max_attempts i : ℕ) (a : A)
      → i < max_attempts
      → ((j : ℕ) → j < i → is_retried (fn (1 + j)) ≡ true)
      → fn (1 + i) ≡ returned a
      → let run = with_retry max_attempts base_delay max_delay fn in
        (run.0 ≡ ok a) × (length run.1 ≡ i)
  unfolding with_retry
  with_retry_success max_attempts i a = attempts_success i max_attempts 1 none a

  -- If every attempt fails in a way that is retried, and there is at least one attempt, then the
  -- failure of the last one is raised, with a wait between any two attempts and none after the last.
  pub with_retry_exhausted :
      (n : ℕ)
      → ((j : ℕ) → j < suc n → is_retried (fn (1 + j)) ≡ true)
      → let run = with_retry (suc n) base_delay max_delay fn in
        (run.0 ≡ failed_at (1 + n)) × (length run.1 ≡ n)
  unfolding with_retry
  with_retry_exhausted n = attempts_exhausted n 1 none

  -- Over ordered numbers no wait is longer than the maximal delay, and there are fewer waits than
  -- attempts, whatever the function does.
  pub with_retry_waits :
      IsOrdered F
      → (max_attempts : ℕ)
      → let run = with_retry max_attempts base_delay max_delay fn in
        All (λ w. w ≼ max_delay) run.1 × (length run.1 ≤ max_attempts - 1)
  unfolding with_retry
  with_retry_waits laws max_attempts = waits_bound laws max_attempts 1 none

  -- A 429 whose `Retry-After` is no number is not retried: after attempts that are retried it ends
  -- the loop with the ValueError of `float`.
  pub with_retry_malformed :
      (max_attempts i : ℕ)
      → i < max_attempts
      → ((j : ℕ) → j < i → is_retried (fn (1 + j)) ≡ true)
      → fn (1 + i) ≡ rate_limited malformed
      → (with_retry max_attempts base_delay max_delay fn).0 ≡ value_error
  unfolding with_retry
  with_retry_malformed max_attempts i = attempts_malformed i max_attempts 1 none
