-- ===== src/Tests/Core.antt =====
-- The event bus and the retries, at concrete inputs.
use poly_market_prediction_b.Base.{
  ℕ, zero, suc, ◌+◌, ◌<◌, true, ◌≡◌, refl, List, [], ◌∷◌, arith, ◌==◌, string_eq, nat_eq,
  if◌then◌else◌,
}
use poly_market_prediction_b.Core.Events.{Bus, Ran}
use poly_market_prediction_b.Core.Retry.{Attempt, malformed, rate_limited, value_error, with_retry}
use poly_market_prediction_b.Core.Retry.Laws.{is_retried, with_retry_malformed}
use poly_market_prediction_b.Number.Integer.{pos}
use poly_market_prediction_b.Number.Fixed.{Fixed, fixed_number}

abbrev bus : Bus
bus = ("trade.placed", 1 ∷ 2 ∷ []) ∷ []

-- Handler 1 raises, and every handler adds its number to the log.
abbrev run : ℕ → ℕ → List ℕ → Ran (List ℕ)
run h payload s = if h == 1 then Ran.raised (h ∷ s) else Ran.returned (h ∷ s)

-- One transient failure, and then a value.
abbrev recovers : ℕ → Attempt Fixed ℕ
recovers n = if n == 1 then Attempt.transient else Attempt.returned 42

abbrev fails : ℕ → Attempt Fixed ℕ
fails n = Attempt.transient

-- After one transient failure, a 429 whose header is a date.
abbrev dated : ℕ → Attempt Fixed ℕ
dated n = if n == 1 then Attempt.transient else rate_limited malformed

first_only : (j : ℕ) → j < 1 → is_retried (recovers (1 + j)) ≡ true
first_only zero h = refl
first_only (suc j) h = absurd (omega arith)

first_dated : (j : ℕ) → j < 1 → is_retried (dated (1 + j)) ≡ true
first_dated zero h = refl
first_dated (suc j) h = absurd (omega arith)

with_retry_malformed_example : (with_retry 3 (pos 1_000_000) (pos 30_000_000) dated).0 ≡ value_error
with_retry_malformed_example =
    with_retry_malformed dated (pos 1_000_000) (pos 30_000_000) 3 1 (omega arith) first_dated refl
