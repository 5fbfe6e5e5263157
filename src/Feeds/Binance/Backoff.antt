-- ===== src/Feeds/Binance/Backoff.antt =====
-- feeds/binance_ws.py, `_ws_loop`: the attempts and the backoff.
use native.Mathlib.Nat.{pow-suc}
use poly_market_prediction_b.Base.{
  ℕ, ◌+◌, ◌*◌, ◌^◌, Bool, true, false, ◌≡◌, refl, List, [], ◌∷◌, if◌then◌else◌, ltb, arith, map, ap,
}

pub record Retry : Type 0 where
  pub attempt : ℕ
  pub backoff : ℕ

abbrev pub first_retry : Retry
first_retry = record { attempt = 0; backoff = 1 }

-- `min(x, 60)`
abbrev pub at_most_60 : ℕ → ℕ
at_most_60 x = if ltb 60 x then 60 else x

-- One pass of the loop ends with an exception, before or after it had connected: the seconds slept,
-- and the next state.
unfoldable pub pass : Bool → Retry → ℕ × Retry
pass has_connected r =
    let start = if has_connected then first_retry else r in
    (
      start.backoff,
      record { attempt = start.attempt + 1; backoff = at_most_60 (start.backoff * 2) },
    )

-- The sleeps of a sequence of passes.
unfoldable pub sleeps : List Bool → Retry → List ℕ
unfolding pass
sleeps [] r = []
sleeps (c ∷ cs) r = let (s, r') = pass c r in s ∷ sleeps cs r'

-- How often the loop has failed since it was connected.
abbrev pub failures : ℕ → List Bool → List ℕ
failures k [] = []
failures k (c ∷ cs) = let k' = if c then 0 else k in k' ∷ failures (k' + 1) cs

abbrev pub sleep_after : ℕ → ℕ
sleep_after k = at_most_60 (2 ^ k)

backoff_step : (k : ℕ) → at_most_60 (sleep_after k * 2) ≡ sleep_after (k + 1)
backoff_step k = ground (arith, pow-suc 2 k)

sleeps-from :
    (cs : List Bool) (k : ℕ)
    → sleeps cs (record { attempt = k; backoff = sleep_after k }) ≡ map sleep_after (failures k cs)
unfolding sleeps pass
sleeps-from [] k = refl
sleeps-from (true ∷ cs) k = ap (λ ss. 1 ∷ ss) (sleeps-from cs 1)
sleeps-from (false ∷ cs) k = ground (arith, backoff_step k, sleeps-from cs (k + 1))

-- The sleep after a failed pass of the loop is 2 to the number of the failures before it since the last
-- connection, and 60 seconds at most.
pub sleeps_lem : (cs : List Bool) → sleeps cs first_retry ≡ map sleep_after (failures 0 cs)
sleeps_lem cs = sleeps-from cs 0
