-- ===== src/Tests/Notifications.antt =====
-- The Telegram client at concrete inputs.
use poly_market_prediction_b.Base.{ℕ, Option, some, none, true, ◌≡◌, refl, List, [], ◌∷◌, arith}
use poly_market_prediction_b.Notifications.Telegram.{new_notifier, take_slot, send, clean}
use poly_market_prediction_b.Notifications.Telegram.Rate.{requests, IsSpaced, requests-IsSpaced}

-- Two in a minute: the third is refused, and the fourth comes a minute after the first.
abbrev four_calls : List (ℕ × Option ℕ)
four_calls =
    (1, some 200) ∷ (30_000_000, none) ∷ (40_000_000, some 200) ∷ (60_000_002, some 200) ∷ []

requests-IsSpaced_example : IsSpaced 2 [] (requests four_calls (new_notifier "token" "chat" true 2))
requests-IsSpaced_example = requests-IsSpaced "token" "chat" true 2 four_calls (ground arith)

requests_run :
    requests four_calls (new_notifier "token" "chat" true 2) ≡ 1 ∷ 30_000_000 ∷ 60_000_002 ∷ []
unfolding requests take_slot send clean
requests_run = refl
