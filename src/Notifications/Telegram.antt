-- ===== src/Notifications/Telegram.antt =====
-- notifications/telegram.py: `TelegramNotifier`. Times are microseconds of the monotonic clock. What
-- the request of `send` comes to is an argument: the status code, or `none` for an exception. The
-- formatted messages are left out.
pub mod Rate
use poly_market_prediction_b.Base.{
  ℕ, zero, suc, ◌+◌, ◌-◌, String, Bool, true, false, not, ◌&&◌, Option, none, some, List, [], ◌∷◌,
  ◌++◌, ◌==◌, string_eq, length, ltb, leb, nat_beq, if◌then◌else◌,
}

pub record TelegramNotifier : Type 0 where
  pub token : String
  pub chat_id : String
  pub enabled : Bool
  pub rate_limit : ℕ
  pub timestamps : List ℕ

abbrev pub new_notifier : String → String → Bool → ℕ → TelegramNotifier
new_notifier bot_token chat_id enabled rate_limit_per_min = record {
  token = bot_token;
  chat_id = chat_id;
  enabled = enabled && not (bot_token == "") && not (chat_id == "");
  rate_limit = rate_limit_per_min;
  timestamps = [];
}

-- The 60 seconds of the rate.
abbrev pub minute : ℕ
minute = 60_000_000

-- `now - t > 60`
abbrev pub is_past : ℕ → ℕ → Bool
is_past now t = ltb minute (now - t)

-- The loop that cleans the old timestamps.
unfoldable pub clean : ℕ → List ℕ → List ℕ
clean now [] = []
clean now (t ∷ ts) = let rest = clean now ts in if is_past now t then rest else t ∷ ts

-- `send` up to its request: whether there is one.
unfoldable pub take_slot : ℕ → TelegramNotifier → Bool × TelegramNotifier
unfolding clean
take_slot now n =
    if n.enabled
    then (let kept = clean now n.timestamps in
        if leb n.rate_limit (length kept)
        then (false, record n { timestamps = kept })
        else (true, record n { timestamps = kept ++ (now ∷ []) }))
    else (false, n)

abbrev pub is_ok : Option ℕ → Bool
is_ok none = false
is_ok (some status) = nat_beq status 200

unfoldable pub send : ℕ → Option ℕ → TelegramNotifier → Bool × TelegramNotifier
unfolding take_slot
send now answer n = let (has_slot, n') = take_slot now n in (has_slot && is_ok answer, n')
