-- ===== src/Tests/Access.antt =====
-- The middleware, the log buffer and the VPN guard at concrete inputs.
use poly_market_prediction_b.Base.{
  Some, ◌≡◌, refl, false, some, List, [], ◌∷◌, ◌++◌, String, arith, select, last_n, ◌*◌, ℕ, ◌==◌,
  string_eq, if◌then◌else◌,
}
use poly_market_prediction_b.Number.{of_ℕ}
use poly_market_prediction_b.Number.Order.{◌≼◌}
use poly_market_prediction_b.Number.Integer.{pos}
use poly_market_prediction_b.Number.Fixed.{Fixed, fixed_number, units}
use poly_market_prediction_b.Number.Fixed.Laws.{Fixed-IsOrdered, Fixed-IsRounded, Fixed-IsExact}
use poly_market_prediction_b.Dashboard.Security.{new_bucket}
use poly_market_prediction_b.Dashboard.Security.Bucket.{allowed, refill, allowed-new_bucket}
use poly_market_prediction_b.Dashboard.Logs.{LogEntry, new_buffer, emit, get_entries, is_wanted}
use poly_market_prediction_b.Dashboard.Logs.Entries.{emit_all, get_entries-emit_all}
use poly_market_prediction_b.Network.VpnGuard.{Call, is_vpn_active}
use poly_market_prediction_b.Network.VpnGuard.Fresh.{calls, HasPassed, is_vpn_active-check}

abbrev seconds : ℕ → Fixed
seconds n = pos (n * 1_000_000)

-- A bucket of two tokens, one a second, under five calls within a second and one after it.
abbrev call_times : List Fixed
call_times = seconds 10 ∷ seconds 10 ∷ seconds 10 ∷ seconds 10 ∷ seconds 11 ∷ []

allowed-new_bucket_example :
    of_ℕ (allowed call_times (new_bucket (seconds 1) (seconds 2) (seconds 10))).0
    ≼ (fixed_number.add (seconds 2) (refill (seconds 1) (seconds 10) call_times))
unfolding units
allowed-new_bucket_example =
    allowed-new_bucket Fixed-IsOrdered Fixed-IsRounded Fixed-IsExact (seconds 1) (seconds 2)
      (seconds 10) call_times refl refl (ground arith)

abbrev entry : String → String → LogEntry
entry level message = record {
  timestamp = "2025-01-01T00:00:00+00:00";
  level = level;
  message = message;
  logger = "bot";
}

abbrev upper : String → String
upper text = if text == "info" then "INFO" else text

abbrev four_entries : List LogEntry
four_entries = entry "INFO" "a" ∷ entry "INFO" "b" ∷ entry "ERROR" "c" ∷ entry "INFO" "d" ∷ []

get_entries-emit_all_example :
    let log = emit_all four_entries (new_buffer 3) in
    let wanted = select (is_wanted upper (some "info")) (last_n 3 four_entries) in
    (get_entries upper (pos 1) (some "info") log ≡ last_n 1 wanted)
    × (get_entries upper (pos 0) (some "info") log ≡ wanted)
get_entries-emit_all_example = get_entries-emit_all upper 3 0 (some "info") four_entries

last_entry_run :
    get_entries upper (pos 1) (some "info") (emit_all four_entries (new_buffer 3))
    ≡ entry "INFO" "d" ∷ []
unfolding get_entries emit
last_entry_run = refl

-- A tunnel at 40 seconds, and a call that asks 20 seconds later, when it is gone.
abbrev tunnel_call : Call
tunnel_call = record {
  now = 40_000_000;
  is_disabled = false;
  interfaces = some ("lo" ∷ "tun0" ∷ []);
}

abbrev later_call : Call
later_call = record { now = 60_000_000; is_disabled = false; interfaces = some ("lo" ∷ []) }

is_vpn_active-check_example : Some (HasPassed 60_000_000) ((tunnel_call ∷ []) ++ (later_call ∷ []))
unfolding calls is_vpn_active
is_vpn_active-check_example = is_vpn_active-check (tunnel_call ∷ []) later_call refl
