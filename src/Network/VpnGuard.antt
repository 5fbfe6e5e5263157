-- ===== src/Network/VpnGuard.antt =====
-- network/vpn_guard.py. A call takes the time in microseconds, whether VPN_CHECK is `disabled` in the
-- environment, and the names of the interfaces, in lower case, that the command gives: `none` where it
-- raises. Reading the output of the command is left out.
pub mod Fresh
use text.Mathlib.Text.{starts_with}
use poly_market_prediction_b.Base.{
  ℕ, ◌+◌, String, Bool, true, false, Option, none, some, List, [], ◌∷◌, any, if◌then◌else◌, ltb,
}

-- `_CACHE_TTL`
abbrev pub cache_ttl : ℕ
cache_ttl = 30_000_000

abbrev pub vpn_prefixes : List String
vpn_prefixes = "tun" ∷ "utun" ∷ "wg" ∷ "ppp" ∷ "tap" ∷ "tailscale" ∷ "proton" ∷ "nord" ∷ []

-- `_cache`
abbrev pub Cache : Type 0
Cache = Bool × ℕ

-- A call of the guard: the time, the setting, and the interfaces where the command gives them.
pub record Call : Type 0 where
  pub now : ℕ
  pub is_disabled : Bool
  pub interfaces : Option (List String)

unfoldable pub has_vpn_interface : Option (List String) → Bool
has_vpn_interface none = false
has_vpn_interface (some ifaces) = any (λ iface. any (starts_with iface) vpn_prefixes) ifaces

-- `now - _cache[1] < _CACHE_TTL`, also where the clock has gone back.
unfoldable pub is_vpn_active : Call → Cache → Bool × Cache
unfolding has_vpn_interface
is_vpn_active call (active, at) =
    if ltb call.now (at + cache_ttl)
    then (active, (active, at))
    else if call.is_disabled
    then (true, (true, call.now))
    else let result = has_vpn_interface call.interfaces in (result, (result, call.now))
