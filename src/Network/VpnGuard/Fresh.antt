-- ===== src/Network/VpnGuard/Fresh.antt =====
-- network/vpn_guard.py: an answer is what a check has found in the last 30 seconds.
use mathlib.Core.Path.{subst}
use poly_market_prediction_b.Base.{
  ℕ, ◌+◌, ◌<◌, ◌≡◌, ◌∙◌, sym, ap, ◌⊎◌, inl, inr, refl, Bool, true, false, ◌||◌, ◌++◌, List, [], ◌∷◌,
  arith, Bool-cases, ltb, Some, Some-append, Some-imp,
}
use poly_market_prediction_b.Network.VpnGuard.{
  Call, Cache, cache_ttl, has_vpn_interface, is_vpn_active,
}

-- The cache after the calls.
unfoldable pub calls : List Call → Cache → Cache
unfolding is_vpn_active
calls [] cache = cache
calls (call ∷ rest) cache = calls rest (is_vpn_active call cache).1

-- What a check in a call finds.
abbrev pub check : Call → Bool
check call = call.is_disabled || has_vpn_interface call.interfaces

-- The check of a call has given the cache.
abbrev pub HasGiven : Cache → Call → Type 0
HasGiven cache call = (check call ≡ cache.0) × (call.now ≡ cache.1)

-- A call keeps the cache, or replaces it by what its check finds.
is_vpn_active_lem :
    (call : Call) (cache : Cache)
    → let (answer, after) = is_vpn_active call cache in
      (answer ≡ after.0)
      × ((after ≡ cache) × (call.now < cache.1 + cache_ttl) ⊎ HasGiven after call)
unfolding is_vpn_active
is_vpn_active_lem call cache = elim (Bool-cases (ltb call.now (cache.1 + cache_ttl))) [
  | inl fresh ↦ (ground (arith, fresh), inl (ground (arith, fresh)))
  | inr stale ↦ (ground (arith, stale), inr (ground (arith, stale)))
]

calls-given :
    (rest : List Call) (cache : Cache)
    → (calls rest cache ≡ cache) ⊎ Some (HasGiven (calls rest cache)) rest
unfolding calls
calls-given [] cache = inl refl
calls-given (call ∷ rest) cache =
    let (answer, step) = is_vpn_active_lem call cache in
    elim (calls-given rest (is_vpn_active call cache).1) [
      | inl kept ↦ elim step [
        | inl (same, fresh) ↦ inl (kept ∙ same)
        | inr given ↦ inr (inl (subst (λ c. HasGiven c call) (sym kept) given))
      ]
      | inr given ↦ inr (inr given)
    ]

-- A call less than 30 seconds before this time, or after it, at which a check finds a VPN.
abbrev pub HasPassed : ℕ → Call → Type 0
HasPassed now call = (check call ≡ true) × (now < call.now + cache_ttl)

-- Where the guard says after any calls that there is a VPN: at one of the calls less than 30 seconds
-- ago, or at this call, the command named an interface of a VPN, or the check was disabled.
pub is_vpn_active-check :
    (rest : List Call) (call : Call)
    → (is_vpn_active call (calls rest (false, 0))).0 ≡ true
    → Some (HasPassed call.now) (rest ++ (call ∷ []))
is_vpn_active-check rest call h =
    let cache = calls rest (false, 0) in
    let now = call.now in
    let (answer, step) = is_vpn_active_lem call cache in
    let active = sym answer ∙ h in
    Some-append (HasPassed now) rest (call ∷ []) (elim step [
      | inl (same, fresh) ↦
          let cached : cache.0 ≡ true = sym (ap (λ c. c.0) same) ∙ active in
          elim (calls-given rest (false, 0)) [
            | inl initial ↦ absurd (ground (arith, cached, initial))
            | inr given ↦ inl (
                Some-imp (HasGiven cache) (HasPassed now)
                  (λ c (found, at). (found ∙ cached, rw at fresh)) rest given)
          ]
      | inr (found, at) ↦ inr (inl (found ∙ active, omega arith))
    ])
