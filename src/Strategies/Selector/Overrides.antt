-- ===== src/Strategies/Selector/Overrides.antt =====
-- strategies/selector.py: overrides against the rules of the regimes.
use poly_market_prediction_b.Base.{
  String, Bool, true, false, ◌≡◌, some, [], ◌==◌, ◌||◌, not, string_eq, if◌then◌else◌, arith,
}
use poly_market_prediction_b.Base.Dict.{lookup-insert, lookup-erase}
use poly_market_prediction_b.Core.Types.{RegimeType}
use poly_market_prediction_b.Strategies.Selector.{
  Selector, is_allowed, set_override, clear_override, new_selector, default_rules,
}

-- An override decides for its strategy in every regime, and changes no other strategy.
pub is_allowed-set_override :
    (name other : String) (enabled : Bool) (regime : RegimeType) (s : Selector)
    → is_allowed other regime (set_override name enabled s)
      ≡ (if other == name then some enabled else is_allowed other regime s)
unfolding is_allowed set_override
is_allowed-set_override name other enabled regime s =
    ground (arith, lookup-insert name other enabled s.overrides)

-- Once its override is cleared, a strategy follows the rules of the regime, whatever was set
-- before, and no other strategy changes.
pub is_allowed-clear_override :
    (name other : String) (regime : RegimeType) (s : Selector)
    → is_allowed other regime (clear_override name s) ≡ (
        if other == name
        then is_allowed other regime (record s { overrides = [] })
        else is_allowed other regime s)
unfolding is_allowed clear_override
is_allowed-clear_override name other regime s = ground (arith, lookup-erase name other s.overrides)

abbrev is_trending : RegimeType → Bool
is_trending RegimeType.trending = true
is_trending _ = false

abbrev is_volatile : RegimeType → Bool
is_volatile RegimeType.volatile = true
is_volatile _ = false

abbrev is_ranging : RegimeType → Bool
is_ranging RegimeType.ranging = true
is_ranging _ = false

-- With the default rules and no override the question never raises, and refuses two strategies
-- alone: momentum in a ranging or volatile market, and Bollinger in a trending or volatile one.
pub is_allowed_default :
    (name : String) (regime : RegimeType)
    → is_allowed name regime new_selector
      ≡ some (
          if name == "MOMENTUM"
          then not (is_ranging regime || is_volatile regime)
          else if name == "BOLLINGER"
          then not (is_trending regime || is_volatile regime)
          else true)
unfolding is_allowed new_selector default_rules
is_allowed_default name RegimeType.trending = ground arith
is_allowed_default name RegimeType.ranging = ground arith
is_allowed_default name RegimeType.volatile = ground arith
is_allowed_default name RegimeType.unknown = ground arith
