-- ===== src/Strategies/Selector.antt =====
-- strategies/selector.py: which strategies may trade in a regime, and with what size.
pub mod Overrides
use text.Mathlib.Text.{starts_with}
use poly_market_prediction_b.Base.{
  String, Bool, true, false, Option, none, some, [], ◌∷◌, string_eq, if◌then◌else◌,
}
use poly_market_prediction_b.Base.Dict.{Dict, lookup, insert, erase}
use poly_market_prediction_b.Core.Types.{RegimeType}
use poly_market_prediction_b.Number.{Number, one_f}

abbrev pub Rules : Type 0
Rules = Dict String Bool

abbrev pub rules_for : Bool → Bool → Rules
rules_for momentum bollinger =
    ("MOMENTUM", momentum)
    ∷ ("BOLLINGER", bollinger)
    ∷ ("TURBO_CVD", true)
    ∷ ("TURBO_VWAP", true)
    ∷ []

-- `DEFAULT_REGIME_RULES`
unfoldable pub default_rules : RegimeType → Rules
default_rules RegimeType.trending = rules_for true false
default_rules RegimeType.ranging = rules_for false true
default_rules RegimeType.volatile = rules_for false false
default_rules RegimeType.unknown = rules_for true true

-- The rules of a regime, `none` where the given table has none, and the overrides.
pub record Selector : Type 0 where
  pub rules : RegimeType → Option Rules
  pub overrides : Rules

unfoldable pub new_selector : Selector
new_selector = record { rules = λ r. some (default_rules r); overrides = [] }

-- `self._rules.get(regime, self._rules[UNKNOWN])`; `none` is the KeyError of a table that lacks
-- the rules for UNKNOWN, which are looked up in any case.
unfoldable pub rules_in : Selector → RegimeType → Option Rules
rules_in s regime = elim (s.rules RegimeType.unknown) [
  | none ↦ none
  | some fallback ↦ elim (s.rules regime) [ none ↦ some fallback | some r ↦ some r ]
]

unfoldable pub is_allowed : String → RegimeType → Selector → Option Bool
unfolding rules_in
is_allowed name regime s = elim (lookup name s.overrides) [
  | some enabled ↦ some enabled
  | none ↦ elim (rules_in s regime) [
    | none ↦ none
    | some rules ↦ elim (lookup name rules) [ none ↦ some true | some b ↦ some b ]
  ]
]

unfoldable pub set_override : String → Bool → Selector → Selector
set_override name enabled s = record s { overrides = insert name enabled s.overrides }

unfoldable pub clear_override : String → Selector → Selector
clear_override name s = record s { overrides = erase name s.overrides }

unfoldable pub clear_all_overrides : Selector → Selector
clear_all_overrides s = record s { overrides = [] }

module _ {F : Type 0} ⦃num : Number F⦄ where
  open num use {dec}

  unfoldable pub get_size_multiplier : String → RegimeType → F
  get_size_multiplier name RegimeType.volatile = dec 5 1
  get_size_multiplier name RegimeType.ranging = if starts_with name "TURBO" then dec 8 1 else one_f
  get_size_multiplier name RegimeType.trending = one_f
  get_size_multiplier name RegimeType.unknown = one_f
