-- ===== src/Engine/Router.antt =====
-- internal/engine/router.go: the router, which asks its rules in turn. The lite engine is an argument;
-- that Chrome serves a request is told by the lack of an engine, as in the code.
pub mod ChromeOnly
mod Tests
use pinchtab.Prelude.{
  String, Bool, true, false, Option, none, some, List, [], ◌∷◌, map, str_eq, if◌then◌else◌,
}
use pinchtab.Engine.Rules.{
  Capability, Decision, undecided, use_lite, use_chrome, RouteRule, capability_rule,
  content_hint_rule, default_lite_rule, default_chrome_rule,
}

pub data Mode : Type 0 where
  mode_chrome : Mode
  mode_lite : Mode
  mode_auto : Mode

module _ {ℓ} (Engine : Type ℓ) where
  pub record Router : Type ℓ where
    pub mode : Mode
    pub lite : Option Engine
    pub rules : List RouteRule

-- the rules of a mode
abbrev pub rules_of : Mode → List RouteRule
rules_of mode_chrome = default_chrome_rule ∷ []
rules_of mode_lite = capability_rule ∷ default_lite_rule ∷ []
rules_of mode_auto = capability_rule ∷ content_hint_rule ∷ default_chrome_rule ∷ []

-- a rule in front of the last one
abbrev pub before_last : RouteRule → List RouteRule → List RouteRule
before_last rule [] = rule ∷ []
before_last rule (last ∷ []) = rule ∷ last ∷ []
before_last rule (first ∷ second ∷ rest) = first ∷ before_last rule (second ∷ rest)

-- the list without the first rule of a name
abbrev pub without : String → List RouteRule → List RouteRule
without name [] = []
without name (rule ∷ rest) =
    let kept = without name rest in if str_eq rule.name name then rest else rule ∷ kept

-- whether a rule has a name
abbrev pub has_rule : String → List RouteRule → Bool
has_rule name [] = false
has_rule name (rule ∷ rest) = if str_eq rule.name name then true else has_rule name rest

module _ {ℓ} {Engine : Type ℓ} where
  -- NewRouter
  unfoldable pub new_router : Mode → Option Engine → Router Engine
  new_router mode lite = record { mode = mode; lite = lite; rules = rules_of mode }

  -- AddRule
  unfoldable pub add_rule : RouteRule → Router Engine → Router Engine
  add_rule rule r = record r { rules = before_last rule r.rules }

  -- RemoveRule, and whether there was such a rule
  unfoldable pub remove_rule : String → Router Engine → Router Engine × Bool
  remove_rule name r = (record r { rules = without name r.rules }, has_rule name r.rules)

  -- what the verdict of one rule leads to: an answer, or the rules after it
  abbrev pub follow : Decision → Option Engine → Option Engine → Option Engine
  follow undecided lite rest = rest
  follow use_lite none rest = rest
  follow use_lite (some engine) rest = some engine
  follow use_chrome lite rest = none

  unfoldable pub ask : Option Engine → Capability → String → List RouteRule → Option Engine
  ask lite op url [] = none
  ask lite op url (rule ∷ rest) = follow (rule.decide op url) lite (ask lite op url rest)

  -- Route
  unfoldable pub route : Capability → String → Router Engine → Option Engine
  unfolding ask
  route op url r = ask r.lite op url r.rules

  -- UseLite
  unfoldable pub uses_lite : Capability → String → Router Engine → Bool
  unfolding route
  uses_lite op url r = elim (route op url r) [ none ↦ false | some engine ↦ true ]

  -- Rules
  unfoldable pub rule_names : Router Engine → List String
  rule_names r = map (λ rule. rule.name) r.rules
