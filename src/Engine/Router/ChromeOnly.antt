-- ===== src/Engine/Router/ChromeOnly.antt =====
-- internal/engine/router.go: what only Chrome can do stays with Chrome.
use pinchtab.Prelude.{
  ◌≡◌, refl, String, true, false, Bool-cases, ◌⊎◌, inl, inr, Option, none, List, [], ◌∷◌, All,
  str_eq, eq_iff, arith,
}
use pinchtab.Engine.Rules.{
  Capability, RouteRule, capability_rule, default_lite_rule, default_chrome_rule, content_hint_rule,
  is_chrome_only,
}
use pinchtab.Engine.Router.{
  Mode, mode_chrome, mode_lite, mode_auto, Router, before_last, without, new_router, add_rule,
  remove_rule, ask, route,
}

pub data Call : Type 0 where
  adds : RouteRule → Call
  removes : String → Call

module _ {ℓ} {Engine : Type ℓ} where
  unfoldable pub call : Call → Router Engine → Router Engine
  call (adds rule) r = add_rule rule r
  call (removes name) r = (remove_rule name r).0

  unfoldable pub run : List Call → Router Engine → Router Engine
  unfolding call
  run [] r = r
  run (c ∷ cs) r = run cs (call c r)

-- The last rule has a name.
Ends : String → List RouteRule → Type 0
Ends name [] = true ≡ false
Ends name (rule ∷ []) = str_eq rule.name name ≡ true
Ends name (rule ∷ second ∷ rest) = Ends name (second ∷ rest)

cons-Ends :
    (name : String) (rule : RouteRule) (rules : List RouteRule)
    → Ends name rules
    → Ends name (rule ∷ rules)
unfolding Ends
cons-Ends name rule [] e = ground (arith, e)
cons-Ends name rule (first ∷ rest) e = e

before_last-Ends :
    (name : String) (rule : RouteRule) (rules : List RouteRule)
    → Ends name rules
    → Ends name (before_last rule rules)
unfolding Ends
before_last-Ends name rule [] e = ground (arith, e)
before_last-Ends name rule (last ∷ []) e = e
before_last-Ends name rule (first ∷ second ∷ rest) e =
    cons-Ends name first (before_last rule (second ∷ rest))
      (before_last-Ends name rule (second ∷ rest) e)

module _ (mode : Mode) where
  -- the name of the mode's last rule
  abbrev pub fallback : String
  fallback = elim mode [
    | mode_chrome ↦ "default-chrome"
    | mode_lite ↦ "default-lite"
    | mode_auto ↦ "default-chrome"
  ]

  -- A call that does not remove the first and the last rule of the mode.
  abbrev pub Keeps : Call → Type 0
  Keeps (adds rule) = Unit
  Keeps (removes name) = (str_eq "capability" name ≡ false) × (str_eq fallback name ≡ false)

  abbrev Guarded : List RouteRule → Type 0
  Guarded rules = (rest : List RouteRule) × (rules ≡ capability_rule ∷ rest) × Ends fallback rest

  without-Ends :
      (name : String) (rules : List RouteRule)
      → str_eq fallback name ≡ false
      → Ends fallback rules
      → Ends fallback (without name rules)
  unfolding Ends
  without-Ends name [] ne e = ground (arith, e)
  without-Ends name (rule ∷ []) ne e = elim (Bool-cases (str_eq rule.name name)) [
    | inl same ↦
        ground (
          arith,
          ne,
          e,
          same,
          eq_iff rule.name fallback,
          eq_iff rule.name name,
          eq_iff fallback name,
        )
    | inr other ↦ rw other e
  ]
  without-Ends name (rule ∷ second ∷ rest) ne e = elim (Bool-cases (str_eq rule.name name)) [
    | inl same ↦ rw same e
    | inr other ↦ rw other (
        cons-Ends fallback rule (without name (second ∷ rest))
          (without-Ends name (second ∷ rest) ne e))
  ]

  before_last-Guarded :
      (rule : RouteRule) (rules : List RouteRule) → Guarded rules → Guarded (before_last rule rules)
  unfolding Ends
  before_last-Guarded rule rules (rest, same, e) = rw same (go rest e)
    where
      go :
          (rest : List RouteRule)
          → Ends fallback rest
          → Guarded (before_last rule (capability_rule ∷ rest))
      go [] e = ground (arith, e)
      go (second ∷ rest) e =
          (before_last rule (second ∷ rest), refl, before_last-Ends fallback rule (second ∷ rest) e)

  without-Guarded :
      (name : String) (rules : List RouteRule)
      → Keeps (removes name)
      → Guarded rules
      → Guarded (without name rules)
  unfolding capability_rule
  without-Guarded name rules (first, last) (rest, same, e) =
      rw (same, first) (without name rest, refl, without-Ends name rest last e)

  module _ {ℓ} {Engine : Type ℓ} where
    run-Guarded :
        (cs : List Call) (r : Router Engine)
        → All Keeps cs
        → Guarded r.rules
        → Guarded (run cs r).rules
    unfolding run call add_rule remove_rule
    run-Guarded [] r keeps g = g
    run-Guarded (adds rule ∷ cs) r keeps g =
        run-Guarded cs (add_rule rule r) keeps.1 (before_last-Guarded rule r.rules g)
    run-Guarded (removes name ∷ cs) r keeps g =
        run-Guarded cs (remove_rule name r).0 keeps.1 (without-Guarded name r.rules keeps.0 g)

    route-Guarded :
        (op : Capability) (url : String) (r : Router Engine)
        → is_chrome_only op ≡ true
        → Guarded r.rules
        → route op url r ≡ none
    unfolding route ask capability_rule
    route-Guarded op url r only (rest, same, e) = rw (same, only) refl

new-Guarded {ℓ} :
    {Engine : Type ℓ} (mode : Mode) (lite : Option Engine)
    → (mode ≡ mode_lite) ⊎ (mode ≡ mode_auto)
    → Guarded mode (new_router mode lite).rules
unfolding new_router default_lite_rule default_chrome_rule Ends
new-Guarded mode lite (inl is_lite) = rw is_lite (default_lite_rule ∷ [], refl, refl)
new-Guarded mode lite (inr is_auto) =
    rw is_auto (content_hint_rule ∷ default_chrome_rule ∷ [], refl, refl)

-- From NewRouter with the lite or the automatic mode on, and after any calls of AddRule and RemoveRule
-- of which none removes the rule on capabilities or the mode's last rule: whatever the rules added
-- say, screenshots, PDFs, the evaluation of scripts and cookies are for Chrome.
pub run-route {ℓ} :
    {Engine : Type ℓ} (mode : Mode) (lite : Option Engine) (cs : List Call) (op : Capability)
    (url : String)
    → (mode ≡ mode_lite) ⊎ (mode ≡ mode_auto)
    → All (Keeps mode) cs
    → is_chrome_only op ≡ true
    → route op url (run cs (new_router mode lite)) ≡ none
run-route mode lite cs op url either keeps only =
    route-Guarded mode op url (run cs (new_router mode lite)) only
      (run-Guarded mode cs (new_router mode lite) keeps (new-Guarded mode lite either))
