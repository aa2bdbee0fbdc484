-- ===== src/Engine/Router/Tests.antt =====
-- The router at small concrete inputs.
use pinchtab.Prelude.{◌≡◌, refl, none, some, [], ◌∷◌, List, inl, Option, String}
use pinchtab.Engine.Rules.{
  RouteRule, use_lite, capability_rule, content_hint_rule, default_lite_rule, default_chrome_rule,
  is_static,
}
use pinchtab.Engine.Router.{mode_lite, mode_auto, new_router, add_rule, remove_rule, ask, route}
use pinchtab.Engine.Router.ChromeOnly.{Call, adds, removes, call, run, run-route}

abbrev always_lite : RouteRule
always_lite = record { name = "always-lite"; decide = λ op url. use_lite }

abbrev gost : Option String
gost = some "gost"

abbrev some_calls : List Call
some_calls = adds always_lite ∷ removes "content-hint" ∷ []

-- without the mode's last rule, AddRule puts a rule in front of the rule on capabilities
added_first :
    route "pdf" "https://a.b/"
      (run (removes "default-lite" ∷ adds always_lite ∷ []) (new_router mode_lite gost))
    ≡ gost
unfolding run call add_rule remove_rule new_router route ask capability_rule default_lite_rule
added_first = refl

-- the extension is looked for at the end of the URL, and not of its path
query_hides_path : route "text" "https://a.b/x.html?q=1" (new_router mode_auto gost) ≡ none
unfolding new_router route ask capability_rule content_hint_rule default_chrome_rule is_static
query_hides_path = refl

static_page : route "text" "https://a.b/x.html" (new_router mode_auto gost) ≡ gost
unfolding new_router route ask capability_rule content_hint_rule default_chrome_rule is_static
static_page = refl

run-route_example : route "pdf" "https://a.b/" (run some_calls (new_router mode_lite gost)) ≡ none
run-route_example =
    run-route mode_lite gost some_calls "pdf" "https://a.b/" (inl refl) (tt, ((refl, refl), tt))
      refl
