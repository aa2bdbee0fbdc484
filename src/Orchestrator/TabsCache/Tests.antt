-- ===== src/Orchestrator/TabsCache/Tests.antt =====
-- The tabs cache at small concrete inputs.
use pinchtab.Prelude.{◌≡◌, refl, some, [], ◌∷◌, List, String}
use pinchtab.Prelude.Int.{pos}
use pinchtab.Prelude.Map
use pinchtab.Orchestrator.TabsCache.{new_tabs_cache, get, set, invalidate, invalidate_all}
use pinchtab.Orchestrator.TabsCache.History.{
  Call, sets, invalidates, invalidates_all, call, run, last_set, get-run,
}

-- the last call first
abbrev some_calls : List (Call String)
some_calls =
    sets 7 "b" ("t2" ∷ []) ∷ invalidates "c" ∷ sets 2 "a" ("t1" ∷ []) ∷ invalidates_all ∷ []

other_instance : get 9 "b" (run (pos 5) some_calls) ≡ some ("t2" ∷ [])
unfolding run call get set invalidate invalidate_all new_tabs_cache Map.lookup Map.insert Map.delete
other_instance = refl

get-run_example : get 7 "a" (run (pos 5) some_calls) ≡ some ("t1" ∷ [])
unfolding last_set
get-run_example = get-run (pos 5) some_calls 7 "a"
