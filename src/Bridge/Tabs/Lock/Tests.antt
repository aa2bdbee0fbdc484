-- ===== src/Bridge/Tabs/Lock/Tests.antt =====
-- The lock manager at small concrete inputs.
use pinchtab.Prelude.{◌≡◌, refl, none, some, List, [], ◌∷◌, arith}
use pinchtab.Prelude.Map
use pinchtab.Bridge.Tabs.Lock.{new_lock_manager, try_lock, get}
use pinchtab.Bridge.Tabs.Lock.Held.{Call, tries, unlocks, run, Excludes, try_lock-run}

-- others try the tab and use another one
abbrev others : List Call
others = tries 3 "t1" "bob" 50 ∷ unlocks 4 "t1" "bob" ∷ tries 5 "t2" "ada" 9 ∷ []

-- At its last instant a lock can be taken over, while Get still answers its owner.
taken_at_the_end :
    (try_lock 11 11 "t1" "bob" 5 (try_lock 1 1 "t1" "ada" 10 new_lock_manager).0).1 ≡ none
unfolding try_lock new_lock_manager Map.lookup Map.insert
taken_at_the_end = refl

answered_at_the_end :
    get 11 "t1" (try_lock 1 1 "t1" "ada" 10 new_lock_manager).0
    ≡ some (record { owner = "ada"; expires_at = 11 })
unfolding get try_lock new_lock_manager Map.lookup Map.insert
answered_at_the_end = refl

try_lock-run_example :
    Excludes "t1" "ada" "bob" 11 7 8 20 (run others (try_lock 1 1 "t1" "ada" 10 new_lock_manager).0)
unfolding try_lock new_lock_manager Map.lookup Map.insert
try_lock-run_example =
    try_lock-run 1 1 "t1" "ada" "bob" 10 new_lock_manager others 7 8 20 refl
      ((omega arith, refl), ((omega arith, refl), ((omega arith, refl), tt))) (omega arith) refl
