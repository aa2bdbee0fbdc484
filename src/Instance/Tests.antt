-- ===== src/Instance/Tests.antt =====
-- The instance manager at small concrete inputs.
use mathlib.Core.List.{Perm}
use pinchtab.Prelude.{◌≡◌, refl, none, some, List, [], ◌∷◌, str_eq, eq_iff, if◌then◌else◌, arith}
use pinchtab.Prelude.Map
use pinchtab.Prelude.Map.{Map}
use pinchtab.Instance.Repository
use pinchtab.Instance.Repository.{Instance, Repository, Visits, new_repository}
use pinchtab.Instance.Repository.Running.{Keyed}
use pinchtab.Instance.Manager.Runs.{IsKeyed}
use pinchtab.Instance.Locator.{FetchTabs, new_locator, find_instance_by_tab_id, refresh_all}
use pinchtab.Instance.Locator.Finds.{Found}
use pinchtab.Instance.Locator.Refresh.{Refreshed, find_instance_by_tab_id-refresh_all}
use pinchtab.Instance.Policy.{round_robin, next_index, select}
use pinchtab.Instance.Policy.Fair.{selects, selects-Perm}
use pinchtab.Instance.Allocator
use pinchtab.Instance.Allocator.{Allocated, allocated}
use pinchtab.Instance.Manager.{
  Call, launches, registers, new_manager, launch, register_tab, find, allocate, call, run,
}
use pinchtab.Instance.Manager.Runs.{run-find, run-allocate}

abbrev a : Instance
a = record { id = "a"; port = "9000"; url = ""; status = "running" }

abbrev b : Instance
b = record { id = "b"; port = "9001"; url = ""; status = "running" }

abbrev both : Map Instance
both = ("a", a) ∷ ("b", b) ∷ []

abbrev both_turned : Map Instance
both_turned = ("b", b) ∷ ("a", a) ∷ []

-- the first instance has the tab
abbrev fetch : FetchTabs
fetch url = if str_eq url "http://localhost:9000" then some ("t1" ∷ []) else none

abbrev two_launched : List Call
two_launched = launches (some a) ∷ launches (some b) ∷ registers "t0" "b" ∷ []

-- A round robin gives the same instance twice in a row where the orders of two ranges differ.
same_twice :
    (Allocator.allocate (λ n. 0) both_turned (Allocator.allocate (λ n. 0) both (round_robin 0)).0).1
    ≡ (Allocator.allocate (λ n. 0) both (round_robin 0)).1
unfolding Allocator.allocate Repository.running select next_index
same_twice = refl

both-Visits : Visits both (run two_launched new_manager).repo.instances
unfolding new_manager new_repository run call launch Repository.launch Repository.add register_tab
    Map.insert Map.lookup
both-Visits = record { distinct = (refl, (refl, tt)); same = λ key. refl }

run-find_example :
    let m = run two_launched new_manager in
    Found fetch "t1" m.repo m.locator
      ((find fetch both "t1" m).0.locator, (find fetch both "t1" m).1)
run-find_example = run-find two_launched fetch both "t1" both-Visits

run-allocate_example :
    let m = run two_launched new_manager in Allocated m.repo (allocate (λ n. 0) both m).1
run-allocate_example = run-allocate two_launched (λ n. 0) both (λ n below. below) both-Visits

selects-Perm_example : Perm (selects (λ n. 0) 2 (round_robin 5) (a ∷ b ∷ [])) (a ∷ b ∷ [])
selects-Perm_example = selects-Perm (λ n. 0) 5 (a ∷ b ∷ []) (omega arith)

two_entries : Visits both both
unfolding Map.lookup
two_entries = record { distinct = (refl, (refl, tt)); same = λ key. refl }

two_turned : Visits both_turned both
unfolding Map.lookup
two_turned = record {
  distinct = (refl, (refl, tt));
  same = λ key. ground (arith, eq_iff "a" key, eq_iff "b" key, eq_iff "a" "b");
}

keyed : Keyed both
keyed =
    Map.Every-cons IsKeyed "a" a (("b", b) ∷ []) refl
      (Map.Every-cons IsKeyed "b" b [] refl (λ key inst e. absurd (Map.lookup-nil key inst e)))

found_after_refresh :
    let r : Repository = record { instances = both } in
    Refreshed fetch "t1" r
      (find_instance_by_tab_id fetch both "t1" r (refresh_all fetch both new_locator)).1
found_after_refresh =
    find_instance_by_tab_id-refresh_all fetch both both "t1" (record { instances = both })
      new_locator two_entries two_entries keyed
