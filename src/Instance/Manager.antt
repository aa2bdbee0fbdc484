-- ===== src/Instance/Manager.antt =====
-- internal/instance/manager.go: the facade over the repository, the locator and the allocator, which
-- share the repository. The launcher keeps the pointers to its instances and changes their status.
pub mod Runs
use pinchtab.Prelude.{ℕ, String, Bool, Option, none, some, List, [], ◌∷◌}
use pinchtab.Prelude.Map
use pinchtab.Prelude.Map.{Map}
use pinchtab.Instance.Repository
use pinchtab.Instance.Repository.{Instance, Repository, new_repository}
use pinchtab.Instance.Locator.{
  FetchTabs, Locator, new_locator, register, invalidate, invalidate_instance,
  find_instance_by_tab_id, refresh_all,
}
use pinchtab.Instance.Policy.{Policy, fcfs, new_policy}
use pinchtab.Instance.Allocator
use pinchtab.Instance.Allocator.{Allocation}

pub record Manager : Type 0 where
  pub repo : Repository
  pub locator : Locator
  pub policy : Policy

-- NewManager
unfoldable pub new_manager : Manager
unfolding new_repository new_locator
new_manager = record { repo = new_repository; locator = new_locator; policy = fcfs }

-- Launch, of the launcher's answer
unfoldable pub launch : Option Instance → Manager → Manager × Option Instance
unfolding Repository.launch
launch answer m =
    let (repo, inst) = Repository.launch answer m.repo in (record m { repo = repo }, inst)

-- Stop, of whether the launcher could stop the instance
unfoldable pub stop : Bool → String → Manager → Manager × Bool
unfolding Repository.stop invalidate_instance
stop answer id m =
    let (repo, ok) = Repository.stop answer id m.repo in
    (record m { locator = invalidate_instance id m.locator; repo = repo }, ok)

-- FindInstanceByTabID
unfoldable pub find : FetchTabs → Map Instance → String → Manager → Manager × Option Instance
unfolding find_instance_by_tab_id
find fetch order tab m =
    let (locator, inst) = find_instance_by_tab_id fetch order tab m.repo m.locator in
    (record m { locator = locator }, inst)

-- RegisterTab, InvalidateTab and the locator's RefreshAll
unfoldable pub register_tab : String → String → Manager → Manager
unfolding register
register_tab tab id m = record m { locator = register tab id m.locator }

unfoldable pub invalidate_tab : String → Manager → Manager
unfolding invalidate
invalidate_tab tab m = record m { locator = invalidate tab m.locator }

unfoldable pub refresh : FetchTabs → Map Instance → Manager → Manager
unfolding refresh_all
refresh fetch order m = record m { locator = refresh_all fetch order m.locator }

-- Allocate
unfoldable pub allocate : (ℕ → ℕ) → Map Instance → Manager → Manager × Allocation
unfolding Allocator.allocate
allocate draw order m =
    let (policy, result) = Allocator.allocate draw order m.policy in
    (record m { policy = policy }, result)

-- SetAllocationPolicy; an unknown name changes nothing
abbrev set_policy : Option Policy → Manager → Manager
set_policy none m = m
set_policy (some p) m = record m { policy = p }

unfoldable pub set_allocation_policy : String → Manager → Manager
unfolding new_policy
set_allocation_policy name m = set_policy (new_policy name) m

-- the launcher changes the status of an instance that it shares with the repository
abbrev set_status : String → Instance → Instance
set_status status inst = record inst { status = status }

abbrev changed : String → String → Option Instance → Repository → Repository
changed id status none r = r
changed id status (some inst) r = record r {
  instances = Map.insert id (set_status status inst) r.instances;
}

unfoldable pub change_status : String → String → Manager → Manager
change_status id status m = record m {
  repo = changed id status (Map.lookup id m.repo.instances) m.repo;
}

pub data Call : Type 0 where
  launches : Option Instance → Call
  stops : Bool → String → Call
  adds : Instance → Call
  removes : String → Call
  finds : FetchTabs → Map Instance → String → Call
  registers : String → String → Call
  invalidates : String → Call
  refreshes : FetchTabs → Map Instance → Call
  allocates : (ℕ → ℕ) → Map Instance → Call
  sets_policy : String → Call
  changes : String → String → Call

unfoldable pub call : Call → Manager → Manager
unfolding launch stop find register_tab invalidate_tab refresh allocate set_allocation_policy
    change_status Repository.add Repository.remove
call (launches answer) m = (launch answer m).0
call (stops answer id) m = (stop answer id m).0
call (adds inst) m = record m { repo = Repository.add inst m.repo }
call (removes id) m = record m { repo = Repository.remove id m.repo }
call (finds fetch order tab) m = (find fetch order tab m).0
call (registers tab id) m = register_tab tab id m
call (invalidates tab) m = invalidate_tab tab m
call (refreshes fetch order) m = refresh fetch order m
call (allocates draw order) m = (allocate draw order m).0
call (sets_policy name) m = set_allocation_policy name m
call (changes id status) m = change_status id status m

unfoldable pub run : List Call → Manager → Manager
unfolding call
run [] m = m
run (c ∷ cs) m = run cs (call c m)
