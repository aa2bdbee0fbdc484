-- ===== src/Bridge/Tabs/Executor.antt =====
-- internal/bridge/tabs/tab_executor.go: tasks run on tabs, a bounded number at once and one at a
-- time on each tab. A call is cut where it takes or gives back a slot or a mutex; between two steps
-- of one call any other may move. What a task does is left out: safeRun returns in any case.
pub mod Slots
pub mod Mutexes
pub mod Exclusive
mod Tests
use pinchtab.Prelude.{
  ℕ, suc, ◌+◌, ◌*◌, ◌-◌, String, Bool, true, false, Option, none, some, List, [], ◌∷◌, length, ltb,
  ◌==◌, str_eq, get_elem?, put, total, if◌then◌else◌,
}
use pinchtab.Prelude.Int.{ℤ, pos, negsuc}
use pinchtab.Prelude.Map
use pinchtab.Prelude.Map.{Map}

-- Where a call of Execute or RemoveTab stands; a mutex is a number.
pub data Phase : Type 0 where
  -- Execute: waits for a slot; has one; its goroutine waits for the mutex, or has it; runs the
  -- task; has given the mutex back
  waiting : Phase
  placed : Phase
  contending : ℕ → Phase
  granted : ℕ → Phase
  executing : ℕ → Phase
  leaving : Phase
  -- the goroutine that is left behind when the context ends: before and after Lock
  abandoned : ℕ → Phase
  abandoned_held : ℕ → Phase
  -- RemoveTab, before and after Lock
  removing : ℕ → Phase
  removing_held : ℕ → Phase

pub record Job : Type 0 where
  pub tab : String
  pub phase : Phase

-- How a call of Execute ends.
pub data Returned : Type 0 where
  empty_tab : Returned
  already_done : String → Returned
  no_slot : String → Returned
  no_lock : String → Returned
  ran : String → Returned

pub record TabExecutor : Type 0 where
  pub max_parallel : ℕ
  -- the elements of the channel that is the semaphore
  pub used : ℕ
  pub tab_locks : Map ℕ
  -- the next mutex to be made
  pub next : ℕ
  pub jobs : List Job
  pub returned : List Returned

-- DefaultMaxParallel
abbrev pub default_max_parallel : ℕ → ℕ
default_max_parallel cpus = let n = cpus * 2 in if ltb 8 n then 8 else if ltb n 1 then 1 else n

abbrev positive : ℤ → ℕ → ℕ
positive (pos n) default = if ltb 0 n then n else default
positive (negsuc n) default = default

-- NewTabExecutor
unfoldable pub new_tab_executor : ℤ → ℕ → TabExecutor
new_tab_executor max_parallel cpus = record {
  max_parallel = positive max_parallel (default_max_parallel cpus);
  used = 0;
  tab_locks = [];
  next = 0;
  jobs = [];
  returned = [];
}

-- tabMutex: the mutex of a tab, made where there is none
abbrev tab_mutex_of : String → Option ℕ → TabExecutor → TabExecutor × ℕ
tab_mutex_of tab (some m) te = (te, m)
tab_mutex_of tab none te =
    (record te { tab_locks = Map.insert tab te.next te.tab_locks; next = suc te.next }, te.next)

unfoldable pub tab_mutex : String → TabExecutor → TabExecutor × ℕ
tab_mutex tab te = tab_mutex_of tab (Map.lookup tab te.tab_locks) te

-- 1 where a job has the mutex
abbrev pub has : ℕ → Job → ℕ
has m j = elim j.phase [
  | granted n ↦ if m == n then 1 else 0
  | executing n ↦ if m == n then 1 else 0
  | abandoned_held n ↦ if m == n then 1 else 0
  | removing_held n ↦ if m == n then 1 else 0
  | _ ↦ 0
]

-- whether a mutex is taken
abbrev pub is_locked : ℕ → TabExecutor → Bool
is_locked m te = ltb 0 (total (has m) te.jobs)

-- A step of a job: the executor after it without the job itself, and the job unless it has ended.
abbrev pub Moved : Type 0
Moved = TabExecutor × Option Phase

abbrev release : TabExecutor → TabExecutor
release te = record te { used = te.used - 1 }

abbrev returns : Returned → TabExecutor → TabExecutor
returns r te = record te { returned = r ∷ te.returned }

abbrev lock_or_wait : ℕ → Phase → Phase → TabExecutor → Moved
lock_or_wait m wait locked te = if is_locked m te then (te, some wait) else (te, some locked)

abbrev contends : TabExecutor × ℕ → Moved
contends (te, m) = (te, some (contending m))

-- the next step of a job on a tab; where it is `done`, the context has ended and the select sees it
unfoldable pub advance : Bool → String → Phase → TabExecutor → Moved
unfolding tab_mutex
advance done tab waiting te =
    if done
    then (returns (no_slot tab) te, none)
    else if ltb te.used te.max_parallel
    then (record te { used = suc te.used }, some placed)
    else (te, some waiting)
advance done tab placed te = contends (tab_mutex tab te)
advance done tab (contending m) te =
    if done
    then (returns (no_lock tab) (release te), some (abandoned m))
    else lock_or_wait m (contending m) (granted m) te
advance done tab (granted m) te =
    if done
    then (returns (no_lock tab) (release te), some (abandoned_held m))
    else (te, some (executing m))
advance done tab (executing m) te = (te, some leaving)
advance done tab leaving te = (returns (ran tab) (release te), none)
advance done tab (abandoned m) te = lock_or_wait m (abandoned m) (abandoned_held m) te
advance done tab (abandoned_held m) te = (te, none)
advance done tab (removing m) te = lock_or_wait m (removing m) (removing_held m) te
advance done tab (removing_held m) te = (te, none)

abbrev pub start : String → Phase → TabExecutor → TabExecutor
start tab p te = record te { jobs = record { tab = tab; phase = p } ∷ te.jobs }

-- the start of Execute, and whether the context has ended
unfoldable pub execute : Bool → String → TabExecutor → TabExecutor
execute done tab te =
    if str_eq tab ""
    then returns empty_tab te
    else if done
    then returns (already_done tab) te
    else start tab waiting te

-- the start of RemoveTab
abbrev remove_found : String → Option ℕ → TabExecutor → TabExecutor
remove_found tab none te = te
remove_found tab (some m) te =
    start tab (removing m) (record te { tab_locks = Map.delete tab te.tab_locks })

unfoldable pub remove_tab : String → TabExecutor → TabExecutor
remove_tab tab te = remove_found tab (Map.lookup tab te.tab_locks) te

-- Stats: the slots used and free, and the number of tabs
unfoldable pub stats : TabExecutor → ℕ × (ℕ × ℕ)
stats te = (te.used, (te.max_parallel - te.used, length te.tab_locks))

pub data Action : Type 0 where
  executes : Bool → String → Action
  removes : String → Action
  move : ℕ → Bool → Action

abbrev pub on_tab : String → Option Phase → Option Job
on_tab tab none = none
on_tab tab (some p) = some (record { tab = tab; phase = p })

abbrev pub settle : ℕ → String → Moved → TabExecutor
settle i tab (te, next) = record te { jobs = put i (on_tab tab next) te.jobs }

unfoldable pub moved : ℕ → Bool → Option Job → TabExecutor → TabExecutor
unfolding advance
moved i done none te = te
moved i done (some j) te = settle i j.tab (advance done j.tab j.phase te)

unfoldable pub step : Action → TabExecutor → TabExecutor
unfolding execute remove_tab moved
step (executes done tab) te = execute done tab te
step (removes tab) te = remove_tab tab te
step (move i done) te = moved i done (get_elem? te.jobs i) te

unfoldable pub run : List Action → TabExecutor → TabExecutor
unfolding step
run [] te = te
run (a ∷ acts) te = run acts (step a te)
