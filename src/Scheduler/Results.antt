-- ===== src/Scheduler/Results.antt =====
-- internal/scheduler/results.go: snapshots of tasks, kept until some time after their completion.
-- Each operation holds the store's lock. A Duration is a number of nanoseconds.
pub mod Evict
use pinchtab.Prelude.{
  ℕ, ◌-◌, String, Bool, true, false, not, ◌&&◌, ◌||◌, Option, List, [], ◌∷◌, ltb, ◌==◌, str_eq,
  if◌then◌else◌,
}
use pinchtab.Prelude.Map
use pinchtab.Prelude.Map.{Map}
use pinchtab.Scheduler.Task.{
  Task, TaskState, queued, assigned, running, done, failed, cancelled, rejected, is_terminal,
}

pub record ResultStore : Type 0 where
  pub tasks : Map Task
  pub ttl : ℕ

unfoldable pub new_result_store : ℕ → ResultStore
new_result_store ttl = record { tasks = []; ttl = ttl }

pub set_ttl : ℕ → ResultStore → ResultStore
set_ttl ttl rs = record rs { ttl = ttl }

-- A Task of the model is a value, so it is its own Snapshot.
unfoldable pub store : Task → ResultStore → ResultStore
store t rs = record rs { tasks = Map.insert t.id t rs.tasks }

unfoldable pub get : String → ResultStore → Option Task
get task_id rs = Map.lookup task_id rs.tasks

pub delete : String → ResultStore → ResultStore
delete task_id rs = record rs { tasks = Map.delete task_id rs.tasks }

abbrev pub same_state : TaskState → TaskState → Bool
same_state queued queued = true
same_state assigned assigned = true
same_state running running = true
same_state done done = true
same_state failed failed = true
same_state cancelled cancelled = true
same_state rejected rejected = true
same_state _ _ = false

-- `stateSet[s]`
abbrev pub has_state : List TaskState → TaskState → Bool
has_state [] s = false
has_state (r ∷ rs) s = same_state r s || has_state rs s

abbrev pub is_empty : List TaskState → Bool
is_empty [] = true
is_empty (s ∷ ss) = false

-- the two `continue` tests of List
abbrev pub is_listed : String → List TaskState → Task → Bool
is_listed agent_id states t =
    (str_eq agent_id "" || str_eq t.agent_id agent_id)
    && (is_empty states || has_state states t.state)

list_loop : String → List TaskState → Map Task → List Task
list_loop agent_id states [] = []
list_loop agent_id states ((id, t) ∷ m) =
    let rest = list_loop agent_id states m in if is_listed agent_id states t then t ∷ rest else rest

pub list : String → List TaskState → ResultStore → List Task
unfolding list_loop
list agent_id states rs = list_loop agent_id states rs.tasks

-- the test of evict, for the cutoff
abbrev pub is_stale : ℕ → Task → Bool
is_stale cutoff t = is_terminal t.state && not (t.completed_at == 0) && ltb t.completed_at cutoff

evict_loop : ℕ → Map Task → Map Task
evict_loop cutoff [] = []
evict_loop cutoff ((id, t) ∷ m) =
    let rest = evict_loop cutoff m in if is_stale cutoff t then rest else (id, t) ∷ rest

-- evict at the time `now`; a cutoff before the zero time evicts nothing, and nor does one of 0.
unfoldable pub evict : ℕ → ResultStore → ResultStore
unfolding evict_loop
evict now rs = record rs { tasks = evict_loop (now - rs.ttl) rs.tasks }
