-- ===== src/Scheduler/Task.antt =====
-- internal/scheduler/task.go: a task and its states. A `time.Time` is a number of nanoseconds, and
-- 0 is the zero time. `any` values (Params, Result) are their JSON texts.
pub mod Lifecycle
use pinchtab.Prelude.{
  ℕ, ◌+◌, ◌-◌, ◌/◌, String, Bool, true, false, not, ◌&&◌, ◌||◌, Option, none, some, List, [], ◌∷◌,
  ltb, leb, ◌==◌, str_eq, if◌then◌else◌,
}
use pinchtab.Prelude.Int.{ℤ}
use pinchtab.Prelude.Text.{is_blank}

pub data TaskState : Type 0 where
  queued assigned running done failed cancelled rejected : TaskState

pub TaskState-discrete : Discrete TaskState
TaskState-discrete = hlevel

abbrev pub is_terminal : TaskState → Bool
is_terminal done = true
is_terminal failed = true
is_terminal cancelled = true
is_terminal rejected = true
is_terminal _ = false

-- The fields of a Task that are never assigned after Submit has built it, and its address, which
-- stands for the pointer that the queue, the live map and the workers share.
pub record TaskRef : Type 0 where
  pub address : ℕ
  pub id : String
  pub agent_id : String
  pub action : String
  pub tab_id : String
  pub ref : String
  pub params : String
  pub priority : ℤ
  pub deadline : ℕ
  pub created_at : ℕ
  pub callback_url : String

-- A Task; Selector, which Submit leaves empty, is left out.
pub record Task : Type 0 where
  pub spec : TaskRef
  pub open spec use *
  pub state : TaskState
  pub started_at : ℕ
  pub completed_at : ℕ
  pub latency_ms : ℕ
  pub result : Option String
  pub error : String
  pub position : ℕ

-- the transition that a `case` of SetState's switch allows
abbrev pub can_transition : TaskState → TaskState → Bool
can_transition queued assigned = true
can_transition queued cancelled = true
can_transition queued failed = true
can_transition queued rejected = true
can_transition assigned running = true
can_transition assigned cancelled = true
can_transition running done = true
can_transition running failed = true
can_transition running cancelled = true
can_transition _ _ = false

pub data StateError : Type 0 where
  from_terminal invalid_transition : TaskState → TaskState → StateError

-- The second switch of SetState. `now` and `started_at` are readings of one monotonic clock.
abbrev complete_at : ℕ → Task → Task
complete_at now t = record t {
  completed_at = now;
  latency_ms = if t.started_at == 0 then t.latency_ms else (now - t.started_at) / 1000000;
}

abbrev stamp : ℕ → TaskState → Task → Task
stamp now assigned t = record t { started_at = now }
stamp now running t = record t { started_at = if t.started_at == 0 then now else t.started_at }
stamp now done t = complete_at now t
stamp now failed t = complete_at now t
stamp now cancelled t = complete_at now t
stamp now _ t = t

-- SetState at the time `now`: the task afterwards, which an error leaves as it was, and the error.
unfoldable pub set_state : ℕ → Task → TaskState → Task × Option StateError
set_state now t next =
    if is_terminal t.state
    then (t, some (from_terminal t.state next))
    else if can_transition t.state next
    then (stamp now next (record t { state = next }), none)
    else (t, some (invalid_transition t.state next))

pub record SubmitRequest : Type 0 where
  pub agent_id : String
  pub action : String
  pub tab_id : String
  pub ref : String
  pub params : String
  pub priority : ℤ
  pub deadline : String
  pub callback_url : String

pub data ValidationError : Type 0 where
  missing_agent_id missing_action invalid_callback_url : ValidationError

-- Validate; `valid_callback` answers whether validateCallbackURL, which asks the resolver for the
-- host's addresses, returns no error.
unfoldable pub validate : (String → Bool) → SubmitRequest → Option ValidationError
unfolding is_blank
validate valid_callback r =
    if str_eq r.agent_id ""
    then some missing_agent_id
    else if str_eq r.action ""
    then some missing_action
    else if not (is_blank r.callback_url) && not (valid_callback r.callback_url)
    then some invalid_callback_url
    else none
