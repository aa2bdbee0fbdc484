-- ===== src/Scheduler/System.antt =====
-- The scheduler as a whole: any interleaving of the steps of its clients, workers and reapers.
pub mod Advance
pub mod Lives
pub mod QueueValid
pub mod Flights
pub mod Linked
pub mod Alone
pub mod Outcomes
pub mod Batches
pub mod Retained
pub mod Tests
use pinchtab.Prelude.{ℕ, String, Option, none, some, List, [], ◌∷◌}
use pinchtab.Scheduler.Task.{TaskRef, SubmitRequest}
use pinchtab.Scheduler.Config.{Config}
use pinchtab.Scheduler.State.{Scheduler, reload_config}
use pinchtab.Scheduler.Submit.{World, submit}
use pinchtab.Scheduler.Cancel.{Cancelling, cancel_step}
use pinchtab.Scheduler.Dispatch.{take, assign, start, Outcome, conclude, reap, stop, evict}

-- A step of some goroutine. The pointers of a worker's steps are not held to be those that it took, nor
-- is a step of Cancel held to stand where its call does: what is proved of all steps holds of those of
-- the workers and of the calls.
pub data Event : Type 0 where
  submits : World → SubmitRequest → Event
  cancels : ℕ → String → Cancelling → Event
  takes : Event
  assigns starts : ℕ → TaskRef → Event
  concludes : ℕ → ℕ → TaskRef → Outcome → Event
  reaps : ℕ → (TaskRef → ℕ) → Event
  evicts stops : ℕ → Event
  reloads : Config → Event

abbrev after_take : Scheduler → Option (TaskRef × Scheduler) → Scheduler
after_take s none = s
after_take s (some (_, s')) = s'

pub step : Event → Scheduler → Scheduler
step (submits w req) s = (submit w req s).0
step (cancels now id p) s = (cancel_step now id p s).0
step takes s = after_take s (take s)
step (assigns now r) s = (assign now r s).0
step (starts now r) s = (start now r s).0
step (concludes now latency r outcome) s = conclude now latency r outcome s
step (reaps now clock) s = reap now clock s
step (evicts now) s = evict now s
step (stops now) s = stop now s
step (reloads c) s = reload_config c s

pub run : List Event → Scheduler → Scheduler
run [] s = s
run (e ∷ es) s = run es (step e s)
