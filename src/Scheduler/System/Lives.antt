-- ===== src/Scheduler/System/Lives.antt =====
-- What happens to a task over any interleaving.
use pinchtab.Prelude.{ℕ, ◌<◌, ◌≡◌, refl, true, false, List, [], ◌∷◌}
use pinchtab.Scheduler.Task.{TaskState, is_terminal}
use pinchtab.Scheduler.Task.Lifecycle.{◌⟶*◌, here, onward, edge_allowed}
use pinchtab.Scheduler.State.{Scheduler}
use pinchtab.Scheduler.System.Advance.{Advances, Advances-refl, Advances-trans}
use pinchtab.Scheduler.System.Advance.Steps.{
  submit-Advances, cancel_step-Advances, take-Advances, assign-Advances, start-Advances,
  conclude-Advances, reap-Advances, evict-Advances, stop-Advances, reload-Advances,
}
use pinchtab.Scheduler.System.{
  Event, submits, cancels, takes, assigns, starts, concludes, reaps, evicts, stops, reloads, step,
  run,
}

-- One step of any goroutine keeps each task the same task and moves it along its life cycle only.
pub step-Advances : (e : Event) (s : Scheduler) → Advances s (step e s)
unfolding step
step-Advances (submits w req) s = submit-Advances w req s
step-Advances (cancels now id p) s = cancel_step-Advances now id p s
step-Advances takes s = take-Advances s
step-Advances (assigns now r) s = assign-Advances now r s
step-Advances (starts now r) s = start-Advances now r s
step-Advances (concludes now latency r o) s = conclude-Advances now latency r o s
step-Advances (reaps now clock) s = reap-Advances now clock s
step-Advances (evicts now) s = evict-Advances now s
step-Advances (stops now) s = stop-Advances now s
step-Advances (reloads c) s = reload-Advances c s

-- Over any interleaving of submissions, cancellations, dispatches, reapers, shutdown and reloads,
-- every task in the scheduler's memory stays the same task and moves along the life cycle only.
pub run-Advances : (es : List Event) (s : Scheduler) → Advances s (run es s)
unfolding run
run-Advances [] s = Advances-refl s
run-Advances (e ∷ es) s = Advances-trans (step-Advances e s) (run-Advances es (step e s))

final : {s t : TaskState} → s ⟶* t → is_terminal s ≡ true → t ≡ s
final here h = refl
final (onward p e) h = absurd (ended (final p h) (edge_allowed e).1 h)
  where
    ended : {s t : TaskState} → t ≡ s → is_terminal t ≡ false → is_terminal s ≡ true → ⊥
    ended e a b = cc

-- A task that has come to a terminal state stays in that state, and the same task, whatever the
-- goroutines do afterwards: a result that comes in late cannot undo a cancellation.
pub run-terminal_state :
    (es : List Event) (s : Scheduler) (p : ℕ)
    → p < s.next_address
    → is_terminal (s.memory p).state ≡ true
    → (((run es s).memory p).state ≡ (s.memory p).state)
      × (((run es s).memory p).spec ≡ (s.memory p).spec)
run-terminal_state es s p h over =
    let later = (run-Advances es s).later p h in (final later.moves over, later.same)
