-- ===== src/Scheduler/System/Outcomes.antt =====
-- What a call of Cancel comes to, with other goroutines between its sections.
use pinchtab.Prelude.{
  ℕ, ◌<◌, ◌≡◌, ◌⊎◌, String, Bool, true, false, none, some, List, [], ◌∷◌, if◌then◌else◌,
}
use pinchtab.Prelude.Map
use pinchtab.Scheduler.Task.{Task, TaskRef, from_terminal, cancelled, is_terminal}
use pinchtab.Scheduler.Results
use pinchtab.Scheduler.State.{Scheduler, load, get_task}
use pinchtab.Scheduler.Cancel.{
  not_found, not_active, already_terminal, cancel_failed, Cancelling, answered, cancel_step,
}
use pinchtab.Scheduler.System.{Event, run}
use pinchtab.Scheduler.System.Alone.{Alone}

-- What the other goroutines do before a section of the call, and the time of the section.
abbrev pub Turn : Type 0
Turn = List Event × ℕ

abbrev pub is_answered : Cancelling → Bool
is_answered (answered o) = true
is_answered _ = false

-- The call with the others between its sections, until it answers.
unfoldable pub race : String → List Turn → Cancelling → Scheduler → Scheduler × Cancelling
race id [] p s = (s, p)
race id ((others, now) ∷ turns) p s =
    let (s', p') = cancel_step now id p (run others s) in
    let rest = race id turns p' s' in if is_answered p then (s, p) else rest

-- The scheduler at the first section, and, if that changes nothing, at the second.
abbrev pub at_first : List Turn → Scheduler → Scheduler
at_first [] s = s
at_first ((others, now) ∷ turns) s = run others s

abbrev pub at_second : List Turn → Scheduler → Scheduler
at_second [] s = s
at_second ((others, now) ∷ turns) s = at_first turns (run others s)

-- What becomes of a live task that was not in a terminal state when Cancel read its state.
abbrev pub Settled : String → TaskRef → Scheduler × Cancelling → Type 0
Settled id r (s', answered none) =
    ((load r s').state ≡ cancelled)
    × (Map.lookup id s'.live ≡ none)
    × (get_task id s' ≡ some (load r s'))
Settled id r (s', answered (some (cancel_failed e))) =
    (is_terminal (load r s').state ≡ true) × (e ≡ from_terminal (load r s').state cancelled)
Settled id r _ = ⊥

-- The call has answered, and truly so: `first` and `second` are the schedulers of its first sections.
abbrev pub Cancelled : String → Scheduler → Scheduler → Scheduler × Cancelling → Type 0
Cancelled id first second (s', answered (some not_found)) =
    (s' ≡ second) × (Map.lookup id first.live ≡ none) × (Results.get id s'.results ≡ none)
Cancelled id first second (s', answered (some not_active)) =
    (s' ≡ second)
    × (Map.lookup id first.live ≡ none)
    × ((t : Task) × (Results.get id s'.results ≡ some t) × (is_terminal t.state ≡ false))
Cancelled id first second (s', answered (some (already_terminal f))) =
    (s' ≡ second)
    × (is_terminal f ≡ true)
    × ((Map.lookup id first.live ≡ none)
          × ((t : Task) × (Results.get id s'.results ≡ some t) × (t.state ≡ f))
        ⊎ (r : TaskRef) × (Map.lookup id first.live ≡ some r) × ((load r s').state ≡ f))
Cancelled id first second (s', answered (some (cancel_failed e))) =
    (r : TaskRef) × (Map.lookup id first.live ≡ some r)
    × (is_terminal (load r second).state ≡ false)
    × Settled id r (s', answered (some (cancel_failed e)))
Cancelled id first second (s', answered none) =
    (r : TaskRef) × (Map.lookup id first.live ≡ some r)
    × (is_terminal (load r second).state ≡ false)
    × Settled id r (s', answered none)
Cancelled id first second _ = ⊥

-- The task that the call has found.
record Held (id : String) (r : TaskRef) (s : Scheduler) : Type 0 where
  pub same_id : r.id ≡ id
  pub below : r.address < s.next_address
  pub task : (load r s).spec ≡ r
