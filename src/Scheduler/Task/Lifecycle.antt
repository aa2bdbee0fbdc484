-- ===== src/Scheduler/Task/Lifecycle.antt =====
-- The life of a task under SetState.
use pinchtab.Prelude.{
  ℕ, ◌≡◌, ◌≢◌, refl, ◌⊎◌, inl, inr, true, false, Option, none, ◌<◌, arith, List, [], ◌∷◌,
  Bool-cases,
}
use pinchtab.Scheduler.Task.{
  Task, TaskState, queued, assigned, running, done, failed, cancelled, rejected, is_terminal,
  can_transition, stamp, set_state, StateError,
}

-- The life cycle as a diagram.
infix 40 ◌⟶◌ ◌⟶*◌
pub data ◌⟶◌ : TaskState → TaskState → Type 0 where
  assign : queued ⟶ assigned
  expire : queued ⟶ failed
  reject : queued ⟶ rejected
  start : assigned ⟶ running
  finish : running ⟶ done
  fail : running ⟶ failed
  drop_queued : queued ⟶ cancelled
  drop_assigned : assigned ⟶ cancelled
  drop_running : running ⟶ cancelled

pub data ◌⟶*◌ (s : TaskState) : TaskState → Type 0 where
  here : s ⟶* s
  onward : {t u : TaskState} → s ⟶* t → t ⟶ u → s ⟶* u

ruleset edges =
    (assign, expire, reject, start, finish, fail, drop_queued, drop_assigned, drop_running)

edge_sound : (s n : TaskState) → can_transition s n ≡ true → s ⟶ n
edge_sound queued assigned h = assign
edge_sound queued cancelled h = drop_queued
edge_sound queued failed h = expire
edge_sound queued rejected h = reject
edge_sound assigned running h = start
edge_sound assigned cancelled h = drop_assigned
edge_sound running done h = finish
edge_sound running failed h = fail
edge_sound running cancelled h = drop_running
edge_sound _ _ h = cc

pub edge_allowed : {s n : TaskState} → s ⟶ n → (can_transition s n ≡ true) × (is_terminal s ≡ false)
edge_allowed assign = (refl, refl)
edge_allowed expire = (refl, refl)
edge_allowed reject = (refl, refl)
edge_allowed start = (refl, refl)
edge_allowed finish = (refl, refl)
edge_allowed fail = (refl, refl)
edge_allowed drop_queued = (refl, refl)
edge_allowed drop_assigned = (refl, refl)
edge_allowed drop_running = (refl, refl)

allowed_not_terminal : (s n : TaskState) → can_transition s n ≡ true → is_terminal s ≡ false
allowed_not_terminal s n h = (edge_allowed (edge_sound s n h)).1

abbrev pub Follows : Task → TaskState → Task × Option StateError → Type 0
Follows t next (t', e) =
    (e ≡ none) × (t.state ⟶ next) × (t'.state ≡ next) × (t'.spec ≡ t.spec)
    ⊎ (e ≢ none) × ¬ (t.state ⟶ next) × (t' ≡ t)

stamp_keeps :
    (now : ℕ) (next : TaskState) (t : Task)
    → ((stamp now next t).state ≡ t.state) × ((stamp now next t).spec ≡ t.spec)
stamp_keeps now assigned t = (refl, refl)
stamp_keeps now _ t = (refl, refl)

-- SetState succeeds exactly along an edge of the diagram, and then the task is in the state asked
-- for and is the same task; else it reports an error and leaves the task as it was.
pub set_state-Follows :
    (now : ℕ) (t : Task) (next : TaskState) → Follows t next (set_state now t next)
unfolding set_state
set_state-Follows now t next = elim (Bool-cases (can_transition t.state next)) [
  | inl ok ↦
      let keeps = stamp_keeps now next (record t { state = next }) in
      rw (allowed_not_terminal t.state next ok, ok)
        (inl (refl, edge_sound t.state next ok, keeps.0, keeps.1))
  | inr bad ↦
      let refuse : ¬ (t.state ⟶ next) = λ e. ground (arith, (edge_allowed e).0) in
      elim (Bool-cases (is_terminal t.state)) [
        | inl end ↦ rw end (inr ((λ e. cc), refuse, refl))
        | inr open_end ↦ rw (open_end, bad) (inr ((λ e. cc), refuse, refl))
      ]
]

-- A task on which any calls of SetState are made, at any times and for any states.
pub run : Task → List (ℕ × TaskState) → Task
run t [] = t
run t ((now, next) ∷ calls) = run (set_state now t next).0 calls

pub step-⟶* : (now : ℕ) (t : Task) (next : TaskState) → t.state ⟶* (set_state now t next).0.state
step-⟶* now t next = elim (set_state-Follows now t next) [
  | inl (_, edge, e, _) ↦ rw e (onward here edge)
  | inr (_, _, e) ↦ rw e here
]

pub ⟶*-trans : {s t u : TaskState} → s ⟶* t → t ⟶* u → s ⟶* u
⟶*-trans p here = p
⟶*-trans p (onward q e) = onward (⟶*-trans p q) e

-- Any calls of SetState move a task along a path of the diagram.
pub run_follows : (t : Task) (calls : List (ℕ × TaskState)) → t.state ⟶* (run t calls).state
unfolding run
run_follows t [] = here
run_follows t ((now, next) ∷ calls) =
    ⟶*-trans (step-⟶* now t next) (run_follows (set_state now t next).0 calls)

-- A task in a terminal state is not changed by any later calls of SetState: neither its state nor
-- the times of its completion.
pub run-terminal :
    (t : Task) (calls : List (ℕ × TaskState)) → is_terminal t.state ≡ true → run t calls ≡ t
unfolding run set_state
run-terminal t [] h = refl
run-terminal t ((now, next) ∷ calls) h = rw h (run-terminal t calls h)

-- What holds of the times of a task that Submit has queued.
pub record IsTimed (t : Task) : Type 0 where
  pub unstarted : t.state ≡ queued → t.started_at ≡ 0
  pub started : (t.state ≡ assigned) ⊎ (t.state ≡ running) ⊎ (t.state ≡ done) → 0 < t.started_at
  pub unfinished : is_terminal t.state ≡ false → t.completed_at ≡ 0
  pub finished : (t.state ≡ done) ⊎ (t.state ≡ failed) ⊎ (t.state ≡ cancelled) → 0 < t.completed_at

-- SetState at a time after the zero time keeps the times in step with the state: a task has no
-- start while it is queued and has one once it is assigned, running or done, and it has a
-- completion time when it is done, failed or cancelled and none before it is in a terminal state.
pub set_state-IsTimed :
    (now : ℕ) (t : Task) (next : TaskState) → 0 < now → IsTimed t → IsTimed (set_state now t next).0
unfolding set_state
set_state-IsTimed now t next p v = ground arith
