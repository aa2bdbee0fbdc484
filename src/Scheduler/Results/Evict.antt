-- ===== src/Scheduler/Results/Evict.antt =====
-- What the store keeps.
use pinchtab.Prelude.{
  ℕ, ◌+◌, ◌-◌, ◌<◌, ◌≡◌, refl, ◌⊎◌, inl, inr, String, true, Option, none, some, [], ◌∷◌, eq_iff,
  eq_refl, if◌then◌else◌, Bool-cases, arith,
}
use pinchtab.Prelude.Map
use pinchtab.Prelude.Map.{Map}
use pinchtab.Scheduler.Task.{Task, is_terminal}
use pinchtab.Scheduler.Results.{ResultStore, store, get, is_stale, evict, evict_loop}

-- A task id has one snapshot.
abbrev pub IsStore : ResultStore → Type 0
IsStore rs = Map.Distinct rs.tasks

abbrev keep_fresh : ℕ → Option Task → Option Task
keep_fresh cutoff none = none
keep_fresh cutoff (some t) = if is_stale cutoff t then none else some t

evict_loop-absent :
    (cutoff : ℕ) (k : String) (m : Map Task)
    → Map.lookup k m ≡ none
    → Map.lookup k (evict_loop cutoff m) ≡ none
unfolding evict_loop Map.lookup
evict_loop-absent cutoff k [] e = refl
evict_loop-absent cutoff k ((j, t) ∷ m) e = ground (arith, evict_loop-absent cutoff k m)

lookup-evict_loop :
    (cutoff : ℕ) (k : String) (m : Map Task)
    → Map.Distinct m
    → Map.lookup k (evict_loop cutoff m) ≡ keep_fresh cutoff (Map.lookup k m)
unfolding evict_loop Map.lookup
lookup-evict_loop cutoff k [] d = refl
lookup-evict_loop cutoff k ((j, t) ∷ m) d =
    ground (arith, eq_iff j k, evict_loop-absent cutoff j m, lookup-evict_loop cutoff k m)

-- What evict leaves of the snapshot of a task.
abbrev pub IsOld : ℕ → ResultStore → Task → Type 0
IsOld now rs t =
    (is_terminal t.state ≡ true) × (0 < t.completed_at) × (t.completed_at + rs.ttl < now)

-- In a store with one snapshot per id, evict drops exactly the snapshots of tasks in a terminal
-- state whose completion is set and lies more than the time to live before now, and leaves every
-- other snapshot as it is.
pub get-evict :
    (now : ℕ) (rs : ResultStore) (id : String) (t : Task)
    → IsStore rs
    → get id rs ≡ some t
    → ((get id (evict now rs) ≡ none) × IsOld now rs t)
      ⊎ ((get id (evict now rs) ≡ some t) × ¬ IsOld now rs t)
unfolding evict get
get-evict now rs id t d e =
    let kept = lookup-evict_loop (now - rs.ttl) id rs.tasks d in
    elim (Bool-cases (is_stale (now - rs.ttl) t)) [
      | inl stale ↦ inl (ground (arith, kept), (ground arith, ground arith, ground arith))
      | inr fresh ↦ inr (ground (arith, kept), λ (a, b, c). ground arith)
    ]

pub evict-IsStore : (now : ℕ) (rs : ResultStore) → IsStore rs → IsStore (evict now rs)
unfolding evict evict_loop
evict-IsStore now rs d = loop (now - rs.ttl) rs.tasks d
  where
    loop : (cutoff : ℕ) (m : Map Task) → Map.Distinct m → Map.Distinct (evict_loop cutoff m)
    loop cutoff [] d = tt
    loop cutoff ((j, t) ∷ m) d = ground (arith, evict_loop-absent cutoff j m, loop cutoff m)

pub get-store : (t : Task) (rs : ResultStore) → get t.id (store t rs) ≡ some t
unfolding get store
get-store t rs = rw (Map.lookup-insert t.id t.id t rs.tasks, eq_refl t.id) refl

pub store-IsStore : (t : Task) (rs : ResultStore) → IsStore rs → IsStore (store t rs)
unfolding store
store-IsStore t rs d = Map.insert-Distinct t.id t rs.tasks d
