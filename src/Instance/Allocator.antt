-- ===== src/Instance/Allocator.antt =====
-- internal/instance/allocator.go: the instance that takes the next request.
use pinchtab.Prelude.{
  ℕ, suc, ◌%◌, ◌<◌, ◌≡◌, refl, String, Option, none, some, List, [], ◌∷◌, length, get_elem?,
  get_elem?-lt, subst, All, All-get, arith,
}
use native.Mathlib.Nat.{mod-lt}
use pinchtab.Prelude.Map.{Map}
use pinchtab.Instance.Repository.{Instance, Repository, Visits, running}
use pinchtab.Instance.Repository.Running.{Keyed, InService, running-InService, running_none}
use pinchtab.Instance.Policy.{Policy, fcfs, round_robin, random, name, select, next_index}

-- How Allocate ends; a policy that fails is named.
pub data Allocation : Type 0 where
  allocated : Instance → Allocation
  no_running : Allocation
  policy_failed : String → Allocation

abbrev selected : Policy × Option Instance → Policy × Allocation
selected (p, none) = (p, policy_failed (name p))
selected (p, some inst) = (p, allocated inst)

abbrev allocate_from : (ℕ → ℕ) → Policy → List Instance → Policy × Allocation
allocate_from draw p [] = (p, no_running)
allocate_from draw p insts = selected (select draw p insts)

-- Allocate
unfoldable pub allocate : (ℕ → ℕ) → Map Instance → Policy → Policy × Allocation
unfolding running
allocate draw order p = allocate_from draw p (running order)

-- How Allocate ends, and what it says of the instances.
pub record Allocated (r : Repository) (o : Allocation) : Type 0 where
  pub in_service : (inst : Instance) → o ≡ allocated inst → InService r inst
  pub none_runs : o ≡ no_running → (inst : Instance) → ¬ InService r inst
  pub never_fails : (name : String) → ¬ (o ≡ policy_failed name)

module _ (draw : ℕ → ℕ) (below : (n : ℕ) → 0 < n → draw n < n) where
  -- a policy selects one of the candidates
  select_one :
      (p : Policy) (inst : Instance) (insts : List Instance)
      → (i : ℕ) × ((x : Instance) × (((select draw p (inst ∷ insts)).1 ≡ some x)
            × (get_elem? (inst ∷ insts) i ≡ some x)))
  unfolding select next_index
  select_one fcfs inst insts = (0, (inst, (refl, refl)))
  select_one (round_robin c) inst insts =
      let i = (next_index c).1 % length (inst ∷ insts) in
      let (x, e) =
        get_elem?-lt (inst ∷ insts) i
          (mod-lt (next_index c).1 {m = suc (length insts)} (omega arith)) in
      (i, (x, (e, e)))
  select_one random inst insts =
      let i = draw (length (inst ∷ insts)) in
      let (x, e) = get_elem?-lt (inst ∷ insts) i (below (suc (length insts)) (omega arith)) in
      (i, (x, (e, e)))

  from-Allocated :
      (r : Repository) (p : Policy) (insts : List Instance)
      → All (InService r) insts
      → (insts ≡ [] → (inst : Instance) → ¬ InService r inst)
      → Allocated r (allocate_from draw p insts).1
  from-Allocated r p [] a stopped = record {
    in_service = λ inst e. absurd (ground (arith, e));
    none_runs = λ e. stopped refl;
    never_fails = λ n e. ground (arith, e);
  }
  from-Allocated r p (inst ∷ insts) a stopped =
      let (i, (x, (e, at))) = select_one p inst insts in
      let service = All-get (InService r) i x (inst ∷ insts) a at in
      rw e (record {
        in_service =
            λ j f. let same : x ≡ j = ground (arith, f) in subst (InService r) same service;
        none_runs = λ f. absurd (ground (arith, f));
        never_fails = λ n f. ground (arith, f);
      })

-- Whatever the policy, the order that a `range` takes and the random numbers drawn below their
-- bounds, where the entries stand under the ids of their instances: Allocate gives an instance of
-- the repository that runs, or says that none runs, which is then so; the policy never fails.
pub allocate-Allocated :
    (draw : ℕ → ℕ) (order : Map Instance) (p : Policy) (r : Repository)
    → ((n : ℕ) → 0 < n → draw n < n)
    → Visits order r.instances
    → Keyed r.instances
    → Allocated r (allocate draw order p).1
unfolding allocate
allocate-Allocated draw order p r below v k =
    from-Allocated draw below r p (running order) (running-InService order r v k)
      (running_none order r v)
