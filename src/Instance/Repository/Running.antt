-- ===== src/Instance/Repository/Running.antt =====
-- internal/instance/repository.go: the instances that Running returns.
use pinchtab.Prelude.{
  ◌≡◌, sym, ◌∙◌, subst, String, true, [], ◌∷◌, inl, inr, some, Bool-cases, All, arith,
}
use pinchtab.Prelude.Map
use pinchtab.Prelude.Map.{Map}
use pinchtab.Instance.Repository.{Instance, Repository, Visits, is_running, running}

-- What holds of the instances that run, entry by entry and along the list.
module _ (P : Instance → Type 0) where
  abbrev pub IfRunning : String → Instance → Type 0
  IfRunning key inst = is_running inst ≡ true → P inst

  pub running-All :
      (entries : Map Instance)
      → Map.Distinct entries
      → Map.Every IfRunning entries
      → All P (running entries)
  unfolding running
  running-All [] d p = tt
  running-All ((key, inst) ∷ entries) d p =
      let first = Map.Every-head IfRunning key inst entries p in
      let rest = running-All entries d.1 (Map.Every-tail IfRunning key inst entries d.0 p) in
      elim (Bool-cases (is_running inst)) [
        | inl runs ↦ rw runs (first runs, rest)
        | inr stopped ↦ rw stopped rest
      ]

  pub All-running : (entries : Map Instance) → All P (running entries) → Map.Every IfRunning entries
  unfolding running
  All-running [] a = λ key inst e. absurd (Map.lookup-nil key inst e)
  All-running ((key, inst) ∷ entries) a = elim (Bool-cases (is_running inst)) [
    | inl runs ↦
        let both = rw runs at a in
        Map.Every-cons IfRunning key inst entries (λ r. both.0) (All-running entries both.1)
    | inr stopped ↦
        let rest = rw stopped at a in
        Map.Every-cons IfRunning key inst entries (λ r. absurd (ground (arith, r, stopped)))
          (All-running entries rest)
  ]

-- The repository's entries stand under their instances' ids.
abbrev pub Keyed : Map Instance → Type 0
Keyed entries =
    (key : String) (inst : Instance) → Map.lookup key entries ≡ some inst → inst.id ≡ key

-- An instance of the repository that runs.
abbrev pub InService : Repository → Instance → Type 0
InService r inst = (Map.lookup inst.id r.instances ≡ some inst) × (is_running inst ≡ true)

pub running-InService :
    (order : Map Instance) (r : Repository)
    → Visits order r.instances
    → Keyed r.instances
    → All (InService r) (running order)
running-InService order r v k = running-All (InService r) order v.distinct (λ key inst e runs.
    let found = sym (v.same key) ∙ e in
    (subst (λ n. Map.lookup n r.instances ≡ some inst) (sym (k key inst found)) found, runs))

-- where no instance is returned, none runs
pub running_none :
    (order : Map Instance) (r : Repository)
    → Visits order r.instances
    → running order ≡ []
    → (inst : Instance) → ¬ InService r inst
running_none order r v e inst s =
    let P = λ (i : Instance). ¬ InService r i in
    All-running P order (subst (All P) (sym e) tt) inst.id inst (v.same inst.id ∙ s.0) s.1 s
