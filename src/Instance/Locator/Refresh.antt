-- ===== src/Instance/Locator/Refresh.antt =====
-- internal/instance/locator.go: what RefreshAll caches.
use pinchtab.Prelude.{
  ◌≡◌, ◌⊎◌, inl, inr, refl, sym, ◌∙◌, ap, subst, String, true, false, Option, none, some, List, [],
  ◌∷◌, if◌then◌else◌, Bool-cases, All, arith,
}
use pinchtab.Prelude.Map
use pinchtab.Prelude.Map.{Map}
use pinchtab.Instance.Repository.{Instance, Repository, Visits, running}
use pinchtab.Instance.Repository.Running.{Keyed, InService, running-InService}
use pinchtab.Instance.Locator.{
  FetchTabs, Locator, url_of, find_instance_by_tab_id, cache_tabs, cache_fetched, refresh_loop,
  refresh_all,
}
use pinchtab.Instance.Locator.Finds.{
  contains, contains_fetched, lists_tab, find_instance_by_tab_id-Found,
}

-- the owner of a tab, after one instance's tabs have been cached
cache_tabs-lookup :
    (tab id : String) (tabs : List String) (cache : Map String)
    → Map.lookup tab (cache_tabs id tabs cache)
      ≡ (if contains tab tabs then some id else Map.lookup tab cache)
cache_tabs-lookup tab id [] cache = refl
cache_tabs-lookup tab id (t ∷ tabs) cache =
    ground (
      arith,
      cache_tabs-lookup tab id tabs (Map.insert t id cache),
      Map.lookup-insert t tab id cache,
    )

fetched-lookup :
    (tab : String) (inst : Instance) (tabs : Option (List String)) (cache : Map String)
    → Map.lookup tab (cache_fetched inst tabs cache)
      ≡ (if contains_fetched tab tabs then some inst.id else Map.lookup tab cache)
fetched-lookup tab inst none cache = refl
fetched-lookup tab inst (some tabs) cache = cache_tabs-lookup tab inst.id tabs cache

-- the last of the instances that lists the tab, or else what was cached before
abbrev pub last_owner : FetchTabs → String → List Instance → Option String → Option String
last_owner fetch tab [] o = o
last_owner fetch tab (inst ∷ insts) o =
    last_owner fetch tab insts (if lists_tab fetch tab inst then some inst.id else o)

loop-lookup :
    (fetch : FetchTabs) (tab : String) (insts : List Instance) (cache : Map String)
    → Map.lookup tab (refresh_loop fetch insts cache)
      ≡ last_owner fetch tab insts (Map.lookup tab cache)
unfolding refresh_loop
loop-lookup fetch tab [] cache = refl
loop-lookup fetch tab (inst ∷ insts) cache =
    loop-lookup fetch tab insts (cache_fetched inst (fetch (url_of inst)) cache)
    ∙ ap (last_owner fetch tab insts) (fetched-lookup tab inst (fetch (url_of inst)) cache)

module _ (fetch : FetchTabs) (tab : String) where
  last_owner-some :
      (insts : List Instance) (id : String) → ¬ (last_owner fetch tab insts (some id) ≡ none)
  last_owner-some [] id e = absurd (ground (arith, e))
  last_owner-some (inst ∷ insts) id e = elim (Bool-cases (lists_tab fetch tab inst)) [
    | inl lists ↦ last_owner-some insts inst.id (rw lists at e)
    | inr lists ↦ last_owner-some insts id (rw lists at e)
  ]

  last_owner-none :
      (insts : List Instance)
      → last_owner fetch tab insts none ≡ none
      → All (λ inst. lists_tab fetch tab inst ≡ false) insts
  last_owner-none [] e = tt
  last_owner-none (inst ∷ insts) e = elim (Bool-cases (lists_tab fetch tab inst)) [
    | inl lists ↦ absurd (last_owner-some insts inst.id (rw lists at e))
    | inr lists ↦ (lists, last_owner-none insts (rw lists at e))
  ]

  -- An instance of a kind that lists the tab, by its id.
  abbrev Lister : (Instance → Type 0) → String → Type 0
  Lister P id = (inst : Instance) × (P inst × ((lists_tab fetch tab inst ≡ true) × (inst.id ≡ id)))

  last_owner-Lister :
      (P : Instance → Type 0) (insts : List Instance) (o : Option String) (id : String)
      → All P insts
      → last_owner fetch tab insts o ≡ some id
      → (o ≡ some id) ⊎ Lister P id
  last_owner-Lister P [] o id a e = inl e
  last_owner-Lister P (inst ∷ insts) o id a e = elim (Bool-cases (lists_tab fetch tab inst)) [
    | inl lists ↦ elim (last_owner-Lister P insts (some inst.id) id a.1 (rw lists at e)) [
      | inl same ↦ inr (inst, (a.0, (lists, ground (arith, same))))
      | inr found ↦ inr found
    ]
    | inr lists ↦ last_owner-Lister P insts o id a.1 (rw lists at e)
  ]

-- What is answered for a tab just after the cache has been made anew.
pub record Refreshed (fetch : FetchTabs) (tab : String) (r : Repository) (o : Option Instance)
    : Type 0 where
  pub sound :
      (inst : Instance) → o ≡ some inst → InService r inst × (lists_tab fetch tab inst ≡ true)
  pub complete : o ≡ none → (inst : Instance) → InService r inst → lists_tab fetch tab inst ≡ false

-- two instances of the repository with one id
InService-same :
    (r : Repository) (inst other : Instance)
    → InService r inst
    → InService r other
    → other.id ≡ inst.id
    → other ≡ inst
InService-same r inst other s s' e =
    let path = sym s'.0 ∙ ap (λ n. Map.lookup n r.instances) e ∙ s.0 in ground (arith, path)

-- where the cache of RefreshAll names an instance of the repository, it lists the tab
named-lists :
    (fetch : FetchTabs) (tab : String) (r : Repository) (insts : List Instance) (inst : Instance)
    → All (InService r) insts
    → InService r inst
    → Map.lookup tab (refresh_loop fetch insts []) ≡ some inst.id
    → lists_tab fetch tab inst ≡ true
unfolding Map.lookup
named-lists fetch tab r insts inst a s e =
    let last = sym (loop-lookup fetch tab insts []) ∙ e in
    elim (last_owner-Lister fetch tab (InService r) insts none inst.id a last) [
      | inl nothing ↦ absurd (ground (arith, nothing))
      | inr (other, (service, (lists, same))) ↦
          subst (λ i. lists_tab fetch tab i ≡ true) (InService-same r inst other s service same)
            lists
    ]

-- Where the entries stand under the ids of their instances, whatever order a `range` over them
-- takes, and while FetchTabs answers the same: after RefreshAll, FindInstanceByTabID answers for any
-- tab an instance of the repository that runs and lists the tab, and none only where there is none.
pub find_instance_by_tab_id-refresh_all :
    (fetch : FetchTabs) (order order' : Map Instance) (tab : String) (r : Repository) (l : Locator)
    → Visits order r.instances
    → Visits order' r.instances
    → Keyed r.instances
    → Refreshed fetch tab r
        (find_instance_by_tab_id fetch order' tab r (refresh_all fetch order l)).1
unfolding refresh_all
find_instance_by_tab_id-refresh_all fetch order order' tab r l v v' k =
    let l' = refresh_all fetch order l in
    let found = find_instance_by_tab_id-Found fetch order' tab r l' v' k in
    let insts = running-InService order r v k in
    record {
      sound = λ inst e.
          let service = found.in_service inst e in
          (
            service,
            elim (found.has_tab inst e) [
              | inl named ↦ named-lists fetch tab r (running order) inst insts service named
              | inr lists ↦ lists
            ],
          );
      complete = found.complete;
    }
