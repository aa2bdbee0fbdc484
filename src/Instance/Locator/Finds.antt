-- ===== src/Instance/Locator/Finds.antt =====
-- internal/instance/locator.go: what FindInstanceByTabID answers.
use pinchtab.Prelude.{
  ◌≡◌, refl, sym, ◌∙◌, ap, subst, String, Bool, true, false, Option, none, some, List, [], ◌∷◌,
  str_eq, if◌then◌else◌, Bool-cases, Option-cases, inl, inr, ◌⊎◌, All, arith,
}
use pinchtab.Prelude.Map
use pinchtab.Prelude.Map.{Map}
use pinchtab.Instance.Repository.{Instance, Repository, Visits, is_running, get, running}
use pinchtab.Instance.Repository.Running.{All-running, Keyed, InService, running-InService}
use pinchtab.Instance.Locator.{
  FetchTabs, Locator, invalidate, url_of, scan_tabs, scan, slow_path, cached, scan_fetched,
  cached_instance, find_instance_by_tab_id,
}

abbrev pub contains : String → List String → Bool
contains tab [] = false
contains tab (t ∷ tabs) = if str_eq t tab then true else contains tab tabs

abbrev pub contains_fetched : String → Option (List String) → Bool
contains_fetched tab none = false
contains_fetched tab (some tabs) = contains tab tabs

-- whether the instance answers, and lists the tab
abbrev pub lists_tab : FetchTabs → String → Instance → Bool
lists_tab fetch tab inst = contains_fetched tab (fetch (url_of inst))

-- Of instances in their order: the first that lists the tab is the one that is found, and then the
-- tab is cached with it.
record Scanned (fetch : FetchTabs) (tab : String) (insts : List Instance)
    (o : Map String × Option Instance) : Type 0 where
  pub sound : (inst : Instance) → o.1 ≡ some inst → lists_tab fetch tab inst ≡ true
  pub complete : o.1 ≡ none → All (λ inst. lists_tab fetch tab inst ≡ false) insts
  pub is_cached : (inst : Instance) → o.1 ≡ some inst → Map.lookup tab o.0 ≡ some inst.id

scan_tabs-contains :
    (tab id : String) (tabs : List String) (cache : Map String)
    → (scan_tabs tab id tabs cache).1 ≡ contains tab tabs
unfolding scan_tabs
scan_tabs-contains tab id [] cache = refl
scan_tabs-contains tab id (t ∷ tabs) cache =
    ground (arith, scan_tabs-contains tab id tabs (Map.insert t id cache))

scan_tabs-lookup :
    (tab id : String) (tabs : List String) (cache : Map String)
    → contains tab tabs ≡ true
    → Map.lookup tab (scan_tabs tab id tabs cache).0 ≡ some id
unfolding scan_tabs
scan_tabs-lookup tab id [] cache c = absurd cc
scan_tabs-lookup tab id (t ∷ tabs) cache c = elim (Bool-cases (str_eq t tab)) [
  | inl here ↦ rw here (ground (arith, here, Map.lookup-insert t tab id cache))
  | inr not_here ↦
      rw not_here
        (scan_tabs-lookup tab id tabs (Map.insert t id cache) (ground (arith, c, not_here)))
]

fetched-contains :
    (tab : String) (inst : Instance) (tabs : Option (List String)) (cache : Map String)
    → (scan_fetched tab inst tabs cache).1 ≡ contains_fetched tab tabs
unfolding scan_fetched
fetched-contains tab inst none cache = refl
fetched-contains tab inst (some tabs) cache = scan_tabs-contains tab inst.id tabs cache

fetched-lookup :
    (tab : String) (inst : Instance) (tabs : Option (List String)) (cache : Map String)
    → contains_fetched tab tabs ≡ true
    → Map.lookup tab (scan_fetched tab inst tabs cache).0 ≡ some inst.id
unfolding scan_fetched
fetched-lookup tab inst none cache c = absurd cc
fetched-lookup tab inst (some tabs) cache c = scan_tabs-lookup tab inst.id tabs cache c

module _ (fetch : FetchTabs) (tab : String) where
  scan-Scanned :
      (insts : List Instance) (cache : Map String)
      → Scanned fetch tab insts (scan fetch tab insts cache)
  unfolding scan
  scan-Scanned [] cache = record {
    sound = λ inst e. absurd (ground (arith, e));
    complete = λ e. tt;
    is_cached = λ inst e. absurd (ground (arith, e));
  }
  scan-Scanned (inst ∷ insts) cache =
      let tabs = fetch (url_of inst) in
      let same = fetched-contains tab inst tabs cache in
      elim (Bool-cases (lists_tab fetch tab inst)) [
        | inl hit ↦
            let found = fetched-lookup tab inst tabs cache hit in
            rw (same, hit)
              (record {
                sound = λ other e.
                    let same_inst : inst ≡ other = ground (arith, e) in
                    subst (λ i. lists_tab fetch tab i ≡ true) same_inst hit;
                complete = λ e. absurd (ground (arith, e));
                is_cached = λ other e.
                    let same_inst : inst ≡ other = ground (arith, e) in
                    subst (λ i. Map.lookup tab (scan_fetched tab inst tabs cache).0 ≡ some i.id)
                      same_inst found;
              })
        | inr miss ↦
            let rest = scan-Scanned insts (scan_fetched tab inst tabs cache).0 in
            rw (same, miss)
              (record {
                sound = rest.sound;
                complete = λ e. (miss, rest.complete e);
                is_cached = rest.is_cached;
              })
      ]

  scan-All :
      (P : Instance → Type 0) (insts : List Instance) (cache : Map String)
      → All P insts
      → (inst : Instance) → (scan fetch tab insts cache).1 ≡ some inst
      → P inst
  unfolding scan
  scan-All P [] cache a inst e = absurd (ground (arith, e))
  scan-All P (i ∷ insts) cache a inst e =
      elim (Bool-cases (scan_fetched tab i (fetch (url_of i)) cache).1) [
        | inl hit ↦ let same : i ≡ inst = ground (arith, e, hit) in subst P same a.0
        | inr miss ↦
            scan-All P insts (scan_fetched tab i (fetch (url_of i)) cache).0 a.1 inst (rw miss at e)
      ]

-- What FindInstanceByTabID answers, and what is cached after it.
pub record Found (fetch : FetchTabs) (tab : String) (r : Repository) (l : Locator)
    (o : Locator × Option Instance) : Type 0 where
  pub in_service : (inst : Instance) → o.1 ≡ some inst → InService r inst
  pub has_tab :
      (inst : Instance)
      → o.1 ≡ some inst
      → (Map.lookup tab l.cache ≡ some inst.id) ⊎ (lists_tab fetch tab inst ≡ true)
  pub is_cached : (inst : Instance) → o.1 ≡ some inst → Map.lookup tab o.0.cache ≡ some inst.id
  pub complete :
      o.1 ≡ none → (inst : Instance) → InService r inst → lists_tab fetch tab inst ≡ false

module _ (fetch : FetchTabs) (order : Map Instance) (tab : String) (r : Repository) (l : Locator)
    (v : Visits order r.instances) (k : Keyed r.instances) where
  -- the fast path
  found-InService :
      (id : String) (o : Option Instance) (inst : Instance)
      → Map.lookup id r.instances ≡ o
      → elim o [ none ↦ none | some i ↦ if is_running i then some i else none ] ≡ some inst
      → (id ≡ inst.id) × InService r inst
  found-InService id none inst found e = absurd (ground (arith, e))
  found-InService id (some i) inst found e =
      let same : i ≡ inst = ground (arith, e) in
      let key : i.id ≡ id = k id i found in
      let at_id = subst (λ n. Map.lookup n r.instances ≡ some i) (sym key) found in
      (
        sym key ∙ ap (λ j. j.id) same,
        (
          subst (λ j. Map.lookup j.id r.instances ≡ some j) same at_id,
          subst (λ j. is_running j ≡ true) same (ground (arith, e)),
        ),
      )

  cached-InService :
      (o : Option String) (inst : Instance)
      → cached_instance o r ≡ some inst
      → (o ≡ some inst.id) × InService r inst
  unfolding get
  cached-InService none inst e = absurd (ground (arith, e))
  cached-InService (some id) inst e =
      let (same, service) = found-InService id (Map.lookup id r.instances) inst refl e in
      (ap some same, service)

  cached-Found : (inst : Instance) → cached tab r l ≡ some inst → Found fetch tab r l (l, some inst)
  unfolding cached
  cached-Found inst e =
      let (names, service) = cached-InService (Map.lookup tab l.cache) inst e in
      record {
        in_service =
            λ i s. let same : inst ≡ i = ground (arith, s) in subst (InService r) same service;
        has_tab = λ i s.
            let same : inst ≡ i = ground (arith, s) in
            inl (subst (λ (j : Instance). Map.lookup tab l.cache ≡ some j.id) same names);
        is_cached = λ i s.
            let same : inst ≡ i = ground (arith, s) in
            subst (λ (j : Instance). Map.lookup tab l.cache ≡ some j.id) same names;
        complete = λ s. absurd (ground (arith, s));
      }

  slow-Found : Found fetch tab r l (slow_path fetch order tab (invalidate tab l))
  unfolding slow_path
  slow-Found =
      let cache = (invalidate tab l).cache in
      let scanned = scan-Scanned fetch tab (running order) cache in
      record {
        in_service =
            scan-All fetch tab (InService r) (running order) cache (running-InService order r v k);
        has_tab = λ inst e. inr (scanned.sound inst e);
        is_cached = scanned.is_cached;
        complete = λ e inst s.
            All-running (λ i. lists_tab fetch tab i ≡ false) order (scanned.complete e) inst.id inst
              (v.same inst.id ∙ s.0) s.1;
      }

  -- Where the entries stand under the ids of their instances, and whatever order a `range` over them
  -- takes, FindInstanceByTabID answers an instance of the repository that runs, and that the cache
  -- names for the tab or that lists the tab when it is asked; the tab is cached with it. It answers
  -- none only where no instance that runs lists the tab.
  pub find_instance_by_tab_id-Found :
      Found fetch tab r l (find_instance_by_tab_id fetch order tab r l)
  unfolding find_instance_by_tab_id
  find_instance_by_tab_id-Found = elim (Option-cases (cached tab r l)) [
    | inl miss ↦ rw miss slow-Found
    | inr (inst, hit) ↦ rw hit (cached-Found inst hit)
  ]
