-- ===== src/Instance/Locator.antt =====
-- internal/instance/locator.go: which instance has a tab, by a cache and, on a miss, by asking every
-- instance that runs. FetchTabs is an argument: the ids of the tabs behind a URL, or an error.
pub mod Finds
pub mod Refresh
use pinchtab.Prelude.{
  ℕ, ◌≡◌, String, Bool, true, false, Option, none, some, List, [], ◌∷◌, ◌++◌, length, str_eq,
  str_append, if◌then◌else◌,
}
use pinchtab.Prelude.Map
use pinchtab.Prelude.Map.{Map}
use pinchtab.Instance.Repository.{Instance, Repository, is_running, get, running}

abbrev pub FetchTabs : Type 0
FetchTabs = String → Option (List String)

pub record Locator : Type 0 where
  -- from tabs to instances
  pub cache : Map String

unfoldable pub new_locator : Locator
new_locator = record { cache = [] }

-- Register
unfoldable pub register : String → String → Locator → Locator
register tab id l = record l { cache = Map.insert tab id l.cache }

-- Invalidate
unfoldable pub invalidate : String → Locator → Locator
invalidate tab l = record l { cache = Map.delete tab l.cache }

abbrev drop_instance : String → Map String → Map String
drop_instance id [] = []
drop_instance id ((tab, owner) ∷ entries) =
    let rest = drop_instance id entries in if str_eq owner id then rest else (tab, owner) ∷ rest

-- InvalidateInstance
unfoldable pub invalidate_instance : String → Locator → Locator
invalidate_instance id l = record l { cache = drop_instance id l.cache }

abbrev pub url_of : Instance → String
url_of inst = if str_eq inst.url "" then str_append "http://localhost:" inst.port else inst.url

-- the inner loop of the slow path: every tab is cached until the one that is asked for is met
unfoldable pub scan_tabs : String → String → List String → Map String → Map String × Bool
scan_tabs tab id [] cache = (cache, false)
scan_tabs tab id (t ∷ tabs) cache =
    let cache' = Map.insert t id cache in
    let rest = scan_tabs tab id tabs cache' in if str_eq t tab then (cache', true) else rest

-- the outer loop
abbrev pub scan_fetched : String → Instance → Option (List String) → Map String → Map String × Bool
unfolding scan_tabs
scan_fetched tab inst none cache = (cache, false)
scan_fetched tab inst (some tabs) cache = scan_tabs tab inst.id tabs cache

unfoldable pub scan : FetchTabs → String → List Instance → Map String → Map String × Option Instance
unfolding scan_tabs
scan fetch tab [] cache = (cache, none)
scan fetch tab (inst ∷ insts) cache =
    let (cache', found) = scan_fetched tab inst (fetch (url_of inst)) cache in
    let rest = scan fetch tab insts cache' in if found then (cache', some inst) else rest

-- the slow path of FindInstanceByTabID
unfoldable pub slow_path : FetchTabs → Map Instance → String → Locator → Locator × Option Instance
unfolding scan
slow_path fetch order tab l =
    let (cache, found) = scan fetch tab (running order) l.cache in
    (record l { cache = cache }, found)

-- the fast path: the instance that the cache names, if it is there and runs
abbrev pub cached_instance : Option String → Repository → Option Instance
cached_instance none r = none
cached_instance (some id) r = elim (get id r) [
  | none ↦ none
  | some inst ↦ if is_running inst then some inst else none
]

unfoldable pub cached : String → Repository → Locator → Option Instance
unfolding get
cached tab r l = cached_instance (Map.lookup tab l.cache) r

abbrev find_with :
    Option Instance → FetchTabs → Map Instance → String → Locator → Locator × Option Instance
find_with (some inst) fetch order tab l = (l, some inst)
find_with none fetch order tab l = slow_path fetch order tab (invalidate tab l)

-- FindInstanceByTabID; Invalidate on a miss changes nothing, since the tab is not cached
unfoldable pub find_instance_by_tab_id :
    FetchTabs → Map Instance → String → Repository → Locator → Locator × Option Instance
unfolding cached slow_path invalidate
find_instance_by_tab_id fetch order tab r l = find_with (cached tab r l) fetch order tab l

abbrev pub cache_tabs : String → List String → Map String → Map String
cache_tabs id [] cache = cache
cache_tabs id (t ∷ tabs) cache = cache_tabs id tabs (Map.insert t id cache)

abbrev pub cache_fetched : Instance → Option (List String) → Map String → Map String
cache_fetched inst none cache = cache
cache_fetched inst (some tabs) cache = cache_tabs inst.id tabs cache

unfoldable pub refresh_loop : FetchTabs → List Instance → Map String → Map String
refresh_loop fetch [] cache = cache
refresh_loop fetch (inst ∷ insts) cache =
    refresh_loop fetch insts (cache_fetched inst (fetch (url_of inst)) cache)

-- RefreshAll
unfoldable pub refresh_all : FetchTabs → Map Instance → Locator → Locator
unfolding refresh_loop
refresh_all fetch order l = record l { cache = refresh_loop fetch (running order) [] }

-- CacheSize
unfoldable pub cache_size : Locator → ℕ
cache_size l = length l.cache
