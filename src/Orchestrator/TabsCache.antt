-- ===== src/Orchestrator/TabsCache.antt =====
-- internal/orchestrator/tabs_cache.go: the tab lists of instances that the dashboard shows, kept for
-- a while. The readings of the clock are arguments; a nil cache, which holds nothing, is left out.
pub mod History
mod Tests
use pinchtab.Prelude.{
  ℕ, ◌+◌, String, Option, none, some, List, [], length, ltb, str_eq, if◌then◌else◌,
}
use pinchtab.Prelude.Int.{ℤ, pos, pos_part, ltb_ℤ}
use pinchtab.Prelude.Map
use pinchtab.Prelude.Map.{Map}

-- tabsCacheTTL, in nanoseconds
abbrev pub tabs_cache_ttl : ℕ
tabs_cache_ttl = 1500000000

module _ {ℓ} (Tab : Type ℓ) where
  pub record TabsSnapshot : Type ℓ where
    pub tabs : List Tab
    pub expires_at : ℕ

  pub record TabsCache : Type ℓ where
    pub ttl : ℕ
    pub data_of : Map TabsSnapshot

module _ {ℓ} {Tab : Type ℓ} where
  -- NewTabsCache
  unfoldable pub new_tabs_cache : ℤ → TabsCache Tab
  new_tabs_cache ttl = record {
    ttl = if ltb_ℤ (pos 0) ttl then pos_part ttl else tabs_cache_ttl;
    data_of = [];
  }

  abbrev pub fresh : ℕ → Option (TabsSnapshot Tab) → Option (List Tab)
  fresh now none = none
  fresh now (some snap) = if ltb snap.expires_at now then none else some snap.tabs

  -- Get
  unfoldable pub get : ℕ → String → TabsCache Tab → Option (List Tab)
  get now instance_id c =
      if str_eq instance_id "" then none else fresh now (Map.lookup instance_id c.data_of)

  -- Set
  unfoldable pub set : ℕ → String → List Tab → TabsCache Tab → TabsCache Tab
  set now instance_id tabs c =
      let snap : TabsSnapshot Tab = record { tabs = tabs; expires_at = now + c.ttl } in
      if str_eq instance_id ""
      then c
      else record c { data_of = Map.insert instance_id snap c.data_of }

  -- Invalidate
  unfoldable pub invalidate : String → TabsCache Tab → TabsCache Tab
  invalidate instance_id c =
      if str_eq instance_id "" then c else record c { data_of = Map.delete instance_id c.data_of }

  -- InvalidateAll
  unfoldable pub invalidate_all : TabsCache Tab → TabsCache Tab
  invalidate_all c = record c { data_of = [] }

  -- Len
  unfoldable pub len : TabsCache Tab → ℕ
  len c = length c.data_of
