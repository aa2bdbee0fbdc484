-- ===== src/Orchestrator/TabsCache/History.antt =====
-- internal/orchestrator/tabs_cache.go: the cache beside the list of all calls that changed it.
use pinchtab.Prelude.{
  ℕ, ◌+◌, ◌≡◌, refl, String, Bool-cases, inl, inr, Option, none, some, List, [], ◌∷◌, true, false,
  ltb, str_eq, eq_iff, if◌then◌else◌, arith,
}
use pinchtab.Prelude.Int.{ℤ, pos, pos_part, ltb_ℤ}
use pinchtab.Prelude.Map
use pinchtab.Orchestrator.TabsCache.{
  TabsCache, tabs_cache_ttl, new_tabs_cache, fresh, get, set, invalidate, invalidate_all,
}

-- the time to live that NewTabsCache settles on
abbrev pub life : ℤ → ℕ
life ttl = if ltb_ℤ (pos 0) ttl then pos_part ttl else tabs_cache_ttl

same_key : (name id : String) → str_eq name "" ≡ true → str_eq name id ≡ true → str_eq id "" ≡ true
same_key name id e f = ground (arith, e, f, eq_iff name "", eq_iff name id, eq_iff id "")

module _ {ℓ} (Tab : Type ℓ) where
  -- A call that changes the cache, with the clock's reading where it reads it.
  pub data Call : Type ℓ where
    sets : ℕ → String → List Tab → Call
    invalidates : String → Call
    invalidates_all : Call

module _ {ℓ} {Tab : Type ℓ} where
  unfoldable pub call : Call Tab → TabsCache Tab → TabsCache Tab
  call (sets now id tabs) c = set now id tabs c
  call (invalidates id) c = invalidate id c
  call invalidates_all c = invalidate_all c

  -- the calls from NewTabsCache on, the last one first
  unfoldable pub run : ℤ → List (Call Tab) → TabsCache Tab
  unfolding call new_tabs_cache
  run ttl [] = new_tabs_cache ttl
  run ttl (c ∷ before) = call c (run ttl before)

  -- what Get should answer, by the last call that concerns the instance
  unfoldable pub last_set : ℕ → ℕ → String → List (Call Tab) → Option (List Tab)
  last_set ttl now id [] = none
  last_set ttl now id (sets at name tabs ∷ before) =
      if str_eq name id
      then (if ltb (at + ttl) now then none else some tabs)
      else last_set ttl now id before
  last_set ttl now id (invalidates name ∷ before) =
      if str_eq name id then none else last_set ttl now id before
  last_set ttl now id (invalidates_all ∷ before) = none

  -- the time to live never changes
  run-ttl : (ttl : ℤ) (calls : List (Call Tab)) → (run ttl calls).ttl ≡ life ttl
  unfolding run call set invalidate invalidate_all new_tabs_cache
  run-ttl ttl [] = refl
  run-ttl ttl (sets at name tabs ∷ before) = ground (arith, run-ttl ttl before)
  run-ttl ttl (invalidates name ∷ before) = ground (arith, run-ttl ttl before)
  run-ttl ttl (invalidates_all ∷ before) = run-ttl ttl before

  fresh-set :
      (now at : ℕ) (name id : String) (tabs : List Tab) (c : TabsCache Tab)
      → str_eq id "" ≡ false
      → fresh now (Map.lookup id (set at name tabs c).data_of) ≡ (
          if str_eq name id
          then (if ltb (at + c.ttl) now then none else some tabs)
          else fresh now (Map.lookup id c.data_of))
  unfolding set
  fresh-set now at name id tabs c given = elim (Bool-cases (str_eq name id)) [
    | inl same ↦ elim (Bool-cases (str_eq name "")) [
      | inl empty ↦ ground (arith, same_key name id empty same)
      | inr named ↦ rw (named, Map.lookup-insert name id _ c.data_of, same) refl
    ]
    | inr other ↦ elim (Bool-cases (str_eq name "")) [
      | inl empty ↦ rw (empty, other) refl
      | inr named ↦ rw (named, Map.lookup-insert name id _ c.data_of, other) refl
    ]
  ]

  fresh-invalidate :
      (now : ℕ) (name id : String) (c : TabsCache Tab)
      → str_eq id "" ≡ false
      → fresh now (Map.lookup id (invalidate name c).data_of)
        ≡ (if str_eq name id then none else fresh now (Map.lookup id c.data_of))
  unfolding invalidate
  fresh-invalidate now name id c given = elim (Bool-cases (str_eq name id)) [
    | inl same ↦ elim (Bool-cases (str_eq name "")) [
      | inl empty ↦ ground (arith, same_key name id empty same)
      | inr named ↦ rw (named, Map.lookup-delete name id c.data_of, same) refl
    ]
    | inr other ↦ elim (Bool-cases (str_eq name "")) [
      | inl empty ↦ rw (empty, other) refl
      | inr named ↦ rw (named, Map.lookup-delete name id c.data_of, other) refl
    ]
  ]

  fresh-run :
      (ttl : ℤ) (calls : List (Call Tab)) (now : ℕ) (id : String)
      → str_eq id "" ≡ false
      → fresh now (Map.lookup id (run ttl calls).data_of) ≡ last_set (life ttl) now id calls
  unfolding run call invalidate_all new_tabs_cache last_set Map.lookup
  fresh-run ttl [] now id given = refl
  fresh-run ttl (sets at name tabs ∷ before) now id given =
      rw
        (
          fresh-set now at name id tabs (run ttl before) given,
          run-ttl ttl before,
          fresh-run ttl before now id given,
        )
        refl
  fresh-run ttl (invalidates name ∷ before) now id given =
      rw (fresh-invalidate now name id (run ttl before) given, fresh-run ttl before now id given)
        refl
  fresh-run ttl (invalidates_all ∷ before) now id given = refl

  -- Get answers the tabs of the last Set of the instance, if no Invalidate of it and no InvalidateAll
  -- came after it and the time to live has not passed, and none otherwise, and so it does for an
  -- instance with an empty name.
  pub get-run :
      (ttl : ℤ) (calls : List (Call Tab)) (now : ℕ) (id : String)
      → get now id (run ttl calls)
        ≡ (if str_eq id "" then none else last_set (life ttl) now id calls)
  unfolding get
  get-run ttl calls now id = elim (Bool-cases (str_eq id "")) [
    | inl empty ↦ rw empty refl
    | inr given ↦ rw given (fresh-run ttl calls now id given)
  ]
