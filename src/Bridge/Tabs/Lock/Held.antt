-- ===== src/Bridge/Tabs/Lock/Held.antt =====
-- internal/bridge/tabs/lock.go: a lock keeps everyone else out until it expires.
use pinchtab.Prelude.{
  ℕ, ◌+◌, ◌<◌, ◌≡◌, String, false, none, some, List, [], ◌∷◌, str_eq, eq_iff, eq_refl, Bool-cases,
  Option-cases, ap, ◌∙◌, All, ◌&&◌, inl, inr, arith,
}
use pinchtab.Prelude.Map
use pinchtab.Bridge.Tabs.Lock.{
  LockEntry, LockManager, locked_by, cannot_unlock, drop_lock, try_lock, unlock, get,
}

-- A call of TryLock or Unlock: the clock's reading, the tab, the owner, and the time to live.
pub data Call : Type 0 where
  tries : ℕ → String → String → ℕ → Call
  unlocks : ℕ → String → String → Call

unfoldable pub call : Call → LockManager → LockManager
call (tries now tab owner ttl) m = (try_lock now now tab owner ttl m).0
call (unlocks now tab owner) m = (unlock now tab owner m).0

unfoldable pub run : List Call → LockManager → LockManager
unfolding call
run [] m = m
run (c ∷ cs) m = run cs (call c m)

-- A call before a time that is not the owner's own on the tab.
module _ (tab owner : String) (end : ℕ) where
  abbrev pub IsForeign : Call → Type 0
  IsForeign (tries now t o ttl) = (now < end) × ((str_eq tab t && str_eq owner o) ≡ false)
  IsForeign (unlocks now t o) = (now < end) × ((str_eq tab t && str_eq owner o) ≡ false)

  -- The lock of the tab is the owner's until `end`.
  abbrev Holds : LockManager → Type 0
  Holds m = Map.lookup tab m.locks ≡ some (record { owner = owner; expires = end })

  call-Holds : (c : Call) (m : LockManager) → IsForeign c → Holds m → Holds (call c m)
  unfolding call try_lock unlock
  call-Holds (tries now t o ttl) m f h =
      let mine : LockEntry = record { owner = o; expires = now + ttl } in
      elim (Bool-cases (str_eq t tab)) [
        | inl same ↦
            let found = ap (λ k. Map.lookup k m.locks) ((eq_iff t tab).0 same) ∙ h in
            rw (call, try_lock, found)
              (ground
                (arith, h, f, same, eq_iff t tab, eq_iff tab t, eq_iff owner o, eq_iff o owner))
        | inr other ↦ elim (Option-cases (Map.lookup t m.locks)) [
          | inl absent ↦
              rw (call, try_lock, absent)
                (ground (arith, h, other, Map.lookup-insert t tab mine m.locks))
          | inr (l, found) ↦
              rw (call, try_lock, found)
                (ground (arith, h, other, Map.lookup-insert t tab mine m.locks))
        ]
      ]
  call-Holds (unlocks now t o) m f h = elim (Bool-cases (str_eq t tab)) [
    | inl same ↦
        let found = ap (λ k. Map.lookup k m.locks) ((eq_iff t tab).0 same) ∙ h in
        rw (call, unlock, found)
          (ground (arith, h, f, same, eq_iff t tab, eq_iff tab t, eq_iff owner o, eq_iff o owner))
    | inr other ↦ elim (Option-cases (Map.lookup t m.locks)) [
      | inl absent ↦
          rw (call, unlock, absent) (ground (arith, h, other, Map.lookup-delete t tab m.locks))
      | inr (l, found) ↦
          rw (call, unlock, found) (ground (arith, h, other, Map.lookup-delete t tab m.locks))
    ]
  ]

  run-Holds : (cs : List Call) (m : LockManager) → All IsForeign cs → Holds m → Holds (run cs m)
  unfolding run
  run-Holds [] m f h = h
  run-Holds (c ∷ cs) m f h = run-Holds cs (call c m) f.1 (call-Holds c m f.0 h)

-- What a lock means to its owner and to any other, at a time before its end.
pub record Excludes (tab owner other : String) (end t t' ttl : ℕ) (m : LockManager) : Type 0 where
  pub refuses : try_lock t t' tab other ttl m ≡ (m, some (locked_by tab owner))
  pub keeps : unlock t tab other m ≡ (m, some (cannot_unlock tab owner))
  pub answers : get t tab m ≡ some (record { owner = owner; expires_at = end })
  pub releases : unlock t tab owner m ≡ (drop_lock tab m, none)

Holds-Excludes :
    (tab owner other : String) (end t t' ttl : ℕ) (m : LockManager)
    → Holds tab owner end m
    → t < end
    → str_eq owner other ≡ false
    → Excludes tab owner other end t t' ttl m
unfolding try_lock unlock get
Holds-Excludes tab owner other end t t' ttl m h lt ne = record {
  refuses = rw h (ground (arith, lt, ne));
  keeps = rw h (ground (arith, lt, ne));
  answers = rw h (ground (arith, lt));
  releases = rw h (ground (arith, lt, eq_refl owner));
}

try_lock-Holds :
    (now later : ℕ) (tab owner : String) (ttl : ℕ) (m : LockManager)
    → (try_lock now later tab owner ttl m).1 ≡ none
    → Holds tab owner (later + ttl) (try_lock now later tab owner ttl m).0
unfolding try_lock
try_lock-Holds now later tab owner ttl m e =
    let mine : LockEntry = record { owner = owner; expires = later + ttl } in
    elim (Option-cases (Map.lookup tab m.locks)) [
      | inl absent ↦ rw absent (ground (arith, eq_refl tab, Map.lookup-insert tab tab mine m.locks))
      | inr (l, found) ↦
          let ok = rw found at e in
          rw found (ground (arith, ok, eq_refl tab, Map.lookup-insert tab tab mine m.locks))
    ]

-- Once TryLock has succeeded for an owner, and until its time to live has passed, whatever calls on
-- any tabs come before then, short of the owner's own on the tab: TryLock and Unlock of anyone else
-- are refused and change nothing, Get answers the owner and the end, and the owner can unlock.
pub try_lock-run :
    (now later : ℕ) (tab owner other : String) (ttl : ℕ) (m : LockManager) (cs : List Call)
    (t t' ttl' : ℕ)
    → (try_lock now later tab owner ttl m).1 ≡ none
    → All (IsForeign tab owner (later + ttl)) cs
    → t < later + ttl
    → str_eq owner other ≡ false
    → Excludes tab owner other
        (later + ttl)
        t
        t'
        ttl'
        (run cs (try_lock now later tab owner ttl m).0)
try_lock-run now later tab owner other ttl m cs t t' ttl' e f lt ne =
    let m1 = (try_lock now later tab owner ttl m).0 in
    Holds-Excludes tab owner other (later + ttl) t t' ttl' (run cs m1)
      (run-Holds tab owner (later + ttl) cs m1 f (try_lock-Holds now later tab owner ttl m e)) lt ne
