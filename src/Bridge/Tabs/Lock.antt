-- ===== src/Bridge/Tabs/Lock.antt =====
-- internal/bridge/tabs/lock.go: who owns a tab, and until when. The readings of the clock are
-- arguments; the time to live of a lock, which the callers keep positive, is a natural number.
pub mod Held
mod Tests
use pinchtab.Prelude.{
  ℕ, ◌+◌, String, Bool, true, false, ◌&&◌, not, Option, none, some, [], ltb, str_eq, if◌then◌else◌,
}
use pinchtab.Prelude.Map
use pinchtab.Prelude.Map.{Map}

pub record LockEntry : Type 0 where
  pub owner : String
  pub expires : ℕ

pub record LockInfo : Type 0 where
  pub owner : String
  pub expires_at : ℕ

pub record LockManager : Type 0 where
  pub locks : Map LockEntry

-- The refusals: the tab and the owner of its lock; the time left is left out.
pub data LockError : Type 0 where
  locked_by : String → String → LockError
  cannot_unlock : String → String → LockError

unfoldable pub new_lock_manager : LockManager
new_lock_manager = record { locks = [] }

abbrev pub set_lock : String → LockEntry → LockManager → LockManager
set_lock tab l m = record m { locks = Map.insert tab l m.locks }

abbrev pub drop_lock : String → LockManager → LockManager
drop_lock tab m = record m { locks = Map.delete tab m.locks }

-- TryLock, of the entry that it finds; `now` is read for the test and `later` for the new entry
abbrev try_lock_entry :
    ℕ → ℕ → String → String → ℕ → LockManager → Option LockEntry → LockManager × Option LockError
try_lock_entry now later tab owner ttl m none =
    (set_lock tab (record { owner = owner; expires = later + ttl }) m, none)
try_lock_entry now later tab owner ttl m (some l) =
    if ltb now l.expires && not (str_eq l.owner owner)
    then (m, some (locked_by tab l.owner))
    else (set_lock tab (record { owner = owner; expires = later + ttl }) m, none)

unfoldable pub try_lock : ℕ → ℕ → String → String → ℕ → LockManager → LockManager × Option LockError
try_lock now later tab owner ttl m =
    try_lock_entry now later tab owner ttl m (Map.lookup tab m.locks)

-- Unlock, of the entry that it finds
abbrev unlock_entry :
    ℕ → String → String → LockManager → Option LockEntry → LockManager × Option LockError
unlock_entry now tab owner m none = (drop_lock tab m, none)
unlock_entry now tab owner m (some l) =
    if ltb l.expires now
    then (drop_lock tab m, none)
    else if str_eq l.owner owner
    then (drop_lock tab m, none)
    else (m, some (cannot_unlock tab l.owner))

unfoldable pub unlock : ℕ → String → String → LockManager → LockManager × Option LockError
unlock now tab owner m = unlock_entry now tab owner m (Map.lookup tab m.locks)

abbrev get_entry : ℕ → Option LockEntry → Option LockInfo
get_entry now none = none
get_entry now (some l) =
    if ltb l.expires now then none else some (record { owner = l.owner; expires_at = l.expires })

unfoldable pub get : ℕ → String → LockManager → Option LockInfo
get now tab m = get_entry now (Map.lookup tab m.locks)
