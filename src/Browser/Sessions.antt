-- ===== src/Browser/Sessions.antt =====
-- internal/browsersession/session.go: the dashboard's sessions, which a password confirmation
-- elevates for a while. Each operation holds the manager's lock. The hash of a token, its
-- hexadecimal text and what stands in the file are arguments or state; a nil manager, and a file
-- that cannot be written, are left out.
pub mod Plain
pub mod Elevated
pub mod Validity
mod Tests
use pinchtab.Prelude.{
  ℕ, ◌+◌, ◌-◌, ◌*◌, String, Bool, true, false, not, ◌&&◌, ◌||◌, Option, none, some, List, [], ◌∷◌,
  ltb, leb, ◌==◌, length, str_eq, if◌then◌else◌,
}
use pinchtab.Prelude.Map
use pinchtab.Prelude.Map.{Map}
use pinchtab.Prelude.Text.{trim_space}

pub record Config : Type 0 where
  pub idle_timeout : ℕ
  pub max_lifetime : ℕ
  pub elevation_window : ℕ
  pub persist : Bool
  pub persist_path : String
  pub persist_elevation : Bool

pub record SessionState : Type 0 where
  pub created_at : ℕ
  pub last_seen : ℕ
  pub elevated_until : ℕ
  pub token_hash : List ℕ

pub record PersistedSession : Type 0 where
  pub id : String
  pub created_at : ℕ
  pub last_seen : ℕ
  pub elevated_until : ℕ
  pub token_hash : String

-- hashToken, and encoding/hex
pub record Host : Type 0 where
  pub hash_token : String → List ℕ
  pub encode : List ℕ → String
  pub decode : String → Option (List ℕ)

-- `files` holds what stands at each path.
pub record Manager : Type 0 where
  pub sessions : Map SessionState
  pub idle_timeout : ℕ
  pub max_lifetime : ℕ
  pub elevation_window : ℕ
  pub persist : Bool
  pub persist_path : String
  pub persist_elevation : Bool
  pub files : Map (List PersistedSession)

abbrev pub week : ℕ
week = 604800 * 1000000000

-- applyConfigLocked
unfoldable pub apply_config : Config → Manager → Manager
apply_config c m = record m {
  idle_timeout = if ltb 0 c.idle_timeout then c.idle_timeout else week;
  max_lifetime = if ltb 0 c.max_lifetime then c.max_lifetime else week;
  elevation_window = if ltb 0 c.elevation_window then c.elevation_window else 900 * 1000000000;
  persist = c.persist && not (str_eq (trim_space c.persist_path) "");
  persist_path = trim_space c.persist_path;
  persist_elevation = c.persist_elevation;
}

abbrev pub same_hash : List ℕ → List ℕ → Bool
same_hash [] [] = true
same_hash (a ∷ xs) (b ∷ ys) = (a == b) && same_hash xs ys
same_hash _ _ = false

-- sessionTimeValid
unfoldable pub session_time_valid : Manager → SessionState → ℕ → Bool
session_time_valid m x now =
    leb (now - x.last_seen) m.idle_timeout && leb (now - x.created_at) m.max_lifetime

-- sessionValid
unfoldable pub session_valid : Manager → SessionState → ℕ → List ℕ → Bool
unfolding session_time_valid
session_valid m x now expected = session_time_valid m x now && same_hash x.token_hash expected

-- an elevation, where it is kept over a restart
abbrev pub kept_elevation : Manager → ℕ → ℕ
kept_elevation m until = if m.persist_elevation then until else 0

abbrev pub persisted : Host → Manager → String → SessionState → PersistedSession
persisted host m id x = record {
  id = id;
  created_at = x.created_at;
  last_seen = x.last_seen;
  elevated_until = kept_elevation m x.elevated_until;
  token_hash = host.encode x.token_hash;
}

pub snapshot : Host → Manager → Map SessionState → List PersistedSession
snapshot host m [] = []
snapshot host m ((id, x) ∷ xs) = persisted host m id x ∷ snapshot host m xs

-- saveLocked
unfoldable pub save : Host → Manager → Manager
save host m =
    if m.persist && not (str_eq m.persist_path "")
    then record m { files = Map.insert m.persist_path (snapshot host m m.sessions) m.files }
    else m

-- a change of the sessions that is saved
abbrev pub saved : Host → Map SessionState → Manager → Manager
saved host sessions m = save host (record m { sessions = sessions })

-- Create, with the id that the random source gives
unfoldable pub create : Host → ℕ → String → String → Manager → Manager
unfolding save
create host now id token m =
    let x : SessionState = record {
      created_at = now;
      last_seen = now;
      elevated_until = 0;
      token_hash = host.hash_token token;
    } in
    saved host (Map.insert id x m.sessions) m

-- Validate of a session that exists
unfoldable pub validate_found : Host → ℕ → String → String → SessionState → Manager → Manager × Bool
unfolding session_valid save
validate_found host now id token x m =
    if session_valid m x now (host.hash_token token)
    then (saved host (Map.insert id (record x { last_seen = now }) m.sessions) m, true)
    else (saved host (Map.delete id m.sessions) m, false)

-- Validate
unfoldable pub validate : Host → ℕ → String → String → Manager → Manager × Bool
unfolding validate_found
validate host now session_id token m =
    let id = trim_space session_id in
    if str_eq id "" then (m, false) else elim (Map.lookup id m.sessions) [
      | none ↦ (m, false)
      | some x ↦ validate_found host now id token x m
    ]

-- Elevate of a session that exists
unfoldable pub elevate_found : Host → ℕ → String → String → SessionState → Manager → Manager × Bool
unfolding session_valid save
elevate_found host now id token x m =
    let x' = record x { last_seen = now; elevated_until = now + m.elevation_window } in
    if session_valid m x now (host.hash_token token)
    then (saved host (Map.insert id x' m.sessions) m, true)
    else (saved host (Map.delete id m.sessions) m, false)

-- Elevate
unfoldable pub elevate : Host → ℕ → String → String → Manager → Manager × Bool
unfolding elevate_found
elevate host now session_id token m =
    let id = trim_space session_id in
    if str_eq id "" then (m, false) else elim (Map.lookup id m.sessions) [
      | none ↦ (m, false)
      | some x ↦ elevate_found host now id token x m
    ]

-- IsElevated of a session that exists, which drops one that is not valid without saving
unfoldable pub is_elevated_found :
    Host → ℕ → String → String → SessionState → Manager → Manager × Bool
unfolding session_valid
is_elevated_found host now id token x m =
    if session_valid m x now (host.hash_token token)
    then (m, not (x.elevated_until == 0) && leb now x.elevated_until)
    else (record m { sessions = Map.delete id m.sessions }, false)

-- IsElevated
unfoldable pub is_elevated : Host → ℕ → String → String → Manager → Manager × Bool
unfolding is_elevated_found
is_elevated host now session_id token m =
    let id = trim_space session_id in
    if str_eq id "" then (m, false) else elim (Map.lookup id m.sessions) [
      | none ↦ (m, false)
      | some x ↦ is_elevated_found host now id token x m
    ]

-- Revoke
unfoldable pub revoke : Host → String → Manager → Manager
unfolding save
revoke host session_id m =
    let id = trim_space session_id in
    if str_eq id "" then m else saved host (Map.delete id m.sessions) m

-- pruneExpiredLocked
pub prune_expired : Manager → ℕ → Map SessionState → Map SessionState
unfolding session_time_valid
prune_expired m now [] = []
prune_expired m now ((id, x) ∷ xs) =
    let rest = prune_expired m now xs in if session_time_valid m x now then (id, x) ∷ rest else rest

-- `os.Remove` of the file that is not written any more
abbrev pub remove_old : Manager → Manager → Manager
remove_old old m =
    if old.persist
      && not (str_eq old.persist_path "")
      && (not m.persist || not (str_eq old.persist_path m.persist_path))
    then record m { files = Map.delete old.persist_path m.files }
    else m

-- UpdateConfig
unfoldable pub update_config : Host → ℕ → Config → Manager → Manager
unfolding apply_config prune_expired save
update_config host now c m =
    let m1 = apply_config c m in remove_old m (saved host (prune_expired m1 now m1.sessions) m1)

-- the loop of loadPersisted: a record of no use is passed over
abbrev pub load_one :
    Manager → ℕ → PersistedSession → Option (List ℕ) → Map SessionState → Map SessionState
load_one m now p none loaded = loaded
load_one m now p (some hash) loaded =
    let x : SessionState = record {
      created_at = p.created_at;
      last_seen = p.last_seen;
      elevated_until = kept_elevation m p.elevated_until;
      token_hash = hash;
    } in
    if not (length hash == 32)
    then loaded
    else if not (session_time_valid m x now)
    then loaded
    else if str_eq (trim_space p.id) ""
    then loaded
    else Map.insert (trim_space p.id) x loaded

pub load_all : Host → Manager → ℕ → List PersistedSession → Map SessionState → Map SessionState
load_all host m now [] loaded = loaded
load_all host m now (p ∷ ps) loaded =
    load_all host m now ps (load_one m now p (host.decode (trim_space p.token_hash)) loaded)

-- loadPersisted
unfoldable pub load_persisted : Host → ℕ → Manager → Manager
unfolding load_all save
load_persisted host now m =
    if m.persist && not (str_eq m.persist_path "")
    then elim (Map.lookup m.persist_path m.files) [
      | none ↦ m
      | some records ↦ saved host (load_all host m now records []) m
    ]
    else m

-- the literal of NewManager
abbrev pub empty_manager : Map (List PersistedSession) → Manager
empty_manager files = record {
  sessions = [];
  idle_timeout = 0;
  max_lifetime = 0;
  elevation_window = 0;
  persist = false;
  persist_path = "";
  persist_elevation = false;
  files = files;
}

-- NewManager, where the files are as given
unfoldable pub new_manager : Host → ℕ → Map (List PersistedSession) → Config → Manager
unfolding apply_config load_persisted
new_manager host now files c = load_persisted host now (apply_config c (empty_manager files))
