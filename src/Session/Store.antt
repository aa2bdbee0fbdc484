-- ===== src/Session/Store.antt =====
-- internal/session/store.go: sessions behind tokens, of which only the hash is kept. Each operation
-- holds the store's lock; it returns the lifecycle events that it hands to the hooks. The hash of a
-- token and the hexadecimal text of a hash are arguments. A nil store, and a file that cannot be
-- written, are left out.
pub mod Finds
pub mod Pruning
pub mod Revoked
pub mod Persist
mod Tests
use pinchtab.Prelude.{
  ℕ, ◌+◌, ◌-◌, ◌*◌, String, Bool, true, false, not, ◌&&◌, ◌||◌, Option, none, some, List, [], ◌∷◌,
  ltb, ◌==◌, length, str_eq, if◌then◌else◌,
}
use pinchtab.Prelude.Map
use pinchtab.Prelude.Map.{Map}
use pinchtab.Prelude.Text.{trim_space}

pub data Status : Type 0 where
  active revoked expired : Status
  other : String → Status

abbrev pub is_active : Status → Bool
is_active active = true
is_active _ = false

abbrev pub is_revoked : Status → Bool
is_revoked revoked = true
is_revoked _ = false

pub record Session : Type 0 where
  pub id : String
  pub agent_id : String
  pub label : String
  pub token_hash : List ℕ
  pub created_at : ℕ
  pub last_seen_at : ℕ
  pub expires_at : ℕ
  pub idle_timeout : ℕ
  pub status : Status
  pub grants : List String

pub record Config : Type 0 where
  pub enabled : Bool
  pub mode : String
  pub idle_timeout : ℕ
  pub max_lifetime : ℕ
  pub persist_path : String

pub data Reason : Type 0 where
  by_revocation by_expiry by_pruning : Reason

pub record LifecycleEvent : Type 0 where
  pub session_id : String
  pub agent_id : String
  pub reason : Reason

pub record PersistedSession : Type 0 where
  pub id : String
  pub agent_id : String
  pub label : String
  pub token_hash : String
  pub created_at : ℕ
  pub last_seen_at : ℕ
  pub expires_at : ℕ
  pub status : Status
  pub grants : List String

-- hashToken after its TrimSpace, and encoding/hex
pub record Host : Type 0 where
  pub sum256 : String → List ℕ
  pub encode : List ℕ → String
  pub decode : String → Option (List ℕ)

-- `file` is what stands in the file at `persist_path`.
pub record Store : Type 0 where
  pub sessions : Map Session
  pub cfg : Config
  pub file : Option (List PersistedSession)

abbrev pub hour : ℕ
hour = 3600 * 1000000000

-- applyConfig
unfoldable pub apply_config : Config → Store → Store
apply_config c s = record s {
  cfg = record c {
    idle_timeout = if ltb 0 c.idle_timeout then c.idle_timeout else 168 * hour;
    max_lifetime = if ltb 0 c.max_lifetime then c.max_lifetime else 720 * hour;
    mode = if str_eq c.mode "" then "preferred" else c.mode;
  };
}

-- isExpired
unfoldable pub is_expired : Config → ℕ → Session → Bool
is_expired c now x =
    not (x.expires_at == 0) && ltb x.expires_at now
    || ltb 0 c.idle_timeout && ltb c.idle_timeout (now - x.last_seen_at)

abbrev pub persisted : Host → Session → PersistedSession
persisted host x = record {
  id = x.id;
  agent_id = x.agent_id;
  label = x.label;
  token_hash = host.encode x.token_hash;
  created_at = x.created_at;
  last_seen_at = x.last_seen_at;
  expires_at = x.expires_at;
  status = x.status;
  grants = x.grants;
}

pub snapshot : Host → Map Session → List PersistedSession
snapshot host [] = []
snapshot host ((id, x) ∷ m) = persisted host x ∷ snapshot host m

-- saveLocked
unfoldable pub save : Host → Store → Store
save host s =
    if str_eq s.cfg.persist_path "" then s else record s { file = some (snapshot host s.sessions) }

-- the session of a record of the file
abbrev pub restored : Config → List ℕ → PersistedSession → Session
restored c hash p = record {
  id = p.id;
  agent_id = p.agent_id;
  label = p.label;
  token_hash = hash;
  created_at = p.created_at;
  last_seen_at = p.last_seen_at;
  expires_at = p.expires_at;
  idle_timeout = c.idle_timeout;
  status = p.status;
  grants = p.grants;
}

-- the loop of loadPersisted: a record of no use is passed over
abbrev pub restore_one : Config → ℕ → PersistedSession → Option (List ℕ) → Map Session → Map Session
restore_one c now p none m = m
restore_one c now p (some hash) m =
    let x = restored c hash p in
    if not (length hash == 32)
    then m
    else if not (is_active x.status)
    then m
    else if is_expired c now x
    then m
    else Map.insert x.id x m

pub restore : Host → Config → ℕ → List PersistedSession → Map Session → Map Session
restore host c now [] m = m
restore host c now (p ∷ ps) m =
    restore host c now ps (restore_one c now p (host.decode (trim_space p.token_hash)) m)

-- loadPersisted
unfoldable pub load : Host → ℕ → Store → Store
unfolding restore
load host now s = elim s.file [
  | none ↦ s
  | some records ↦
      if str_eq s.cfg.persist_path ""
      then s
      else record s { sessions = restore host s.cfg now records s.sessions }
]

-- NewStore, where the file holds `file`
unfoldable pub new_store : Host → ℕ → Option (List PersistedSession) → Config → Store
unfolding apply_config load
new_store host now file c =
    load host now (apply_config c (record { sessions = []; cfg = c; file = file }))

-- Create, with the id and the token that the random source gives
unfoldable pub create : Host → ℕ → String → String → String → String → Store → Store
unfolding save
create host now id token agent_id label s =
    let x : Session = record {
      id = id;
      agent_id = trim_space agent_id;
      label = trim_space label;
      token_hash = host.sum256 (trim_space token);
      created_at = now;
      last_seen_at = now;
      expires_at = now + s.cfg.max_lifetime;
      idle_timeout = s.cfg.idle_timeout;
      status = active;
      grants = [];
    } in
    save host (record s { sessions = Map.insert id x s.sessions })

abbrev pub same_hash : List ℕ → List ℕ → Bool
same_hash [] [] = true
same_hash (a ∷ xs) (b ∷ ys) = (a == b) && same_hash xs ys
same_hash _ _ = false

-- the loop of authenticate up to the session that it acts on
unfoldable pub find : List ℕ → Map Session → Option (String × Session)
find hash [] = none
find hash ((id, x) ∷ m) =
    let rest = find hash m in
    if is_active x.status && same_hash hash x.token_hash then some (id, x) else rest

-- a session that is replaced, and the store saved
abbrev pub replace : Host → String → Session → Store → Store
replace host id x s = save host (record s { sessions = Map.insert id x s.sessions })

-- an answer: the store, the session and the events
abbrev pub Answer : Type 0
Answer = Store × Option Session × List LifecycleEvent

abbrev pub event : Session → Reason → LifecycleEvent
event x reason = record { session_id = x.id; agent_id = x.agent_id; reason = reason }

-- authenticate at the session that was found
unfoldable pub admit : Host → ℕ → Bool → String → Session → Store → Answer
unfolding is_expired
admit host now touch id x s =
    if is_expired s.cfg now x
    then (replace host id (record x { status = expired }) s, none, event x by_expiry ∷ [])
    else if touch
    then (
      replace host id (record x { last_seen_at = now }) s,
      some (record x { last_seen_at = now }),
      [],
    )
    else (s, some x, [])

-- authenticate
unfoldable pub authenticate : Host → ℕ → Bool → String → Store → Answer
unfolding admit find
authenticate host now touch token s =
    if str_eq (trim_space token) ""
    then (s, none, [])
    else elim (find (host.sum256 (trim_space (trim_space token))) s.sessions) [
      | none ↦ (s, none, [])
      | some (id, x) ↦ admit host now touch id x s
    ]

-- Touch of a session that exists
unfoldable pub touch_found : Host → ℕ → String → Session → Store → Store × Bool
touch_found host now id x s =
    if not (is_active x.status)
    then (s, false)
    else if is_expired s.cfg now x
    then (replace host id (record x { status = expired }) s, false)
    else (replace host id (record x { last_seen_at = now }) s, true)

-- Touch
unfoldable pub touch : Host → ℕ → String → Store → Store × Bool
unfolding touch_found
touch host now session_id s = elim (Map.lookup (trim_space session_id) s.sessions) [
  | none ↦ (s, false)
  | some x ↦ touch_found host now (trim_space session_id) x s
]

-- Get
unfoldable pub get : String → Store → Option Session
get session_id s = Map.lookup (trim_space session_id) s.sessions

-- Revoke
unfoldable pub revoke : Host → String → Store → Store × Bool × List LifecycleEvent
revoke host session_id s = elim (Map.lookup (trim_space session_id) s.sessions) [
  | none ↦ (s, false, [])
  | some x ↦
      let id = trim_space session_id in
      (replace host id (record x { status = revoked }) s, true, event x by_revocation ∷ [])
]

abbrev pub is_pruned : Config → ℕ → Session → Bool
is_pruned c now x = is_revoked x.status || is_expired c now x

-- pruneExpiredLocked
pub prune : Config → ℕ → Map Session → Map Session × List LifecycleEvent
unfolding is_expired
prune c now [] = ([], [])
prune c now ((id, x) ∷ m) =
    let (rest, events) = prune c now m in
    if is_pruned c now x then (rest, event x by_pruning ∷ events) else ((id, x) ∷ rest, events)

-- UpdateConfig
unfoldable pub update_config : Host → ℕ → Config → Store → Store × List LifecycleEvent
unfolding apply_config save prune
update_config host now c s =
    let s1 = apply_config c s in
    let (sessions, events) = prune s1.cfg now s1.sessions in
    (save host (record s1 { sessions = sessions }), events)
