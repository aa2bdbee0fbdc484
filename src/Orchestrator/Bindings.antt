-- ===== src/Orchestrator/Bindings.antt =====
-- internal/orchestrator/bindings.go: which instance served a session or an agent, so that it serves
-- it again. The readings of the clock and the sorting of entries by their times are arguments; a nil
-- table, which holds nothing, is left out.
pub mod Cleared
mod Tests
use pinchtab.Prelude.{
  ℕ, suc, zero, ◌-◌, String, Bool, true, false, ◌||◌, Option, none, some, List, [], ◌∷◌, length,
  take, ltb, str_eq, if◌then◌else◌,
}
use pinchtab.Prelude.Int.{ℤ, pos, pos_part, ltb_ℤ}
use pinchtab.Prelude.Map
use pinchtab.Prelude.Map.{Map}

pub record Bindings : Type 0 where
  pub session : Map String
  pub agent : Map String
  pub agent_seen : Map ℕ

-- NewBindings
unfoldable pub new_bindings : Bindings
new_bindings = record { session = []; agent = []; agent_seen = [] }

-- an instance that is bound, if its name is not empty
abbrev pub named : Option String → Option String
named none = none
named (some inst) = if str_eq inst "" then none else some inst

-- ResolveSession
unfoldable pub resolve_session : String → Bindings → Option String
resolve_session id b = if str_eq id "" then none else named (Map.lookup id b.session)

abbrev touch : ℕ → String → Option String → Bindings → Bindings
touch now id none b = b
touch now id (some inst) b = record b { agent_seen = Map.insert id now b.agent_seen }

abbrev pub bound_agent : String → Bindings → Option String
bound_agent id b = if str_eq id "" then none else named (Map.lookup id b.agent)

-- ResolveAgent
unfoldable pub resolve_agent : ℕ → String → Bindings → Bindings × Option String
resolve_agent now id b = (touch now id (bound_agent id b) b, bound_agent id b)

-- BindSession
unfoldable pub bind_session : String → String → Bindings → Bindings
bind_session id inst b =
    if str_eq id "" || str_eq inst ""
    then b
    else record b { session = Map.insert id inst b.session }

-- BindAgent
unfoldable pub bind_agent : ℕ → String → String → Bindings → Bindings
bind_agent now id inst b = if str_eq id "" || str_eq inst "" then b else record b {
  agent = Map.insert id inst b.agent;
  agent_seen = Map.insert id now b.agent_seen;
}

-- ClearSession
unfoldable pub clear_session : String → Bindings → Bindings
clear_session id b = if str_eq id "" then b else record b { session = Map.delete id b.session }

abbrev pub drop_agent : String → Bindings → Bindings
drop_agent id b = record b {
  agent = Map.delete id b.agent;
  agent_seen = Map.delete id b.agent_seen;
}

-- ClearAgent
unfoldable pub clear_agent : String → Bindings → Bindings
clear_agent id b = if str_eq id "" then b else drop_agent id b

-- the loops of ClearInstance, over the entries that each finds
unfoldable pub clear_sessions : String → Map String → Bindings → Bindings
clear_sessions inst [] b = b
clear_sessions inst ((id, target) ∷ entries) b =
    let rest = clear_sessions inst entries b in
    let dropped = clear_sessions inst entries (record b { session = Map.delete id b.session }) in
    if str_eq target inst then dropped else rest

unfoldable pub clear_agents : String → Map String → Bindings → Bindings
clear_agents inst [] b = b
clear_agents inst ((id, target) ∷ entries) b =
    let rest = clear_agents inst entries b in
    let dropped = clear_agents inst entries (drop_agent id b) in
    if str_eq target inst then dropped else rest

-- ClearInstance
unfoldable pub clear_instance : String → Bindings → Bindings
unfolding clear_sessions clear_agents
clear_instance inst b =
    let b' = clear_sessions inst b.session b in
    if str_eq inst "" then b else clear_agents inst b.agent b'

-- the pass of PruneAgents that drops what has been idle since before a time
unfoldable pub drop_idle : ℕ → Map ℕ → Bindings → Bindings
drop_idle cutoff [] b = b
drop_idle cutoff ((id, seen) ∷ entries) b =
    let rest = drop_idle cutoff entries b in
    let dropped = drop_idle cutoff entries (drop_agent id b) in
    if ltb seen cutoff then dropped else rest

abbrev pub drop_all : Map ℕ → Bindings → Bindings
drop_all [] b = b
drop_all ((id, seen) ∷ entries) b = drop_all entries (drop_agent id b)

-- the pass that keeps the number of entries below a limit
unfoldable pub drop_excess : (Map ℕ → Map ℕ) → ℕ → Bindings → Bindings
drop_excess sort max b =
    if ltb max (length b.agent)
    then drop_all (take (length b.agent_seen - max) (sort b.agent_seen)) b
    else b

-- PruneAgents
unfoldable pub prune_agents : (Map ℕ → Map ℕ) → ℕ → ℤ → ℤ → Bindings → Bindings
unfolding drop_idle drop_excess
prune_agents sort now idle max b =
    let b' = if ltb_ℤ (pos 0) idle then drop_idle (now - pos_part idle) b.agent_seen b else b in
    if ltb_ℤ (pos 0) max then drop_excess sort (pos_part max) b' else b'

-- Counts
unfoldable pub counts : Bindings → ℕ × ℕ
counts b = (length b.session, length b.agent)
