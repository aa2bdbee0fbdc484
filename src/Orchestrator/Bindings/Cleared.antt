-- ===== src/Orchestrator/Bindings/Cleared.antt =====
-- internal/orchestrator/bindings.go: an instance that has been cleared serves no one again.
use pinchtab.Prelude.{
  ℕ, ◌-◌, ◌≡◌, refl, sym, ap, ◌∙◌, String, Bool, true, false, ◌||◌, Option, none, some, List, [],
  ◌∷◌, length, take, ltb, str_eq, eq_iff, if◌then◌else◌, All, Bool-cases, Option-cases, inl, inr,
  arith,
}
use pinchtab.Prelude.Int.{ℤ, pos, pos_part, ltb_ℤ}
use pinchtab.Prelude.Map
use pinchtab.Prelude.Map.{Map}
use pinchtab.Orchestrator.Bindings.{
  Bindings, named, bound_agent, resolve_session, resolve_agent, bind_session, bind_agent,
  clear_session, drop_agent, clear_agent, clear_sessions, clear_agents, clear_instance, drop_idle,
  drop_all, drop_excess, prune_agents,
}

module _ (inst : String) where
  abbrev Other : String → String → Type 0
  Other id target = ¬ (target ≡ inst)

  -- No session and no agent is bound to the instance.
  record Unbound (b : Bindings) : Type 0 where
    pub sessions : Map.Every Other b.session
    pub agents : Map.Every Other b.agent

  drop-Unbound : (id : String) (b : Bindings) → Unbound b → Unbound (drop_agent id b)
  drop-Unbound id b u = record {
    sessions = u.sessions;
    agents = Map.delete-Every Other id b.agent u.agents;
  }

  sessions-lookup :
      (entries : Map String) (b : Bindings) (id target : String)
      → Map.lookup id (clear_sessions inst entries b).session ≡ some target
      → (Map.lookup id b.session ≡ some target) × (¬ (Map.lookup id entries ≡ some inst))
  unfolding clear_sessions Map.lookup
  sessions-lookup [] b id target e = (e, λ f. ground (arith, f))
  sessions-lookup ((key, t) ∷ entries) b id target e = elim (Bool-cases (str_eq t inst)) [
    | inl hit ↦
        let (before, rest) =
          sessions-lookup entries (record b { session = Map.delete key b.session }) id target
            (rw hit at e) in
        let kept = Map.lookup-delete key id b.session in
        (ground (arith, before, kept), λ f. ground (arith, f, rest, before, kept))
    | inr miss ↦
        let (before, rest) = sessions-lookup entries b id target (rw miss at e) in
        (before, λ f. ground (arith, f, rest, miss, eq_iff t inst))
  ]

  agents-lookup :
      (entries : Map String) (b : Bindings) (id target : String)
      → Map.lookup id (clear_agents inst entries b).agent ≡ some target
      → (Map.lookup id b.agent ≡ some target) × (¬ (Map.lookup id entries ≡ some inst))
  unfolding clear_agents Map.lookup
  agents-lookup [] b id target e = (e, λ f. ground (arith, f))
  agents-lookup ((key, t) ∷ entries) b id target e = elim (Bool-cases (str_eq t inst)) [
    | inl hit ↦
        let (before, rest) = agents-lookup entries (drop_agent key b) id target (rw hit at e) in
        let kept = Map.lookup-delete key id b.agent in
        (ground (arith, before, kept), λ f. ground (arith, f, rest, before, kept))
    | inr miss ↦
        let (before, rest) = agents-lookup entries b id target (rw miss at e) in
        (before, λ f. ground (arith, f, rest, miss, eq_iff t inst))
  ]

  -- each of the two loops leaves the other map alone
  sessions_agents :
      (entries : Map String) (b : Bindings) → (clear_sessions inst entries b).agent ≡ b.agent
  unfolding clear_sessions
  sessions_agents [] b = refl
  sessions_agents ((key, t) ∷ entries) b = ground (
    arith,
    sessions_agents entries b,
    sessions_agents entries (record b { session = Map.delete key b.session }),
  )

  agents_sessions :
      (entries : Map String) (b : Bindings) → (clear_agents inst entries b).session ≡ b.session
  unfolding clear_agents
  agents_sessions [] b = refl
  agents_sessions ((key, t) ∷ entries) b =
      ground (arith, agents_sessions entries b, agents_sessions entries (drop_agent key b))

  clear_instance-Unbound : (b : Bindings) → str_eq inst "" ≡ false → Unbound (clear_instance inst b)
  unfolding clear_instance
  clear_instance-Unbound b e = rw e (record {
    sessions = λ id target f same.
        let f' =
          sym (ap (Map.lookup id) (agents_sessions b.agent (clear_sessions inst b.session b)))
          ∙ f in
        let (before, none') = sessions-lookup b.session b id target f' in
        none' (before ∙ ap some same);
    agents = λ id target f same.
        let (before, none') = agents-lookup b.agent (clear_sessions inst b.session b) id target f in
        none' (sym (ap (Map.lookup id) (sessions_agents b.session b)) ∙ before ∙ ap some same);
  })

-- A call, with the clock's reading where it reads it.
pub data Call : Type 0 where
  resolves_session : String → Call
  resolves_agent : ℕ → String → Call
  binds_session : String → String → Call
  binds_agent : ℕ → String → String → Call
  clears_session : String → Call
  clears_agent : String → Call
  clears_instance : String → Call
  prunes : (Map ℕ → Map ℕ) → ℕ → ℤ → ℤ → Call

unfoldable pub call : Call → Bindings → Bindings
call (resolves_session id) b = b
call (resolves_agent now id) b = (resolve_agent now id b).0
call (binds_session id inst) b = bind_session id inst b
call (binds_agent now id inst) b = bind_agent now id inst b
call (clears_session id) b = clear_session id b
call (clears_agent id) b = clear_agent id b
call (clears_instance inst) b = clear_instance inst b
call (prunes sort now idle max) b = prune_agents sort now idle max b

unfoldable pub run : List Call → Bindings → Bindings
unfolding call
run [] b = b
run (c ∷ cs) b = run cs (call c b)

module _ (inst : String) where
  -- A call that binds no one to the instance.
  abbrev pub IsElsewhere : Call → Type 0
  IsElsewhere (binds_session id target) = str_eq target inst ≡ false
  IsElsewhere (binds_agent now id target) = str_eq target inst ≡ false
  IsElsewhere _ = Unit

  if-Unbound :
      (t : Bool) (b c : Bindings)
      → Unbound inst b
      → Unbound inst c
      → Unbound inst (if t then b else c)
  if-Unbound true b c u v = u
  if-Unbound false b c u v = v

  idle-Unbound :
      (cutoff : ℕ) (entries : Map ℕ) (b : Bindings)
      → Unbound inst b
      → Unbound inst (drop_idle cutoff entries b)
  unfolding drop_idle
  idle-Unbound cutoff [] b u = u
  idle-Unbound cutoff ((id, seen) ∷ entries) b u =
      if-Unbound (ltb seen cutoff) _ _
        (idle-Unbound cutoff entries (drop_agent id b) (drop-Unbound inst id b u))
        (idle-Unbound cutoff entries b u)

  all-Unbound :
      (entries : Map ℕ) (b : Bindings) → Unbound inst b → Unbound inst (drop_all entries b)
  all-Unbound [] b u = u
  all-Unbound ((id, seen) ∷ entries) b u =
      all-Unbound entries (drop_agent id b) (drop-Unbound inst id b u)

  sessions-Unbound :
      (i : String) (entries : Map String) (b : Bindings)
      → Unbound inst b
      → Unbound inst (clear_sessions i entries b)
  unfolding clear_sessions
  sessions-Unbound i [] b u = u
  sessions-Unbound i ((id, t) ∷ entries) b u =
      if-Unbound (str_eq t i) _ _
        (sessions-Unbound i entries (record b { session = Map.delete id b.session })
          (record {
            sessions = Map.delete-Every (Other inst) id b.session u.sessions;
            agents = u.agents;
          }))
        (sessions-Unbound i entries b u)

  agents-Unbound :
      (i : String) (entries : Map String) (b : Bindings)
      → Unbound inst b
      → Unbound inst (clear_agents i entries b)
  unfolding clear_agents
  agents-Unbound i [] b u = u
  agents-Unbound i ((id, t) ∷ entries) b u =
      if-Unbound (str_eq t i) _ _
        (agents-Unbound i entries (drop_agent id b) (drop-Unbound inst id b u))
        (agents-Unbound i entries b u)

  other_of : (target : String) → str_eq target inst ≡ false → ¬ (target ≡ inst)
  other_of target ne e = ground (arith, ne, e, eq_iff target inst)

  call-Unbound :
      (c : Call) (b : Bindings) → IsElsewhere c → Unbound inst b → Unbound inst (call c b)
  unfolding call resolve_agent bind_session bind_agent clear_session clear_agent clear_instance
      prune_agents drop_excess
  call-Unbound (resolves_session id) b e u = u
  call-Unbound (resolves_agent now id) b e u = elim (Option-cases (bound_agent id b)) [
    | inl absent ↦ rw absent u
    | inr (i, found) ↦ rw found (record { sessions = u.sessions; agents = u.agents })
  ]
  call-Unbound (binds_session id i) b e u = if-Unbound (str_eq id "" || str_eq i "") _ _ u (record {
    sessions = Map.insert-Every (Other inst) id i b.session (other_of i e) u.sessions;
    agents = u.agents;
  })
  call-Unbound (binds_agent now id i) b e u =
      if-Unbound (str_eq id "" || str_eq i "") _ _ u (record {
        sessions = u.sessions;
        agents = Map.insert-Every (Other inst) id i b.agent (other_of i e) u.agents;
      })
  call-Unbound (clears_session id) b e u = if-Unbound (str_eq id "") _ _ u (record {
    sessions = Map.delete-Every (Other inst) id b.session u.sessions;
    agents = u.agents;
  })
  call-Unbound (clears_agent id) b e u = if-Unbound (str_eq id "") _ _ u (drop-Unbound inst id b u)
  call-Unbound (clears_instance i) b e u =
      if-Unbound (str_eq i "") _ _ u
        (agents-Unbound i b.agent (clear_sessions i b.session b) (sessions-Unbound i b.session b u))
  call-Unbound (prunes sort now idle max) b e u =
      let b' = if ltb_ℤ (pos 0) idle then drop_idle (now - pos_part idle) b.agent_seen b else b in
      let u' : Unbound inst b' =
        if-Unbound (ltb_ℤ (pos 0) idle) _ _ (idle-Unbound (now - pos_part idle) b.agent_seen b u)
          u in
      if-Unbound (ltb_ℤ (pos 0) max) _ _
        (if-Unbound (ltb (pos_part max) (length b'.agent)) _ _
          (all-Unbound (take (length b'.agent_seen - pos_part max) (sort b'.agent_seen)) b' u') u')
        u'

  run-Unbound :
      (cs : List Call) (b : Bindings)
      → All IsElsewhere cs
      → Unbound inst b
      → Unbound inst (run cs b)
  unfolding run
  run-Unbound [] b e u = u
  run-Unbound (c ∷ cs) b e u = run-Unbound cs (call c b) e.1 (call-Unbound c b e.0 u)

  named-Other :
      (entries : Map String) (id : String)
      → Map.Every (Other inst) entries
      → ¬ (named (Map.lookup id entries) ≡ some inst)
  named-Other entries id every e = go (Map.lookup id entries) (λ t f. every id t f) e
    where
      go :
          (o : Option String) → ((t : String) → o ≡ some t → ¬ (t ≡ inst)) → ¬ (named o ≡ some inst)
      go none f e = ground (arith, e)
      go (some t) f e = f t refl (ground (arith, e))

-- After ClearInstance of an instance with a name, and whatever other calls follow short of binding a
-- session or an agent to it, no session and no agent resolves to it.
pub run-clear_instance :
    (inst id : String) (now : ℕ) (b : Bindings) (cs : List Call)
    → str_eq inst "" ≡ false
    → All (IsElsewhere inst) cs
    → let b' = run cs (clear_instance inst b) in
      (¬ (resolve_session id b' ≡ some inst)) × (¬ ((resolve_agent now id b').1 ≡ some inst))
unfolding resolve_session resolve_agent
run-clear_instance inst id now b cs e elsewhere =
    let u =
      run-Unbound inst cs (clear_instance inst b) elsewhere (clear_instance-Unbound inst b e) in
    let b' = run cs (clear_instance inst b) in
    elim (Bool-cases (str_eq id "")) [
      | inl empty ↦ rw empty ((λ f. ground (arith, f)), (λ f. ground (arith, f)))
      | inr given ↦
          rw given
            (named-Other inst b'.session id u.sessions, named-Other inst b'.agent id u.agents)
    ]
