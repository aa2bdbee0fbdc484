-- ===== src/Browser/Sessions/Elevated.antt =====
-- How a session comes to be elevated.
use pinchtab.Prelude.{
  ℕ, ◌≡◌, ◌≢◌, refl, inl, inr, String, Bool, true, false, not, ◌&&◌, Option, none, some, List, [],
  ◌∷◌, length, ◌==◌, str_eq, if◌then◌else◌, Bool-cases, Option-cases,
}
use pinchtab.Prelude.Map
use pinchtab.Prelude.Map.{Map}
use pinchtab.Prelude.Text.{trim_space}
use pinchtab.Browser.Sessions.{
  Host, Config, Manager, SessionState, PersistedSession, session_valid, session_time_valid, create,
  validate, elevate, is_elevated, is_elevated_found, revoke, apply_config, update_config, load_one,
  load_all, load_persisted, new_manager, kept_elevation, empty_manager,
}
use pinchtab.Browser.Sessions.Plain.{
  PlainIn, insert-PlainIn, lookup-plain, Plain, save-Plain, stored-Plain, validate-Plain,
  elevate-Plain, is_elevated-Plain, revoke-Plain, update-Plain,
}

if-PlainIn :
    (b : Bool) (id : String) (xs ys : Map SessionState)
    → PlainIn id xs
    → PlainIn id ys
    → PlainIn id (if b then xs else ys)
if-PlainIn true id xs ys p q = p
if-PlainIn false id xs ys p q = q

-- Where elevations do not outlast a restart, none is read from a file.
load_one-Plain :
    (m : Manager) (now : ℕ) (id : String) (p : PersistedSession) (hash : Option (List ℕ))
    (xs : Map SessionState)
    → m.persist_elevation ≡ false
    → PlainIn id xs
    → PlainIn id (load_one m now p hash xs)
load_one-Plain m now id p none xs off h = h
load_one-Plain m now id p (some hash) xs off h =
    let x : SessionState = record {
      created_at = p.created_at;
      last_seen = p.last_seen;
      elevated_until = kept_elevation m p.elevated_until;
      token_hash = hash;
    } in
    let name = trim_space p.id in
    let lowered : kept_elevation m p.elevated_until ≡ 0 = rw off refl in
    let added = insert-PlainIn id name x xs (λ _. lowered) h in
    if-PlainIn (not (length hash == 32)) id xs _ h (
      if-PlainIn (not (session_time_valid m x now)) id xs _ h
        (if-PlainIn (str_eq name "") id xs (Map.insert name x xs) h added))

load_all-Plain :
    (host : Host) (m : Manager) (now : ℕ) (id : String) (ps : List PersistedSession)
    (xs : Map SessionState)
    → m.persist_elevation ≡ false
    → PlainIn id xs
    → PlainIn id (load_all host m now ps xs)
unfolding load_all
load_all-Plain host m now id [] xs off h = h
load_all-Plain host m now id (p ∷ ps) xs off h =
    load_all-Plain host m now id ps _ off
      (load_one-Plain m now id p (host.decode (trim_space p.token_hash)) xs off h)

load-Plain :
    (host : Host) (now : ℕ) (id : String) (m : Manager)
    → m.persist_elevation ≡ false
    → Plain id m
    → Plain id (load_persisted host now m)
unfolding load_persisted
load-Plain host now id m off h = elim (Bool-cases (m.persist && not (str_eq m.persist_path ""))) [
  | inr lost ↦ rw (lost, load_persisted) h
  | inl kept ↦ elim (Option-cases (Map.lookup m.persist_path m.files)) [
    | inl absent ↦ rw (kept, absent, load_persisted) h
    | inr (records, there) ↦
        rw (kept, there, load_persisted)
          (save-Plain host id (record m { sessions = load_all host m now records [] })
            (load_all-Plain host m now id records [] off tt))
  ]
]

new_manager-Plain :
    (host : Host) (now : ℕ) (files : Map (List PersistedSession)) (c : Config) (id : String)
    → c.persist_elevation ≡ false
    → Plain id (new_manager host now files c)
unfolding new_manager apply_config
new_manager-Plain host now files c id off =
    load-Plain host now id (apply_config c (empty_manager files)) off tt

-- An operation of the manager, at a time.
pub data Call : Type 0 where
  creates validates elevates asks : ℕ → String → String → Call
  revokes : String → Call
  updates : ℕ → Config → Call

unfoldable pub call : Host → Call → Manager → Manager
call host (creates now id token) m = create host now id token m
call host (validates now id token) m = (validate host now id token m).0
call host (elevates now id token) m = (elevate host now id token m).0
call host (asks now id token) m = (is_elevated host now id token m).0
call host (revokes id) m = revoke host id m
call host (updates now c) m = update_config host now c m

unfoldable pub run : Host → List Call → Manager → Manager
unfolding call
run host [] m = m
run host (c ∷ cs) m = run host cs (call host c m)

-- No call elevates the session of the id.
abbrev pub Unelevated : String → List Call → Type 0
Unelevated id [] = Unit
Unelevated id (elevates now k token ∷ cs) = (trim_space k ≢ id) × Unelevated id cs
Unelevated id (_ ∷ cs) = Unelevated id cs

run-Plain :
    (host : Host) (id : String) (cs : List Call) (m : Manager)
    → Unelevated id cs
    → Plain id m
    → Plain id (run host cs m)
unfolding run call create
run-Plain host id [] m u h = h
run-Plain host id (creates now k token ∷ cs) m u h =
    run-Plain host id cs _ u (stored-Plain host id k _ m (λ _. refl) h)
run-Plain host id (validates now k token ∷ cs) m u h =
    run-Plain host id cs _ u (validate-Plain host now id k token m h)
run-Plain host id (elevates now k token ∷ cs) m (other, u) h =
    run-Plain host id cs _ u (elevate-Plain host now id k token m other h)
run-Plain host id (asks now k token ∷ cs) m u h =
    run-Plain host id cs _ u (is_elevated-Plain host now id k token m h)
run-Plain host id (revokes k ∷ cs) m u h = run-Plain host id cs _ u (revoke-Plain host id k m h)
run-Plain host id (updates now c ∷ cs) m u h =
    run-Plain host id cs _ u (update-Plain host now c id m h)

Plain-answer :
    (host : Host) (now : ℕ) (session_id token : String) (m : Manager)
    → Plain (trim_space session_id) m
    → (is_elevated host now session_id token m).1 ≡ false
unfolding is_elevated is_elevated_found
Plain-answer host now session_id token m h =
    let k = trim_space session_id in
    elim (Bool-cases (str_eq k "")) [
      | inl blank ↦ rw (blank, is_elevated) refl
      | inr given ↦ elim (Option-cases (Map.lookup k m.sessions)) [
        | inl absent ↦ rw (given, absent, is_elevated) refl
        | inr (x, there) ↦ elim (Bool-cases (session_valid m x now (host.hash_token token))) [
          | inl good ↦
              rw (given, there, is_elevated)
                (rw (good, is_elevated_found) (rw (lookup-plain k x m.sessions h there) refl))
          | inr bad ↦ rw (given, there, is_elevated) (rw (bad, is_elevated_found) refl)
        ]
      ]
    ]

-- Where elevations do not outlast a restart, IsElevated answers false for a session unless Elevate
-- has been called for it since the start, whatever the file held, and whatever else was done.
pub run-is_elevated :
    (host : Host) (start now : ℕ) (files : Map (List PersistedSession)) (c : Config)
    (cs : List Call) (session_id token : String)
    → c.persist_elevation ≡ false
    → Unelevated (trim_space session_id) cs
    → (is_elevated host now session_id token (run host cs (new_manager host start files c))).1
      ≡ false
run-is_elevated host start now files c cs session_id token off u =
    Plain-answer host now session_id token _ (
      run-Plain host (trim_space session_id) cs (new_manager host start files c) u
        (new_manager-Plain host start files c (trim_space session_id) off))
