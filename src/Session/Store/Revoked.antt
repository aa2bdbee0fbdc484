-- ===== src/Session/Store/Revoked.antt =====
-- A session that is revoked never authenticates again.
use pinchtab.Prelude.{
  ℕ, ◌≡◌, ◌≢◌, refl, sym, ap, subst, ◌∙◌, inl, inr, String, Bool, false, Option, none, some, List,
  [], ◌∷◌, str_eq, eq_iff, eq_refl, Bool-cases, Option-cases, arith,
}
use pinchtab.Prelude.Map
use pinchtab.Prelude.Map.{Map}
use pinchtab.Prelude.Text.{trim_space}
use pinchtab.Session.Store.{
  Host, Config, Session, Store, revoked, is_active, is_expired, is_pruned, find, save, replace,
  Answer, admit, authenticate, create, touch, touch_found, revoke, update_config,
}
use pinchtab.Session.Store.Finds.{
  IsStore, Found, find-Found, hash_of, save-sessions, Authenticated, authenticate-Authenticated,
}
use pinchtab.Session.Store.Pruning.{left_of, update_config-prunes}

-- An operation of the store, at a time.
pub data Call : Type 0 where
  creates : ℕ → String → String → String → String → Call
  authenticates : ℕ → Bool → String → Call
  touches : ℕ → String → Call
  revokes : String → Call
  updates : ℕ → Config → Call

unfoldable pub call : Host → Call → Store → Store
call host (creates now id token agent label) s = create host now id token agent label s
call host (authenticates now touched token) s = (authenticate host now touched token s).0
call host (touches now id) s = (touch host now id s).0
call host (revokes id) s = (revoke host id s).0
call host (updates now c) s = (update_config host now c s).0

unfoldable pub run : Host → List Call → Store → Store
unfolding call
run host [] s = s
run host (c ∷ cs) s = run host cs (call host c s)

-- The call does not make a session of this id.
abbrev pub Spares : String → Call → Type 0
Spares id (creates now i token agent label) = i ≢ id
Spares id _ = Unit

abbrev pub Spared : String → List Call → Type 0
Spared id [] = Unit
Spared id (c ∷ cs) = Spares id c × Spared id cs

abbrev Asleep : Option Session → Type 0
Asleep none = Unit
Asleep (some x) = is_active x.status ≡ false

-- There is no active session under the id, and no id has two entries.
pub record Inactive (id : String) (s : Store) : Type 0 where
  pub distinct : IsStore s
  pub asleep : Asleep (Map.lookup id s.sessions)

save-Inactive : (host : Host) (id : String) (s : Store) → Inactive id s → Inactive id (save host s)
save-Inactive host id s h = record {
  distinct = subst Map.Distinct (sym (save-sessions host s)) h.distinct;
  asleep = subst (λ m. Asleep (Map.lookup id m)) (sym (save-sessions host s)) h.asleep;
}

replace-Inactive :
    (host : Host) (id k : String) (new : Session) (s : Store)
    → (k ≡ id → is_active new.status ≡ false)
    → Inactive id s
    → Inactive id (replace host k new s)
replace-Inactive host id k new s off h =
    save-Inactive host id (record s { sessions = Map.insert k new s.sessions })
      (record {
        distinct = Map.insert-Distinct k new s.sessions h.distinct;
        asleep = rw (Map.lookup-insert k id new s.sessions) (elim (Bool-cases (str_eq k id)) [
          | inl hit ↦ rw hit (off ((eq_iff k id).0 hit))
          | inr miss ↦ rw miss (h.asleep)
        ]);
      })

-- The session under an id that is not active is not active.
asleep_at :
    (id k : String) (x : Session) (s : Store)
    → Inactive id s
    → Map.lookup k s.sessions ≡ some x
    → k ≡ id
    → is_active x.status ≡ false
asleep_at id k x s h there same =
    subst Asleep (ap (λ j. Map.lookup j s.sessions) (sym same) ∙ there) h.asleep

create-Inactive :
    (host : Host) (now : ℕ) (id i token agent label : String) (s : Store)
    → i ≢ id
    → Inactive id s
    → Inactive id (create host now i token agent label s)
unfolding create
create-Inactive host now id i token agent label s other h =
    replace-Inactive host id i _ s (λ same. absurd (other same)) h

admit-Inactive :
    (host : Host) (now : ℕ) (touched : Bool) (id k : String) (x : Session) (s : Store)
    → (k ≡ id → is_active x.status ≡ false)
    → Inactive id s
    → Inactive id (admit host now touched k x s).0
unfolding admit
admit-Inactive host now touched id k x s off h = elim (Bool-cases (is_expired s.cfg now x)) [
  | inl late ↦ rw (late, admit) (replace-Inactive host id k _ s (λ same. refl) h)
  | inr fresh ↦ elim (Bool-cases touched) [
    | inl yes_touch ↦ rw (fresh, yes_touch, admit) (replace-Inactive host id k _ s off h)
    | inr no_touch ↦ rw (fresh, no_touch, admit) h
  ]
]

authenticate-Inactive :
    (host : Host) (now : ℕ) (touched : Bool) (id token : String) (s : Store)
    → Inactive id s
    → Inactive id (authenticate host now touched token s).0
unfolding authenticate
authenticate-Inactive host now touched id token s h =
    elim (Bool-cases (str_eq (trim_space token) "")) [
      | inl blank ↦ rw (blank, authenticate) h
      | inr given ↦
          go given (find (hash_of host token) s.sessions) refl
            (find-Found (hash_of host token) s.sessions h.distinct)
    ]
  where
    go :
        str_eq (trim_space token) "" ≡ false
        → (o : Option (String × Session)) → find (hash_of host token) s.sessions ≡ o
        → Found (hash_of host token) s.sessions o
        → Inactive id (authenticate host now touched token s).0
    go given none e f = rw (given, e, authenticate) h
    go given (some (k, x)) e (there, hit) =
        rw (given, e, authenticate)
          (admit-Inactive host now touched id k x s (asleep_at id k x s h there) h)

touch-Inactive :
    (host : Host) (now : ℕ) (id session_id : String) (s : Store)
    → Inactive id s
    → Inactive id (touch host now session_id s).0
unfolding touch touch_found
touch-Inactive host now id session_id s h =
    let k = trim_space session_id in
    elim (Option-cases (Map.lookup k s.sessions)) [
      | inl absent ↦ rw (absent, touch) h
      | inr (x, there) ↦ elim (Bool-cases (is_active x.status)) [
        | inr off ↦ rw (there, touch) (rw (off, touch_found) h)
        | inl on ↦ elim (Bool-cases (is_expired s.cfg now x)) [
          | inl late ↦
              rw (there, touch)
                (rw (on, late, touch_found) (replace-Inactive host id k _ s (λ same. refl) h))
          | inr fresh ↦
              rw (there, touch)
                (rw (on, fresh, touch_found)
                  (replace-Inactive host id k _ s (asleep_at id k x s h there) h))
        ]
      ]
    ]

revoke-Inactive :
    (host : Host) (id session_id : String) (s : Store)
    → Inactive id s
    → Inactive id (revoke host session_id s).0
unfolding revoke
revoke-Inactive host id session_id s h =
    elim (Option-cases (Map.lookup (trim_space session_id) s.sessions)) [
      | inl absent ↦ rw (absent, revoke) h
      | inr (x, there) ↦
          rw (there, revoke) (replace-Inactive host id (trim_space session_id) _ s (λ same. refl) h)
    ]

left-Asleep : (c : Config) (now : ℕ) (o : Option Session) → Asleep o → Asleep (left_of c now o)
left-Asleep c now none h = tt
left-Asleep c now (some x) h = elim (Bool-cases (is_pruned c now x)) [
  | inl gone ↦ rw gone tt
  | inr kept ↦ rw kept h
]

update-Inactive :
    (host : Host) (now : ℕ) (c : Config) (id : String) (s : Store)
    → Inactive id s
    → Inactive id (update_config host now c s).0
update-Inactive host now c id s h =
    let (distinct, left, count) = update_config-prunes host now c s h.distinct in
    record {
      distinct = distinct;
      asleep = subst Asleep (sym (left id)) (left-Asleep _ now _ h.asleep);
    }

run-Inactive :
    (host : Host) (id : String) (calls : List Call) (s : Store)
    → Spared id calls
    → Inactive id s
    → Inactive id (run host calls s)
unfolding run call
run-Inactive host id [] s spared h = h
run-Inactive host id (creates now i token agent label ∷ cs) s (other, spared) h =
    run-Inactive host id cs _ spared (create-Inactive host now id i token agent label s other h)
run-Inactive host id (authenticates now touched token ∷ cs) s (_, spared) h =
    run-Inactive host id cs _ spared (authenticate-Inactive host now touched id token s h)
run-Inactive host id (touches now k ∷ cs) s (_, spared) h =
    run-Inactive host id cs _ spared (touch-Inactive host now id k s h)
run-Inactive host id (revokes k ∷ cs) s (_, spared) h =
    run-Inactive host id cs _ spared (revoke-Inactive host id k s h)
run-Inactive host id (updates now c ∷ cs) s (_, spared) h =
    run-Inactive host id cs _ spared (update-Inactive host now c id s h)

revoked-Inactive :
    (host : Host) (session_id : String) (s : Store)
    → IsStore s
    → Inactive (trim_space session_id) (revoke host session_id s).0
unfolding revoke
revoked-Inactive host session_id s d =
    let k = trim_space session_id in
    elim (Option-cases (Map.lookup k s.sessions)) [
      | inl absent ↦
          rw (absent, revoke) (record { distinct = d; asleep = subst Asleep (sym absent) tt })
      | inr (x, there) ↦
          let x' = record x { status = revoked } in
          let m = record s { sessions = Map.insert k x' s.sessions } in
          rw (there, revoke)
            (save-Inactive host k m (record {
              distinct = Map.insert-Distinct k x' s.sessions d;
              asleep = rw (Map.lookup-insert k k x' s.sessions, eq_refl k) refl;
            }))
    ]

Authenticated-elsewhere :
    (host : Host) (now : ℕ) (touched : Bool) (token id : String) (s : Store) (a : Answer)
    (x : Session)
    → Inactive id s
    → Authenticated host now touched token s a
    → a.1 ≡ some x
    → (k : String) × (k ≢ id) × (Map.lookup k a.0.sessions ≡ some x)
Authenticated-elsewhere host now touched token id s (s', none, []) x h a e = absurd cc
Authenticated-elsewhere host now touched token id s (s', none, v ∷ vs) x h a e = absurd cc
Authenticated-elsewhere host now touched token id s (s', some y, vs) x h
      (_, (k, old, there, hit, _, _, after)) e =
    (k, (λ same. ground (arith, asleep_at id k old s h there same)), after ∙ e)

-- After Revoke of a session, in a store with one entry per id, whatever is authenticated, touched,
-- revoked, reconfigured or created under another id afterwards, no token authenticates as the
-- session of that id: if Authenticate returns a session, it stands under another id.
pub revoke-authenticate :
    (host : Host) (session_id : String) (calls : List Call) (now : ℕ) (touched : Bool)
    (token : String) (x : Session) (s : Store)
    → IsStore s
    → Spared (trim_space session_id) calls
    → (authenticate host now touched token (run host calls (revoke host session_id s).0)).1 ≡ some x
    → (k : String) × (k ≢ trim_space session_id)
      × (Map.lookup k
            (authenticate host now touched token
              (run host calls (revoke host session_id s).0)).0.sessions
          ≡ some x)
revoke-authenticate host session_id calls now touched token x s d spared e =
    let id = trim_space session_id in
    let s1 = run host calls (revoke host session_id s).0 in
    let h =
      run-Inactive host id calls (revoke host session_id s).0 spared
        (revoked-Inactive host session_id s d) in
    Authenticated-elsewhere host now touched token id s1 (authenticate host now touched token s1) x
      h (authenticate-Authenticated host now touched token s1 h.distinct) e
