-- ===== src/Session/Store/Finds.antt =====
-- Which session a token finds, and what authenticate makes of it.
use pinchtab.Prelude.{
  ℕ, ◌≡◌, refl, ap, ◌⊎◌, inl, inr, String, Bool, true, false, Option, none, some, List, [], ◌∷◌,
  str_eq, eq_iff, eq_refl, if◌then◌else◌, ◌&&◌, Bool-cases, arith,
}
use pinchtab.Prelude.Map
use pinchtab.Prelude.Map.{Map}
use pinchtab.Prelude.Text.{trim_space}
use pinchtab.Session.Store.{
  Host, Session, Store, by_expiry, expired, is_active, is_expired, same_hash, find, save, replace,
  event, Answer, admit, authenticate,
}

-- A session id has one entry.
abbrev pub IsStore : Store → Type 0
IsStore s = Map.Distinct s.sessions

-- The session is active and stands behind the hash.
abbrev pub matches : List ℕ → Session → Bool
matches hash x = is_active x.status && same_hash hash x.token_hash

-- What the search of authenticate comes to.
abbrev pub Found : List ℕ → Map Session → Option (String × Session) → Type 0
Found hash m none = Map.Every (λ (id : String) (x : Session). matches hash x ≡ false) m
Found hash m (some (id, x)) = (Map.lookup id m ≡ some x) × (matches hash x ≡ true)

Found-cons :
    (hash : List ℕ) (j : String) (y : Session) (m : Map Session) (o : Option (String × Session))
    → Map.lookup j m ≡ none
    → matches hash y ≡ false
    → Found hash m o
    → Found hash ((j, y) ∷ m) o
unfolding Map.lookup
Found-cons hash j y m none absent miss f = Map.Every-cons _ j y m miss f
Found-cons hash j y m (some (id, x)) absent miss (there, hit) = elim (Bool-cases (str_eq j id)) [
  | inl same ↦ absurd (ground (arith, ap (λ k. Map.lookup k m) ((eq_iff j id).0 same)))
  | inr apart ↦ (rw apart there, hit)
]

pub find-Found : (hash : List ℕ) (m : Map Session) → Map.Distinct m → Found hash m (find hash m)
unfolding find Map.lookup
find-Found hash [] d = λ id x h. absurd (Map.lookup-nil id x h)
find-Found hash ((j, y) ∷ m) (absent, d) = elim (Bool-cases (matches hash y)) [
  | inl hit ↦ rw hit (rw (eq_refl j) refl, hit)
  | inr miss ↦ rw miss (Found-cons hash j y m (find hash m) absent miss (find-Found hash m d))
]

pub save-sessions : (host : Host) (s : Store) → (save host s).sessions ≡ s.sessions
unfolding save
save-sessions host s = elim (Bool-cases (str_eq s.cfg.persist_path "")) [
  | inl nowhere ↦ rw nowhere refl
  | inr somewhere ↦ rw somewhere refl
]

pub replace-lookup :
    (host : Host) (id : String) (x : Session) (s : Store)
    → Map.lookup id (replace host id x s).sessions ≡ some x
replace-lookup host id x s =
    rw
      (
        save-sessions host (record s { sessions = Map.insert id x s.sessions }),
        Map.lookup-insert id id x s.sessions,
        eq_refl id,
      )
      refl

abbrev pub hash_of : Host → String → List ℕ
hash_of host token = host.sum256 (trim_space (trim_space token))

-- What a token gets, on each way out of authenticate.
abbrev pub Authenticated : Host → ℕ → Bool → String → Store → Answer → Type 0
Authenticated host now touch token s (s', some x, events) =
    (events ≡ [])
    × ((id : String) × (old : Session) × (Map.lookup id s.sessions ≡ some old)
        × (matches (hash_of host token) old ≡ true)
        × (is_expired s.cfg now old ≡ false)
        × (x ≡ (if touch then record old { last_seen_at = now } else old))
        × (Map.lookup id s'.sessions ≡ some x))
Authenticated host now touch token s (s', none, []) =
    (s' ≡ s)
    × ((trim_space token ≡ "")
        ⊎ Map.Every (λ (id : String) (x : Session). matches (hash_of host token) x ≡ false)
            s.sessions)
Authenticated host now touch token s (s', none, e ∷ events) =
    (id : String) × (old : Session) × (e ≡ event old by_expiry)
    × (events ≡ [])
    × (Map.lookup id s.sessions ≡ some old)
    × (matches (hash_of host token) old ≡ true)
    × (is_expired s.cfg now old ≡ true)
    × (Map.lookup id s'.sessions ≡ some (record old { status = expired }))

admit-Authenticated :
    (host : Host) (now : ℕ) (touch : Bool) (token id : String) (x : Session) (s : Store)
    → Map.lookup id s.sessions ≡ some x
    → matches (hash_of host token) x ≡ true
    → Authenticated host now touch token s (admit host now touch id x s)
unfolding admit
admit-Authenticated host now touch token id x s there hit =
    elim (Bool-cases (is_expired s.cfg now x)) [
      | inl late ↦
          rw (late, admit) (id, x, refl, refl, there, hit, late, replace-lookup host id _ s)
      | inr fresh ↦ go touch fresh
    ]
  where
    go :
        (touch : Bool)
        → is_expired s.cfg now x ≡ false
        → Authenticated host now touch token s (admit host now touch id x s)
    go true fresh =
        rw (fresh, admit) (refl, (id, x, there, hit, fresh, refl, replace-lookup host id _ s))
    go false fresh = rw (fresh, admit) (refl, (id, x, there, hit, fresh, refl, there))

-- In a store with one entry per id, authenticate returns a session exactly if the token is the hash
-- of one that is active, and the one that it finds is not expired: that session, with the time of
-- its use if it is to be touched. One that it finds expired is marked so, and reported once. Else
-- no session is active behind the token, or the token is blank, and nothing changes.
pub authenticate-Authenticated :
    (host : Host) (now : ℕ) (touch : Bool) (token : String) (s : Store)
    → IsStore s
    → Authenticated host now touch token s (authenticate host now touch token s)
unfolding authenticate
authenticate-Authenticated host now touch token s d =
    elim (Bool-cases (str_eq (trim_space token) "")) [
      | inl blank ↦ rw (blank, authenticate) (refl, inl ((eq_iff (trim_space token) "").0 blank))
      | inr given ↦
          go given (find (hash_of host token) s.sessions) refl
            (find-Found (hash_of host token) s.sessions d)
    ]
  where
    go :
        str_eq (trim_space token) "" ≡ false
        → (o : Option (String × Session)) → find (hash_of host token) s.sessions ≡ o
        → Found (hash_of host token) s.sessions o
        → Authenticated host now touch token s (authenticate host now touch token s)
    go given none e nobody = rw (given, e, authenticate) (refl, inr nobody)
    go given (some (id, x)) e (there, hit) =
        rw (given, e, authenticate) (admit-Authenticated host now touch token id x s there hit)
