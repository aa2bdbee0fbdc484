-- ===== src/Browser/Sessions/Validity.antt =====
-- Validate and Elevate, on each way out.
use pinchtab.Prelude.{
  ℕ, ◌+◌, ◌-◌, ◌≤◌, ◌≡◌, refl, ap, ◌∙◌, ◌⊎◌, inl, inr, String, Bool, true, false, not, ◌&&◌, none,
  some, List, [], ◌∷◌, if◌then◌else◌, arith, str_eq, eq_iff, eq_refl, Bool-cases, Option-cases,
}
use pinchtab.Prelude.Map
use pinchtab.Prelude.Map.{Map}
use pinchtab.Prelude.Text.{trim_space}
use pinchtab.Browser.Sessions.{
  Host, Manager, SessionState, same_hash, session_time_valid, session_valid, save, saved, validate,
  validate_found, elevate, elevate_found,
}

save-sessions : (host : Host) (m : Manager) → (save host m).sessions ≡ m.sessions
unfolding save
save-sessions host m = elim (Bool-cases (m.persist && not (str_eq m.persist_path ""))) [
  | inl kept ↦ rw kept refl
  | inr lost ↦ rw lost refl
]

stored_lookup :
    (host : Host) (k j : String) (x : SessionState) (m : Manager)
    → Map.lookup j (saved host (Map.insert k x m.sessions) m).sessions
      ≡ (if str_eq k j then some x else Map.lookup j m.sessions)
stored_lookup host k j x m =
    ap (Map.lookup j) (save-sessions host (record m { sessions = Map.insert k x m.sessions }))
    ∙ Map.lookup-insert k j x m.sessions

dropped_lookup :
    (host : Host) (k j : String) (m : Manager)
    → Map.lookup j (saved host (Map.delete k m.sessions) m).sessions
      ≡ (if str_eq k j then none else Map.lookup j m.sessions)
dropped_lookup host k j m =
    ap (Map.lookup j) (save-sessions host (record m { sessions = Map.delete k m.sessions }))
    ∙ Map.lookup-delete k j m.sessions

same_hash→≡ : (xs ys : List ℕ) → same_hash xs ys ≡ true → xs ≡ ys
same_hash→≡ [] [] e = refl
same_hash→≡ (x ∷ xs) (y ∷ ys) e =
    let same : xs ≡ ys = same_hash→≡ xs ys (ground (arith, e)) in
    let head : x ≡ y = ground (arith, e) in cc
same_hash→≡ [] (y ∷ ys) e = ground (arith, e)
same_hash→≡ (x ∷ xs) [] e = ground (arith, e)

same_hash_refl : (xs : List ℕ) → same_hash xs xs ≡ true
same_hash_refl [] = refl
same_hash_refl (x ∷ xs) = ground (arith, same_hash_refl xs)

-- A session that was made for the token with the given hash and is neither too idle nor too old.
pub record Current (m : Manager) (x : SessionState) (now : ℕ) (hash : List ℕ) : Type 0 where
  pub idle : now - x.last_seen ≤ m.idle_timeout
  pub age : now - x.created_at ≤ m.max_lifetime
  pub token : x.token_hash ≡ hash

session_valid-Current :
    (m : Manager) (x : SessionState) (now : ℕ) (hash : List ℕ)
    → session_valid m x now hash ≡ true
    → Current m x now hash
unfolding session_valid session_time_valid
session_valid-Current m x now hash e = record {
  idle = ground (arith, e);
  age = ground (arith, e);
  token = same_hash→≡ x.token_hash hash (ground (arith, e));
}

Current-session_valid :
    (m : Manager) (x : SessionState) (now : ℕ) (hash : List ℕ)
    → Current m x now hash
    → session_valid m x now hash ≡ true
unfolding session_valid session_time_valid
Current-session_valid m x now hash c =
    let same : same_hash x.token_hash hash ≡ true = rw c.token (same_hash_refl hash) in
    ground (arith, same, c.idle, c.age)

-- The other sessions are as they were.
abbrev pub SameOthers : String → Manager → Manager → Type 0
SameOthers k m m' =
    (j : String) → str_eq k j ≡ false → Map.lookup j m'.sessions ≡ Map.lookup j m.sessions

-- What a use of a session comes to, where `used` is what becomes of one that is current.
abbrev pub Used :
    Host → ℕ → String → String → (SessionState → SessionState) → Manager → Manager × Bool → Type 0
Used host now k token used m (m', true) =
    (¬ (k ≡ ""))
    × ((x : SessionState) × (Map.lookup k m.sessions ≡ some x)
        × Current m x now (host.hash_token token)
        × (Map.lookup k m'.sessions ≡ some (used x))
        × SameOthers k m m')
Used host now k token used m (m', false) =
    (m' ≡ m) × ((k ≡ "") ⊎ (Map.lookup k m.sessions ≡ none))
    ⊎ (Map.lookup k m'.sessions ≡ none)
      × SameOthers k m m'
      × ((x : SessionState) × (Map.lookup k m.sessions ≡ some x)
          × (¬ (Current m x now (host.hash_token token))))

-- a session that exists
found-Used :
    (host : Host) (now : ℕ) (k token : String) (used : SessionState → SessionState) (m : Manager)
    (x : SessionState)
    → str_eq k "" ≡ false
    → Map.lookup k m.sessions ≡ some x
    → Used host now k token used m (
        if session_valid m x now (host.hash_token token)
        then (saved host (Map.insert k (used x) m.sessions) m, true)
        else (saved host (Map.delete k m.sessions) m, false))
found-Used host now k token used m x given there =
    let hash = host.hash_token token in
    elim (Bool-cases (session_valid m x now hash)) [
      | inl good ↦ rw good (
        (λ e. ground (arith, given, eq_iff k "", e)),
        (
          x,
          there,
          session_valid-Current m x now hash good,
          stored_lookup host k k (used x) m ∙ rw (eq_refl k) refl,
          λ j other. stored_lookup host k j (used x) m ∙ rw other refl,
        ),
      )
      | inr bad ↦ rw bad (
          inr (
            dropped_lookup host k k m ∙ rw (eq_refl k) refl,
            (λ j other. dropped_lookup host k j m ∙ rw other refl),
            (x, there, λ c. ground (arith, bad, Current-session_valid m x now hash c)),
          ))
    ]

-- Validate accepts exactly a session that exists, is neither too old nor idle for too long and was made
-- for the token, and notes its use; a session that exists and is not so is dropped; and else nothing
-- changes. The other sessions stay as they are.
pub validate-Used :
    (host : Host) (now : ℕ) (session_id token : String) (m : Manager)
    → Used host now
        (trim_space session_id)
        token
        (λ x. record x { last_seen = now })
        m
        (validate host now session_id token m)
unfolding validate validate_found
validate-Used host now session_id token m =
    let k = trim_space session_id in
    elim (Bool-cases (str_eq k "")) [
      | inl blank ↦ rw (blank, validate) (inl (refl, inl ((eq_iff k "").0 blank)))
      | inr given ↦ elim (Option-cases (Map.lookup k m.sessions)) [
        | inl absent ↦ rw (given, absent, validate) (inl (refl, inr absent))
        | inr (x, there) ↦
            rw (given, there, validate)
              (found-Used host now k token (λ x. record x { last_seen = now }) m x given there)
      ]
    ]

-- Elevate accepts exactly such a session too, and elevates it for the window of the settings.
pub elevate-Used :
    (host : Host) (now : ℕ) (session_id token : String) (m : Manager)
    → Used host now
        (trim_space session_id)
        token
        (λ x. record x { last_seen = now; elevated_until = now + m.elevation_window })
        m
        (elevate host now session_id token m)
unfolding elevate elevate_found
elevate-Used host now session_id token m =
    let k = trim_space session_id in
    elim (Bool-cases (str_eq k "")) [
      | inl blank ↦ rw (blank, elevate) (inl (refl, inl ((eq_iff k "").0 blank)))
      | inr given ↦ elim (Option-cases (Map.lookup k m.sessions)) [
        | inl absent ↦ rw (given, absent, elevate) (inl (refl, inr absent))
        | inr (x, there) ↦
            rw (given, there, elevate)
              (found-Used host now k token
                (λ x. record x { last_seen = now; elevated_until = now + m.elevation_window }) m x
                given there)
      ]
    ]
