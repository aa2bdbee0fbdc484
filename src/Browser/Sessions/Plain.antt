-- ===== src/Browser/Sessions/Plain.antt =====
-- Which operations leave a session without elevation as it is.
use pinchtab.Prelude.{
  ℕ, ◌≡◌, ◌≢◌, sym, ap, ◌∙◌, inl, inr, String, Bool, true, false, not, ◌&&◌, some, [], ◌∷◌, str_eq,
  eq_iff, if◌then◌else◌, Bool-cases, Option-cases, arith,
}
use pinchtab.Prelude.Map
use pinchtab.Prelude.Map.{Map}
use pinchtab.Prelude.Text.{trim_space}
use pinchtab.Browser.Sessions.{
  Host, Config, Manager, SessionState, session_valid, session_time_valid, save, saved, validate,
  validate_found, elevate, elevate_found, is_elevated, is_elevated_found, revoke, prune_expired,
  apply_config, update_config,
}

-- No entry of the id is elevated.
abbrev pub PlainIn : String → Map SessionState → Type 0
PlainIn id [] = Unit
PlainIn id ((k, x) ∷ xs) = (k ≡ id → x.elevated_until ≡ 0) × PlainIn id xs

pub insert-PlainIn :
    (id k : String) (x : SessionState) (xs : Map SessionState)
    → (k ≡ id → x.elevated_until ≡ 0)
    → PlainIn id xs
    → PlainIn id (Map.insert k x xs)
unfolding Map.insert
insert-PlainIn id k x [] p h = (p, tt)
insert-PlainIn id k x ((j, y) ∷ xs) p (q, h) = elim (Bool-cases (str_eq j k)) [
  | inl hit ↦ rw hit (p, h)
  | inr miss ↦ rw miss (q, insert-PlainIn id k x xs p h)
]

pub delete-PlainIn :
    (id k : String) (xs : Map SessionState) → PlainIn id xs → PlainIn id (Map.delete k xs)
unfolding Map.delete
delete-PlainIn id k [] h = tt
delete-PlainIn id k ((j, y) ∷ xs) (q, h) = elim (Bool-cases (str_eq j k)) [
  | inl hit ↦ rw hit (delete-PlainIn id k xs h)
  | inr miss ↦ rw miss (q, delete-PlainIn id k xs h)
]

pub prune-PlainIn :
    (id : String) (m : Manager) (now : ℕ) (xs : Map SessionState)
    → PlainIn id xs
    → PlainIn id (prune_expired m now xs)
unfolding prune_expired
prune-PlainIn id m now [] h = tt
prune-PlainIn id m now ((j, y) ∷ xs) (q, h) = elim (Bool-cases (session_time_valid m y now)) [
  | inl fresh ↦ rw fresh (q, prune-PlainIn id m now xs h)
  | inr late ↦ rw late (prune-PlainIn id m now xs h)
]

pub lookup-plain :
    (id : String) (x : SessionState) (xs : Map SessionState)
    → PlainIn id xs
    → Map.lookup id xs ≡ some x
    → x.elevated_until ≡ 0
unfolding Map.lookup
lookup-plain id x [] h e = absurd cc
lookup-plain id x ((j, y) ∷ xs) (q, h) e = elim (Bool-cases (str_eq j id)) [
  | inl hit ↦
      let there : y ≡ x = ground arith in
      ap (λ s. s.elevated_until) (sym there) ∙ q ((eq_iff j id).0 hit)
  | inr miss ↦ lookup-plain id x xs h (ground arith)
]

abbrev pub Plain : String → Manager → Type 0
Plain id m = PlainIn id m.sessions

pub save-Plain : (host : Host) (id : String) (m : Manager) → Plain id m → Plain id (save host m)
unfolding save
save-Plain host id m h = elim (Bool-cases (m.persist && not (str_eq m.persist_path ""))) [
  | inl kept ↦ rw kept h
  | inr lost ↦ rw lost h
]

pub stored-Plain :
    (host : Host) (id k : String) (x : SessionState) (m : Manager)
    → (k ≡ id → x.elevated_until ≡ 0)
    → Plain id m
    → Plain id (saved host (Map.insert k x m.sessions) m)
stored-Plain host id k x m p h =
    save-Plain host id (record m { sessions = Map.insert k x m.sessions })
      (insert-PlainIn id k x m.sessions p h)

pub dropped-Plain :
    (host : Host) (id k : String) (m : Manager)
    → Plain id m
    → Plain id (saved host (Map.delete k m.sessions) m)
dropped-Plain host id k m h =
    save-Plain host id (record m { sessions = Map.delete k m.sessions })
      (delete-PlainIn id k m.sessions h)

-- The entry of an id that is not elevated is not elevated.
pub Plain-at :
    (id k : String) (x : SessionState) (m : Manager)
    → Plain id m
    → Map.lookup k m.sessions ≡ some x
    → k ≡ id
    → x.elevated_until ≡ 0
Plain-at id k x m h e same =
    lookup-plain id x m.sessions h (ap (λ j. Map.lookup j m.sessions) (sym same) ∙ e)

pub validate-Plain :
    (host : Host) (now : ℕ) (id session_id token : String) (m : Manager)
    → Plain id m
    → Plain id (validate host now session_id token m).0
unfolding validate validate_found
validate-Plain host now id session_id token m h =
    let k = trim_space session_id in
    elim (Bool-cases (str_eq k "")) [
      | inl blank ↦ rw (blank, validate) h
      | inr given ↦ elim (Option-cases (Map.lookup k m.sessions)) [
        | inl absent ↦ rw (given, absent, validate) h
        | inr (x, there) ↦ elim (Bool-cases (session_valid m x now (host.hash_token token))) [
          | inl good ↦
              rw (given, there, validate)
                (rw (good, validate_found)
                  (stored-Plain host id k _ m (Plain-at id k x m h there) h))
          | inr bad ↦
              rw (given, there, validate) (rw (bad, validate_found) (dropped-Plain host id k m h))
        ]
      ]
    ]

pub elevate-Plain :
    (host : Host) (now : ℕ) (id session_id token : String) (m : Manager)
    → trim_space session_id ≢ id
    → Plain id m
    → Plain id (elevate host now session_id token m).0
unfolding elevate elevate_found
elevate-Plain host now id session_id token m other h =
    let k = trim_space session_id in
    elim (Bool-cases (str_eq k "")) [
      | inl blank ↦ rw (blank, elevate) h
      | inr given ↦ elim (Option-cases (Map.lookup k m.sessions)) [
        | inl absent ↦ rw (given, absent, elevate) h
        | inr (x, there) ↦ elim (Bool-cases (session_valid m x now (host.hash_token token))) [
          | inl good ↦
              rw (given, there, elevate)
                (rw (good, elevate_found)
                  (stored-Plain host id k _ m (λ same. absurd (other same)) h))
          | inr bad ↦
              rw (given, there, elevate) (rw (bad, elevate_found) (dropped-Plain host id k m h))
        ]
      ]
    ]

pub is_elevated-Plain :
    (host : Host) (now : ℕ) (id session_id token : String) (m : Manager)
    → Plain id m
    → Plain id (is_elevated host now session_id token m).0
unfolding is_elevated is_elevated_found
is_elevated-Plain host now id session_id token m h =
    let k = trim_space session_id in
    elim (Bool-cases (str_eq k "")) [
      | inl blank ↦ rw (blank, is_elevated) h
      | inr given ↦ elim (Option-cases (Map.lookup k m.sessions)) [
        | inl absent ↦ rw (given, absent, is_elevated) h
        | inr (x, there) ↦ elim (Bool-cases (session_valid m x now (host.hash_token token))) [
          | inl good ↦ rw (given, there, is_elevated) (rw (good, is_elevated_found) h)
          | inr bad ↦
              rw (given, there, is_elevated)
                (rw (bad, is_elevated_found) (delete-PlainIn id k m.sessions h))
        ]
      ]
    ]

pub revoke-Plain :
    (host : Host) (id session_id : String) (m : Manager)
    → Plain id m
    → Plain id (revoke host session_id m)
unfolding revoke
revoke-Plain host id session_id m h = elim (Bool-cases (str_eq (trim_space session_id) "")) [
  | inl blank ↦ rw (blank, revoke) h
  | inr given ↦ rw (given, revoke) (dropped-Plain host id (trim_space session_id) m h)
]

pub if_Plain :
    (b : Bool) (id : String) (x y : Manager)
    → Plain id x
    → Plain id y
    → Plain id (if b then x else y)
if_Plain true id x y p q = p
if_Plain false id x y p q = q

pub update-Plain :
    (host : Host) (now : ℕ) (c : Config) (id : String) (m : Manager)
    → Plain id m
    → Plain id (update_config host now c m)
unfolding update_config apply_config
update-Plain host now c id m h =
    let m1 = apply_config c m in
    let m2 = record m1 { sessions = prune_expired m1 now m1.sessions } in
    let kept = save-Plain host id m2 (prune-PlainIn id m1 now m1.sessions h) in
    if_Plain _ id (record (save host m2) { files = Map.delete m.persist_path (save host m2).files })
      (save host m2) kept kept
