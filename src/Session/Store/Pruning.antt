-- ===== src/Session/Store/Pruning.antt =====
-- What UpdateConfig prunes.
use pinchtab.Prelude.{
  ℕ, ◌+◌, ◌≡◌, length, refl, sym, ap, subst, ◌∙◌, inl, inr, String, Option, none, some, [], ◌∷◌,
  eq_iff, if◌then◌else◌, Bool-cases, arith,
}
use pinchtab.Prelude.Map
use pinchtab.Prelude.Map.{Map}
use pinchtab.Session.Store.{
  Host, Config, Session, Store, is_pruned, prune, apply_config, update_config,
}
use pinchtab.Session.Store.Finds.{IsStore, save-sessions}

pub prune-absent :
    (c : Config) (now : ℕ) (k : String) (m : Map Session)
    → Map.lookup k m ≡ none
    → Map.lookup k (prune c now m).0 ≡ none
unfolding prune Map.lookup
prune-absent c now k [] e = refl
prune-absent c now k ((j, x) ∷ m) e = ground (arith, prune-absent c now k m)

-- what pruneExpiredLocked leaves under an id
abbrev pub left_of : Config → ℕ → Option Session → Option Session
left_of c now none = none
left_of c now (some x) = if is_pruned c now x then none else some x

pub lookup-prune :
    (c : Config) (now : ℕ) (k : String) (m : Map Session)
    → Map.Distinct m
    → Map.lookup k (prune c now m).0 ≡ left_of c now (Map.lookup k m)
unfolding prune Map.lookup
lookup-prune c now k [] d = refl
lookup-prune c now k ((j, x) ∷ m) (absent, d) =
    ground (arith, eq_iff j k, prune-absent c now j m, lookup-prune c now k m)

pub prune-Distinct :
    (c : Config) (now : ℕ) (m : Map Session) → Map.Distinct m → Map.Distinct (prune c now m).0
unfolding prune
prune-Distinct c now [] d = tt
prune-Distinct c now ((j, x) ∷ m) (absent, d) = elim (Bool-cases (is_pruned c now x)) [
  | inl gone ↦ rw gone (prune-Distinct c now m d)
  | inr kept ↦ rw kept (prune-absent c now j m absent, prune-Distinct c now m d)
]

pub length-prune :
    (c : Config) (now : ℕ) (m : Map Session)
    → length (prune c now m).0 + length (prune c now m).1 ≡ length m
unfolding prune
length-prune c now [] = refl
length-prune c now ((j, x) ∷ m) = ground (arith, length-prune c now m)

-- In a store with one entry per id, UpdateConfig drops exactly the sessions that are revoked or
-- have expired by the new settings, keeps the others as they are, and reports as many events as it
-- drops sessions.
pub update_config-prunes :
    (host : Host) (now : ℕ) (c : Config) (s : Store)
    → IsStore s
    → IsStore (update_config host now c s).0
      × ((k : String)
          → Map.lookup k (update_config host now c s).0.sessions
            ≡ left_of (apply_config c s).cfg now (Map.lookup k s.sessions))
      × (length (update_config host now c s).0.sessions + length (update_config host now c s).1
          ≡ length s.sessions)
unfolding update_config apply_config
update_config-prunes host now c s d =
    let s1 = apply_config c s in
    let saved = save-sessions host (record s1 { sessions = (prune s1.cfg now s.sessions).0 }) in
    (
      subst Map.Distinct (sym saved) (prune-Distinct s1.cfg now s.sessions d),
      (λ k. ap (Map.lookup k) saved ∙ lookup-prune s1.cfg now k s.sessions d),
      omega (arith, ap (λ m. length m) saved, length-prune s1.cfg now s.sessions),
    )
