-- ===== src/Authn/Limiter/Pruning.antt =====
-- What pruneLocked keeps.
use pinchtab.Prelude.{
  ℕ, ◌≤◌, ◌≡◌, refl, sym, ap, subst, ◌∙◌, inl, inr, String, true, false, List, [], ◌∷◌, ◌++◌,
  str_eq, eq_iff, Bool-cases, arith,
}
use pinchtab.Prelude.Map
use pinchtab.Authn.Limiter.{AttemptLimiter, recent, hits_of, keep, prune, prune_hits}

pub recent_again :
    (window t now : ℕ) (hits : List ℕ)
    → t ≤ now
    → recent window now (recent window t hits) ≡ recent window now hits
unfolding recent
recent_again window t now [] le = refl
recent_again window t now (ts ∷ hits) le = ground (arith, recent_again window t now hits le)

pub recent-append :
    (window now : ℕ) (xs ys : List ℕ)
    → recent window now (xs ++ ys) ≡ recent window now xs ++ recent window now ys
unfolding recent
recent-append window now [] ys = refl
recent-append window now (x ∷ xs) ys = ground (arith, recent-append window now xs ys)

pub other_window :
    {w w' : ℕ} (now : ℕ) (xs ys : List ℕ)
    → w' ≡ w
    → recent w now xs ≡ recent w now ys
    → recent w' now xs ≡ recent w' now ys
other_window now xs ys e same = subst (λ w. recent w now xs ≡ recent w now ys) (sym e) same

-- What pruneLocked leaves, for every later time.
pub record Pruned (now : ℕ) (key : String) (l : AttemptLimiter) (r : AttemptLimiter × List ℕ)
    : Type 0 where
  pub kept : r.1 ≡ recent l.window now (hits_of (Map.lookup key l.attempts))
  pub window : r.0.window ≡ l.window
  pub limit : r.0.max_attempts ≡ l.max_attempts
  pub later :
      (k : String) (t : ℕ)
      → now ≤ t
      → recent l.window t (hits_of (Map.lookup k r.0.attempts))
        ≡ recent l.window t (hits_of (Map.lookup k l.attempts))

pub keep_later :
    (now : ℕ) (key : String) (l : AttemptLimiter) (filtered : List ℕ) (k : String) (t : ℕ)
    → filtered ≡ recent l.window now (hits_of (Map.lookup key l.attempts))
    → now ≤ t
    → recent l.window t (hits_of (Map.lookup k (keep key filtered l).attempts))
      ≡ recent l.window t (hits_of (Map.lookup k l.attempts))
keep_later now key l filtered k t e le = elim (Bool-cases (str_eq key k)) [
  | inl hit ↦
      let stored : hits_of (Map.lookup k (keep key filtered l).attempts) ≡ filtered =
        at_key filtered hit in
      let same : Map.lookup key l.attempts ≡ Map.lookup k l.attempts =
        ap (λ j. Map.lookup j l.attempts) ((eq_iff key k).0 hit) in
      ap (recent l.window t) (stored ∙ e)
      ∙ recent_again l.window now t (hits_of (Map.lookup key l.attempts)) le
      ∙ ap (λ o. recent l.window t (hits_of o)) same
  | inr miss ↦ ap (λ o. recent l.window t (hits_of o)) (elsewhere filtered miss)
]
  where
    at_key :
        (filtered : List ℕ)
        → str_eq key k ≡ true
        → hits_of (Map.lookup k (keep key filtered l).attempts) ≡ filtered
    at_key [] hit = rw (Map.lookup-delete key k l.attempts, hit) refl
    at_key (ts ∷ hits) hit = rw (Map.lookup-insert key k (ts ∷ hits) l.attempts, hit) refl

    elsewhere :
        (filtered : List ℕ)
        → str_eq key k ≡ false
        → Map.lookup k (keep key filtered l).attempts ≡ Map.lookup k l.attempts
    elsewhere [] miss = rw (Map.lookup-delete key k l.attempts, miss) refl
    elsewhere (ts ∷ hits) miss = rw (Map.lookup-insert key k (ts ∷ hits) l.attempts, miss) refl

pub keep_settings :
    (key : String) (l : AttemptLimiter) (filtered : List ℕ)
    → ((keep key filtered l).window ≡ l.window)
      × ((keep key filtered l).max_attempts ≡ l.max_attempts)
keep_settings key l [] = (refl, refl)
keep_settings key l (ts ∷ hits) = (refl, refl)

pub prune_hits-Pruned :
    (now : ℕ) (key : String) (l : AttemptLimiter) (hits : List ℕ)
    → hits_of (Map.lookup key l.attempts) ≡ hits
    → Pruned now key l (prune_hits now key hits l)
unfolding recent
prune_hits-Pruned now key l [] e = record {
  kept = sym (ap (recent l.window now) e);
  window = refl;
  limit = refl;
  later = λ k t le. refl;
}
prune_hits-Pruned now key l (ts ∷ more) e =
    let kept = sym (ap (recent l.window now) e) in
    let (window, limit) = keep_settings key l (recent l.window now (ts ∷ more)) in
    record {
      kept = kept;
      window = window;
      limit = limit;
      later = λ k t le. keep_later now key l (recent l.window now (ts ∷ more)) k t kept le;
    }

pub prune-Pruned :
    (now : ℕ) (key : String) (l : AttemptLimiter) → Pruned now key l (prune now key l)
unfolding prune
prune-Pruned now key l = prune_hits-Pruned now key l (hits_of (Map.lookup key l.attempts)) refl
