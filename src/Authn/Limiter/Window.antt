-- ===== src/Authn/Limiter/Window.antt =====
-- The limiter against a record of all failures, none of which is ever dropped.
use pinchtab.Prelude.{
  ℕ, ◌≤◌, ◌<◌, ◌≡◌, refl, sym, ap, subst, ◌∙◌, inl, inr, String, false, List, [], ◌∷◌, ◌++◌, str_eq,
  eq_iff, if◌then◌else◌, Bool-cases, arith,
}
use pinchtab.Prelude.Map
use pinchtab.Prelude.Text.{trim_space}
use pinchtab.Authn.Limiter.{
  AttemptLimiterConfig, AttemptLimiter, new_attempt_limiter, recent, hits_of, prune, verdict, allow,
  record_failure, reset,
}
use pinchtab.Authn.Limiter.Decision.{
  in_window, recent-in_window, Decided, verdict-Decided, window_of, limit_of, positive,
}
use pinchtab.Authn.Limiter.Pruning.{recent_again, recent-append, other_window, prune-Pruned}

-- A call at a time.
pub data Call : Type 0 where
  asks fails resets : String → Call

unfoldable pub call : ℕ → Call → AttemptLimiter → AttemptLimiter
call now (asks key) l = (allow now key l).0
call now (fails key) l = record_failure now key l
call now (resets key) l = reset key l

unfoldable pub run : List (ℕ × Call) → AttemptLimiter → AttemptLimiter
unfolding call
run [] l = l
run ((now, c) ∷ cs) l = run cs (call now c l)

-- All failures of each client since its last reset, the earliest first.
abbrev pub History : Type 0
History = String → List ℕ

abbrev pub note : ℕ → Call → History → History
note now (asks key) h = h
note now (fails key) h = λ k.
    if str_eq (trim_space key) ""
    then h k
    else if str_eq (trim_space key) k
    then h k ++ now ∷ []
    else h k
note now (resets key) h =
    λ k. if str_eq (trim_space key) "" then h k else if str_eq (trim_space key) k then [] else h k

abbrev pub history : List (ℕ × Call) → History → History
history [] h = h
history ((now, c) ∷ cs) h = history cs (note now c h)

-- The clock does not go back, from `t` on to `end`.
abbrev pub Ordered : ℕ → List (ℕ × Call) → ℕ → Type 0
Ordered t [] end = t ≤ end
Ordered t ((now, c) ∷ cs) end = (t ≤ now) × Ordered now cs end

-- From the time `t` on, the limiter's hits inside the window are those of the history.
Agrees : ℕ → AttemptLimiter → History → Type 0
Agrees t l h =
    (key : String) (now : ℕ)
    → t ≤ now
    → recent l.window now (hits_of (Map.lookup key l.attempts)) ≡ recent l.window now (h key)

-- One call keeps the limiter in step with the history, and keeps its settings.
record Steps (now : ℕ) (c : Call) (l l' : AttemptLimiter) (h : History) : Type 0 where
  pub agrees : Agrees now l' (note now c h)
  pub window : l'.window ≡ l.window
  pub limit : l'.max_attempts ≡ l.max_attempts

module _ (t now : ℕ) (l : AttemptLimiter) (h : History) (le : t ≤ now) (a : Agrees t l h) where
  asks-Steps : (key : String) → Steps now (asks key) l (allow now key l).0 h
  unfolding allow Agrees
  asks-Steps key = elim (Bool-cases (str_eq (trim_space key) "")) [
    | inl blank ↦
        rw (blank, allow)
          (record {
            agrees = λ k n le'. a k n (omega (arith, le, le'));
            window = refl;
            limit = refl;
          })
    | inr named ↦
        let p = prune-Pruned now (trim_space key) l in
        rw (named, allow)
          (record {
            agrees = λ k n le'. rw p.window (p.later k n le' ∙ a k n (omega (arith, le, le')));
            window = p.window;
            limit = p.limit;
          })
  ]

  -- the new hit behind those inside the window
  failed_hits :
      (key k : String) (n : ℕ)
      → now ≤ n
      → recent l.window n (
          hits_of (
            Map.lookup k
              (Map.insert key ((prune now key l).1 ++ now ∷ []) (prune now key l).0.attempts)))
        ≡ recent l.window n (if str_eq key k then h k ++ now ∷ [] else h k)
  unfolding Agrees
  failed_hits key k n le' =
      let p = prune-Pruned now key l in
      let filtered = (prune now key l).1 in
      rw (Map.lookup-insert key k (filtered ++ now ∷ []) (prune now key l).0.attempts)
        (elim (Bool-cases (str_eq key k)) [
          | inl hit ↦
              let old : recent l.window n filtered ≡ recent l.window n (h k) =
                ap (recent l.window n) p.kept
                ∙ recent_again l.window now n (hits_of (Map.lookup key l.attempts)) le'
                ∙ a key n (omega (arith, le, le'))
                ∙ ap (λ j. recent l.window n (h j)) ((eq_iff key k).0 hit) in
              rw hit (
                recent-append l.window n filtered (now ∷ [])
                ∙ ap (λ xs. xs ++ recent l.window n (now ∷ [])) old
                ∙ sym (recent-append l.window n (h k) (now ∷ [])))
          | inr miss ↦ rw miss (p.later k n le' ∙ a k n (omega (arith, le, le')))
        ])

  fails-Steps : (key : String) → Steps now (fails key) l (record_failure now key l) h
  unfolding record_failure Agrees
  fails-Steps key = elim (Bool-cases (str_eq (trim_space key) "")) [
    | inl blank ↦
        rw (blank, record_failure)
          (record {
            agrees = λ k n le'. rw blank (a k n (omega (arith, le, le')));
            window = refl;
            limit = refl;
          })
    | inr named ↦
        let p = prune-Pruned now (trim_space key) l in
        rw (named, record_failure)
          (record {
            agrees = λ k n le'.
                rw named (other_window n _ _ p.window (failed_hits (trim_space key) k n le'));
            window = p.window;
            limit = p.limit;
          })
  ]

  resets-Steps : (key : String) → Steps now (resets key) l (reset key l) h
  unfolding reset Agrees
  resets-Steps key = elim (Bool-cases (str_eq (trim_space key) "")) [
    | inl blank ↦
        rw (blank, reset)
          (record {
            agrees = λ k n le'. rw blank (a k n (omega (arith, le, le')));
            window = refl;
            limit = refl;
          })
    | inr named ↦
        rw (named, reset)
          (record {
            agrees = λ k n le'.
                rw (named, Map.lookup-delete (trim_space key) k l.attempts)
                  (elim (Bool-cases (str_eq (trim_space key) k)) [
                    | inl hit ↦ rw hit refl
                    | inr miss ↦ rw miss (a k n (omega (arith, le, le')))
                  ]);
            window = refl;
            limit = refl;
          })
  ]

call-Steps :
    (t now : ℕ) (c : Call) (l : AttemptLimiter) (h : History)
    → t ≤ now
    → Agrees t l h
    → Steps now c l (call now c l) h
unfolding call
call-Steps t now (asks key) l h le a = asks-Steps t now l h le a key
call-Steps t now (fails key) l h le a = fails-Steps t now l h le a key
call-Steps t now (resets key) l h le a = resets-Steps t now l h le a key

start-Agrees : (cfg : AttemptLimiterConfig) → Agrees 0 (new_attempt_limiter cfg) (λ _. [])
unfolding Agrees new_attempt_limiter Map.lookup
start-Agrees cfg key now le = refl

run-Steps :
    (t end : ℕ) (calls : List (ℕ × Call)) (l : AttemptLimiter) (h : History)
    → Ordered t calls end
    → Agrees t l h
    → Agrees end (run calls l) (history calls h)
      × ((run calls l).window ≡ l.window)
      × ((run calls l).max_attempts ≡ l.max_attempts)
unfolding run Agrees
run-Steps t end [] l h le a = ((λ k n le'. a k n (omega (arith, le, le'))), refl, refl)
run-Steps t end ((now, c) ∷ cs) l h (le, order) a =
    let first = call-Steps t now c l h le a in
    let (agrees, window, limit) =
      run-Steps now end cs (call now c l) (note now c h) order first.agrees in
    (agrees, window ∙ first.window, limit ∙ first.limit)

-- Over any calls of Allow, RecordFailure and Reset, at times that do not go back, Allow decides for a
-- client with a name by its failures since its last reset that have not left the window, as if no
-- failure were ever dropped: it goes on if they are fewer than the limit, and else gives the time
-- until the first of them leaves the window. A window or a limit that is not set is ten minutes or
-- ten failures.
pub allow-run :
    (cfg : AttemptLimiterConfig) (calls : List (ℕ × Call)) (now : ℕ) (key : String)
    → Ordered 0 calls now
    → str_eq (trim_space key) "" ≡ false
    → let hits = in_window (window_of cfg) now (history calls (λ _. []) (trim_space key)) in
      Decided
        (window_of cfg)
        (limit_of cfg)
        now
        hits
        (allow now key (run calls (new_attempt_limiter cfg))).1
unfolding allow Agrees new_attempt_limiter
allow-run cfg calls now key order named =
    let new = new_attempt_limiter cfg in
    let (agrees, window, limit) = run-Steps 0 now calls new (λ _. []) order (start-Agrees cfg) in
    let l = run calls new in
    let kept = (prune-Pruned now (trim_space key) l).kept in
    let hits = history calls (λ _. []) (trim_space key) in
    let wide : 0 < window_of cfg = positive cfg.window 600000000000 (omega arith) in
    let answer : (allow now key l).1
        ≡ verdict (window_of cfg) (limit_of cfg) now (in_window (window_of cfg) now hits) =
      rw (named, allow)
        (ap (verdict l.window l.max_attempts now) (kept ∙ agrees (trim_space key) now (omega arith))
          ∙ ap (λ w. verdict w l.max_attempts now (recent w now hits)) window
          ∙ ap (λ m. verdict new.window m now (recent new.window now hits)) limit
          ∙ ap (verdict (window_of cfg) (limit_of cfg) now)
              (recent-in_window (window_of cfg) now hits wide)) in
    subst (Decided (window_of cfg) (limit_of cfg) now (in_window (window_of cfg) now hits))
      (sym answer)
      (verdict-Decided (window_of cfg) (limit_of cfg) now (in_window (window_of cfg) now hits)
        (positive cfg.max_attempts 10 (omega arith)))
