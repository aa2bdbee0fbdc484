-- ===== src/Authn/Limiter/Decision.antt =====
-- What Allow is to decide, without the limiter's own functions.
use pinchtab.Prelude.{
  ℕ, suc, ◌+◌, ◌-◌, ◌≤◌, ◌<◌, ◌≡◌, refl, inl, inr, Bool, true, false, List, [], ◌∷◌, length, ltb,
  ltb→lt, if◌then◌else◌, Bool-cases, arith,
}
use pinchtab.Authn.Limiter.{AttemptLimiterConfig, recent, verdict}

-- The failures that have not left the window.
abbrev pub in_window : ℕ → ℕ → List ℕ → List ℕ
in_window window now [] = []
in_window window now (ts ∷ hits) =
    let rest = in_window window now hits in if ltb now (ts + window) then ts ∷ rest else rest

pub recent-in_window :
    (window now : ℕ) (hits : List ℕ)
    → 0 < window
    → recent window now hits ≡ in_window window now hits
unfolding recent
recent-in_window window now [] h = refl
recent-in_window window now (ts ∷ hits) h = ground (arith, h, recent-in_window window now hits h)

-- What Allow answers for the failures in the window: it goes on if they are fewer than the limit, and
-- else it gives the time until the first of them leaves the window.
abbrev pub Decided : ℕ → ℕ → ℕ → List ℕ → Bool × ℕ → Type 0
Decided window limit now hits (true, wait) = (length hits < limit) × (wait ≡ 0)
Decided window limit now hits (false, wait) =
    (limit ≤ length hits)
    × ((first : ℕ) × ((later : List ℕ) × (hits ≡ first ∷ later) × (wait ≡ window - (now - first))))

pub verdict-Decided :
    (window limit now : ℕ) (hits : List ℕ)
    → 0 < limit
    → Decided window limit now hits (verdict window limit now hits)
unfolding verdict
verdict-Decided window limit now [] h = elim (Bool-cases (ltb 0 limit)) [
  | inl few ↦ rw few (h, refl)
  | inr many ↦ absurd (ground (arith, h, many))
]
verdict-Decided window limit now (ts ∷ hits) h = elim (Bool-cases (ltb (suc (length hits)) limit)) [
  | inl few ↦ rw few (ltb→lt _ _ few, refl)
  | inr many ↦ rw many (ground (arith, many), (ts, (hits, refl, refl)))
]

-- The window and the limit that NewAttemptLimiter settles on.
abbrev pub window_of : AttemptLimiterConfig → ℕ
window_of cfg = if ltb 0 cfg.window then cfg.window else 600000000000

abbrev pub limit_of : AttemptLimiterConfig → ℕ
limit_of cfg = if ltb 0 cfg.max_attempts then cfg.max_attempts else 10

pub positive : (n default : ℕ) → 0 < default → 0 < (if ltb 0 n then n else default)
positive n default h = ground (arith, h)
