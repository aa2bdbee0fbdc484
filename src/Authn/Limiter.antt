-- ===== src/Authn/Limiter.antt =====
-- internal/authn/rate_limit.go: a limit on failed logins in a sliding window, per client. The readings
-- of the clock, nanoseconds, are arguments; a nil limiter, which allows everything, is left out.
pub mod Pruning
pub mod Decision
pub mod Window
mod Tests
use pinchtab.Prelude.{
  ℕ, ◌-◌, ◌*◌, String, Bool, true, false, Option, none, some, List, [], ◌∷◌, ◌++◌, length, ltb,
  str_eq, if◌then◌else◌,
}
use pinchtab.Prelude.Map
use pinchtab.Prelude.Map.{Map}
use pinchtab.Prelude.Text.{trim_space}

pub record AttemptLimiterConfig : Type 0 where
  pub window : ℕ
  pub max_attempts : ℕ

pub record AttemptLimiter : Type 0 where
  pub window : ℕ
  pub max_attempts : ℕ
  pub attempts : Map (List ℕ)

abbrev pub default_window : ℕ
default_window = 600 * 1000000000

abbrev pub default_max_attempt : ℕ
default_max_attempt = 10

-- NewAttemptLimiter
unfoldable pub new_attempt_limiter : AttemptLimiterConfig → AttemptLimiter
new_attempt_limiter cfg = record {
  window = if ltb 0 cfg.window then cfg.window else default_window;
  max_attempts = if ltb 0 cfg.max_attempts then cfg.max_attempts else default_max_attempt;
  attempts = [];
}

-- the loop of pruneLocked: the hits inside the window
unfoldable pub recent : ℕ → ℕ → List ℕ → List ℕ
recent window now [] = []
recent window now (ts ∷ hits) =
    let rest = recent window now hits in if ltb (now - ts) window then ts ∷ rest else rest

abbrev pub hits_of : Option (List ℕ) → List ℕ
hits_of none = []
hits_of (some hits) = hits

-- what pruneLocked stores of the hits that it keeps
abbrev pub keep : String → List ℕ → AttemptLimiter → AttemptLimiter
keep key [] l = record l { attempts = Map.delete key l.attempts }
keep key (ts ∷ hits) l = record l { attempts = Map.insert key (ts ∷ hits) l.attempts }

-- pruneLocked, where the key has hits
abbrev prune_hits : ℕ → String → List ℕ → AttemptLimiter → AttemptLimiter × List ℕ
prune_hits now key [] l = (l, [])
prune_hits now key hits l = (keep key (recent l.window now hits) l, recent l.window now hits)

pub prune : ℕ → String → AttemptLimiter → AttemptLimiter × List ℕ
unfolding recent
prune now key l = prune_hits now key (hits_of (Map.lookup key l.attempts)) l

-- `l.window - now.Sub(filtered[0])`, and 0 if that is negative; the limit is positive, so there is
-- a hit
abbrev pub retry_after : ℕ → ℕ → List ℕ → ℕ
retry_after window now [] = 0
retry_after window now (ts ∷ hits) = window - (now - ts)

-- the answer for the hits inside the window: whether to go on, and else how long to wait
unfoldable pub verdict : ℕ → ℕ → ℕ → List ℕ → Bool × ℕ
verdict window max_attempts now hits =
    if ltb (length hits) max_attempts then (true, 0) else (false, retry_after window now hits)

-- Allow
pub allow : ℕ → String → AttemptLimiter → AttemptLimiter × (Bool × ℕ)
unfolding prune verdict
allow now key l =
    let (l', filtered) = prune now (trim_space key) l in
    if str_eq (trim_space key) ""
    then (l, (true, 0))
    else (l', verdict l.window l.max_attempts now filtered)

-- RecordFailure
pub record_failure : ℕ → String → AttemptLimiter → AttemptLimiter
unfolding prune
record_failure now key l =
    let (l', filtered) = prune now (trim_space key) l in
    if str_eq (trim_space key) ""
    then l
    else record l' { attempts = Map.insert (trim_space key) (filtered ++ now ∷ []) l'.attempts }

-- Reset
pub reset : String → AttemptLimiter → AttemptLimiter
reset key l =
    if str_eq (trim_space key) ""
    then l
    else record l { attempts = Map.delete (trim_space key) l.attempts }
