-- ===== src/Authn/Limiter/Tests.antt =====
-- The limiter at a small concrete input.
use pinchtab.Prelude.{ℕ, ◌≡◌, refl, false, List, [], ◌∷◌, arith}
use pinchtab.Prelude.Map
use pinchtab.Prelude.Text.{trim_space, trim_right, in_ranges, is_blank}
use pinchtab.Authn.Limiter.{
  AttemptLimiterConfig, new_attempt_limiter, recent, verdict, allow, prune, record_failure,
}
use pinchtab.Authn.Limiter.Window.{Call, asks, fails, call, run, allow-run}
use pinchtab.Authn.Limiter.Decision.{Decided}

abbrev two_in_ten : AttemptLimiterConfig
two_in_ten = record { window = 10; max_attempts = 2 }

-- two failures, of which the first has left the window at the time 12
abbrev two_failures : List (ℕ × Call)
two_failures = (1, fails "ada") ∷ (5, asks "ada") ∷ (6, fails " ada") ∷ []

-- three failures, of which two are in the window at the time 12, so that the client waits for the
-- first of them
abbrev three_failures : List (ℕ × Call)
three_failures = (1, fails "ada") ∷ (5, fails "ada") ∷ (6, fails "ada") ∷ []

held_off : (allow 12 "ada" (run three_failures (new_attempt_limiter two_in_ten))).1 ≡ (false, 3)
unfolding run call allow record_failure prune verdict trim_space trim_right in_ranges is_blank
    new_attempt_limiter recent Map.lookup Map.insert Map.delete
held_off = refl

allow-run_example :
    Decided 10 2 12 (6 ∷ []) (allow 12 "ada" (run two_failures (new_attempt_limiter two_in_ten))).1
unfolding trim_space trim_right in_ranges is_blank
allow-run_example =
    allow-run two_in_ten two_failures 12 "ada"
      (omega arith, (omega arith, (omega arith, omega arith))) refl
