-- ===== src/Strategy/Autorestart/Launches.antt =====
-- internal/strategy/autorestart/restart.go: how often restartInstance calls Launch.
use pinchtab.Prelude.{
  ℕ, suc, ◌+◌, ◌*◌, ◌≤◌, ◌≡◌, refl, Option, none, some, List, [], ◌∷◌, get_elem?, total, measure,
  total-put, Bool-cases, inl, inr, arith,
}
use native.Mathlib.Nat.{mul-suc}
use pinchtab.Prelude.Int.{pos}
use pinchtab.Strategy.Autorestart.{Strategy, has_restart_limit, start, stop, cancel_ctx}
use pinchtab.Strategy.Autorestart.Delay.{lesser}
use pinchtab.Strategy.Autorestart.Handlers.{
  Phase, entering, launching, noticed, giving_up, waiting, relaunching, Input, Outcome, crash, wake,
  relaunched, restart_instance, advance, handle_event, is_reset, tick, System, Action, event, move,
  ticks, stops, expires, moved, step, run, started,
}

abbrev wait : Phase → ℕ
wait (waiting id delay) = 1
wait _ = 0

module _ (m : ℕ) where
  -- The calls of Launch made and still to come, by the crashes counted.
  record Within (y : System) : Type 0 where
    pub limit : y.strategy.config.max_restarts ≡ pos (suc m)
    pub bound :
        y.launches + total wait y.handlers
        ≤ suc m * y.resets + lesser y.strategy.restart_count (suc m)

  lesser_le : (n : ℕ) → lesser n (suc m) ≤ suc m
  lesser_le n = ground arith

  -- A step of a goroutine takes from its wait, or a crash is counted.
  record Spends (p : Phase) (s : Strategy) (o : Outcome) : Type 0 where
    pub limit : o.strategy.config.max_restarts ≡ pos (suc m)
    pub spent :
        o.launches + measure wait o.next + lesser s.restart_count (suc m)
        ≤ wait p + lesser o.strategy.restart_count (suc m)

  advance-Spends :
      (w : Input) (p : Phase) (s : Strategy)
      → s.config.max_restarts ≡ pos (suc m)
      → Spends p s (advance w p s)
  unfolding advance crash wake relaunched restart_instance has_restart_limit
  advance-Spends w entering s h = record { limit = ground arith; spent = ground arith }
  advance-Spends w launching s h = record { limit = ground arith; spent = ground arith }
  advance-Spends w (noticed id) s h = record { limit = ground arith; spent = ground arith }
  advance-Spends w (giving_up id) s h = record { limit = ground arith; spent = ground arith }
  advance-Spends w (waiting id delay) s h = record { limit = ground arith; spent = ground arith }
  advance-Spends w (relaunching headless) s h = record {
    limit = ground arith;
    spent = ground arith;
  }

  moved-Within :
      (i : ℕ) (w : Input) (o : Option Phase) (y : System)
      → get_elem? y.handlers i ≡ o
      → Within y
      → Within (moved i w o y)
  unfolding moved
  moved-Within i w none y e v = v
  moved-Within i w (some p) y e v =
      let a = advance-Spends w p y.strategy v.limit in
      record {
        limit = a.limit;
        bound = omega (
          arith,
          a.spent,
          v.bound,
          total-put wait i p (advance w p y.strategy).next y.handlers e,
        );
      }

  step-Within : (a : Action) (y : System) → Within y → Within (step a y)
  unfolding step handle_event tick stop cancel_ctx
  step-Within (event type instance) y v = record {
    limit = v.limit;
    bound = ground (arith, v.bound);
  }
  step-Within (move i w) y v = moved-Within i w (get_elem? y.handlers i) y refl v
  step-Within (ticks now) y v = elim (Bool-cases (is_reset now y.strategy)) [
    | inl stable ↦
        rw stable
          (record { limit = v.limit; bound = ground (arith, v.bound, mul-suc (suc m) y.resets) })
    | inr early ↦ rw early v
  ]
  step-Within stops y v = record { limit = v.limit; bound = v.bound }
  step-Within expires y v = record { limit = v.limit; bound = v.bound }

  run-Within : (acts : List Action) (y : System) → Within y → Within (run acts y)
  unfolding run
  run-Within [] y v = v
  run-Within (a ∷ acts) y v = run-Within acts (step a y) (step-Within a y v)

-- With a limit, restartInstance calls Launch at most as often as the limit says after the start, and
-- as often again after each reset of the counter, whatever events come and however the goroutines
-- interleave.
pub run-launches :
    (m : ℕ) (s : Strategy) (acts : List Action)
    → s.config.max_restarts ≡ pos (suc m)
    → let y = run acts (started (start s)) in y.launches ≤ suc m * suc y.resets
unfolding started start
run-launches m s acts h =
    let y = run acts (started (start s)) in
    let v = run-Within m acts (started (start s)) (record { limit = h; bound = ground arith }) in
    omega (arith, mul-suc (suc m) y.resets, v.bound, lesser_le m y.strategy.restart_count)
