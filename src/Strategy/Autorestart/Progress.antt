-- ===== src/Strategy/Autorestart/Progress.antt =====
-- internal/strategy/autorestart/restart.go: a crash is dealt with to its end.
use pinchtab.Prelude.{
  ℕ, suc, zero, ◌≤◌, ◌<◌, ◌≡◌, subst, ◌⊎◌, inl, inr, refl, String, Bool, true, false, Option, none,
  some, List, [], ◌∷◌, get_elem?, get_elem?-put, total, measure, total-put, total_pos, Bool-cases,
  arith,
}
use pinchtab.Prelude.Int.{ℤ}
use pinchtab.Strategy.Autorestart.{Strategy, has_restart_limit, start, stop, cancel_ctx}
use pinchtab.Strategy.Autorestart.Handlers.{
  Phase, entering, launching, noticed, giving_up, waiting, relaunching, Input, Outcome, is_live,
  crash, wake, relaunched, restart_instance, advance, handle_event, tick, System, Action, event,
  move, ticks, stops, expires, moved, resume, step, run, started,
}

-- The phases in which a goroutine answers for the flag that a restart is under way.
abbrev busy : Phase → ℕ
busy (giving_up id) = 1
busy (waiting id delay) = 1
busy (relaunching headless) = 1
busy _ = 0

-- While the flag is set and the context lives, some goroutine answers for it.
Answered : System → Type 0
Answered y =
    y.strategy.restarting ≡ true → is_live y.strategy.ctx ≡ true → 0 < total busy y.handlers

record Keeps (p : Phase) (s : Strategy) (o : Outcome) : Type 0 where
  pub ctx : o.strategy.ctx ≡ s.ctx
  pub kept :
      o.strategy.restarting ≡ true
      → is_live s.ctx ≡ true
      → (measure busy o.next ≡ 1) ⊎ ((busy p ≡ 0) × (s.restarting ≡ true))

advance-Keeps : (w : Input) (p : Phase) (s : Strategy) → Keeps p s (advance w p s)
unfolding advance crash wake relaunched restart_instance has_restart_limit
advance-Keeps w entering s = record { ctx = ground arith; kept = ground arith }
advance-Keeps w launching s = record { ctx = ground arith; kept = ground arith }
advance-Keeps w (noticed id) s = record { ctx = ground arith; kept = ground arith }
advance-Keeps w (giving_up id) s = record { ctx = ground arith; kept = ground arith }
advance-Keeps w (waiting id delay) s = record { ctx = ground arith; kept = ground arith }
advance-Keeps w (relaunching headless) s = record { ctx = ground arith; kept = ground arith }

moved-Answered :
    (i : ℕ) (w : Input) (o : Option Phase) (y : System)
    → get_elem? y.handlers i ≡ o
    → Answered y
    → Answered (moved i w o y)
unfolding moved Answered
moved-Answered i w none y e v r l = v r l
moved-Answered i w (some p) y e v r l =
    let k = advance-Keeps w p y.strategy in
    let live' : is_live y.strategy.ctx ≡ true = subst (λ c. is_live c ≡ true) k.ctx l in
    elim (k.kept r live') [
      | inl b ↦ ground (arith, b, total-put busy i p (advance w p y.strategy).next y.handlers e)
      | inr (b, was) ↦
          ground
            (arith, b, v was live', total-put busy i p (advance w p y.strategy).next y.handlers e)
    ]

step-Answered : (a : Action) (y : System) → Answered y → Answered (step a y)
unfolding step handle_event tick stop cancel_ctx Answered
step-Answered (event type instance) y v = ground (arith, v)
step-Answered (move i w) y v = moved-Answered i w (get_elem? y.handlers i) y refl v
step-Answered (ticks now) y v = ground (arith, v)
step-Answered stops y v = ground (arith, v)
step-Answered expires y v = ground (arith, v)

run-Answered : (acts : List Action) (y : System) → Answered y → Answered (run acts y)
unfolding run
run-Answered [] y v = v
run-Answered (a ∷ acts) y v = run-Answered acts (step a y) (step-Answered a y v)

-- The next steps of one goroutine, with the same inputs in each.
abbrev pub moves : ℕ → ℕ → Input → System → System
moves zero i w y = y
moves (suc n) i w y = moves n i w (step (move i w) y)

move_at :
    (i : ℕ) (w : Input) (p : Phase) (y : System)
    → get_elem? y.handlers i ≡ some p
    → step (move i w) y ≡ resume i (advance w p y.strategy) y
unfolding step moved
move_at i w p y e = rw e refl

-- How many of its steps a goroutine needs to end the restart.
abbrev Rests : ℕ → Input → System → Type 0
Rests i w y = (n : ℕ) × ((n ≤ 2) × ((moves n i w y).strategy.restarting ≡ false))

module _ (i : ℕ) (w : Input) where
  giving_up-Rests :
      (id : String) (y : System) → get_elem? y.handlers i ≡ some (giving_up id) → Rests i w y
  unfolding advance
  giving_up-Rests id y e = (1, (omega arith, rw (move_at i w (giving_up id) y e) refl))

  relaunching-rests :
      (headless : Bool) (y : System)
      → get_elem? y.handlers i ≡ some (relaunching headless)
      → (step (move i w) y).strategy.restarting ≡ false
  unfolding advance relaunched
  relaunching-rests headless y e = rw (move_at i w (relaunching headless) y e) (ground arith)

  module _ (t : w.timer ≡ true) where
    wait_over :
        (id : String) (delay : ℤ) (s : Strategy)
        → advance w (waiting id delay) s ≡ restart_instance s
    unfolding advance wake
    wait_over id delay s = rw t refl

    waiting-Rests :
        (id : String) (delay : ℤ) (y : System)
        → get_elem? y.handlers i ≡ some (waiting id delay)
        → Rests i w y
    unfolding restart_instance
    waiting-Rests id delay y e = elim (Bool-cases (is_live y.strategy.ctx)) [
      | inl alive ↦ (
        2,
        (
          omega arith,
          relaunching-rests y.strategy.headless (step (move i w) y) (
              rw (move_at i w (waiting id delay) y e, wait_over id delay y.strategy, alive)
                (get_elem?-put i (waiting id delay) (relaunching y.strategy.headless) y.handlers
                  e)),
        ),
      )
      | inr dead ↦ (
        1,
        (
          omega arith,
          rw (move_at i w (waiting id delay) y e, wait_over id delay y.strategy, dead) refl,
        ),
      )
    ]

    busy-Rests :
        (p : Phase) (y : System) → get_elem? y.handlers i ≡ some p → 0 < busy p → Rests i w y
    busy-Rests entering y e b = absurd (omega (arith, b))
    busy-Rests launching y e b = absurd (omega (arith, b))
    busy-Rests (noticed id) y e b = absurd (omega (arith, b))
    busy-Rests (giving_up id) y e b = giving_up-Rests id y e
    busy-Rests (waiting id delay) y e b = waiting-Rests id delay y e
    busy-Rests (relaunching headless) y e b = (1, (omega arith, relaunching-rests headless y e))

-- From a strategy that is at rest when it is started, whatever has happened since: while a restart
-- is under way and the context lives, there is a goroutine of which two steps at most end the
-- restart, once its wait is over and whether or not Launch succeeds.
pub run-moves :
    (s : Strategy) (acts : List Action) (w : Input)
    → s.restarting ≡ false
    → w.timer ≡ true
    → let y = run acts (started (start s)) in
      y.strategy.restarting ≡ true
      → is_live y.strategy.ctx ≡ true
      → (i : ℕ) × ((n : ℕ) × ((n ≤ 2) × ((moves n i w y).strategy.restarting ≡ false)))
unfolding started start Answered
run-moves s acts w h t r l =
    let y = run acts (started (start s)) in
    let v = run-Answered acts (started (start s)) (λ r'. absurd (ground (arith, h, r'))) in
    let (i, (p, (e, b))) = total_pos busy y.handlers (v r l) in (i, busy-Rests i w t p y e b)
