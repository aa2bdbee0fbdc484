-- ===== src/Strategy/Autorestart/Recovery.antt =====
-- internal/strategy/autorestart/restart.go: one crash, from the orchestrator's event to the end.
use pinchtab.Prelude.{
  suc, ◌≡◌, refl, String, Bool, true, false, some, ◌∷◌, ◌&&◌, if◌then◌else◌, eq_refl, Bool-cases,
  arith, inl, inr,
}
use pinchtab.Prelude.Int.{pos, ltb_ℤ}
use pinchtab.Strategy.Autorestart.{Strategy, has_restart_limit}
use pinchtab.Strategy.Autorestart.Handlers.{
  noticed, instance_crashed, instance_restarting, instance_restarted, Input, EventType, is_live,
  is_crash, crash, wake, relaunched, restart_instance, advance, handle_event, System, event, moved,
  step,
}
use pinchtab.Strategy.Autorestart.Progress.{moves}

-- The strategy after a crash that it may not answer by a restart: it is counted and reported, and
-- nothing is launched.
pub record GaveUp (s : Strategy) (y y' : System) : Type 0 where
  pub resting : y'.strategy.restarting ≡ false
  pub count : y'.strategy.restart_count ≡ suc s.restart_count
  pub instance_id : y'.strategy.instance_id ≡ s.instance_id
  pub handlers : y'.handlers ≡ y.handlers
  pub launches : y'.launches ≡ y.launches
  pub emitted : y'.emitted ≡ instance_crashed s.instance_id ∷ y.emitted

-- The strategy after a crash that is answered by a restart, where Launch returns an instance.
pub record Restarted (s : Strategy) (id : String) (y y' : System) : Type 0 where
  pub resting : y'.strategy.restarting ≡ false
  pub count : y'.strategy.restart_count ≡ suc s.restart_count
  pub instance_id : y'.strategy.instance_id ≡ id
  pub handlers : y'.handlers ≡ y.handlers
  pub launches : y'.launches ≡ suc y.launches
  pub emitted : y'.emitted ≡ instance_restarted id ∷ instance_restarting s.instance_id ∷ y.emitted

-- whether one more crash goes beyond the limit
abbrev pub is_last : Strategy → Bool
unfolding has_restart_limit
is_last s = has_restart_limit s && ltb_ℤ s.config.max_restarts (pos (suc s.restart_count))

-- An unexpected end of the managed instance, while no restart is under way and the context lives:
-- beyond the limit the strategy gives up, and else it waits and launches, after which it manages
-- the instance that Launch returned; no goroutine is left over either way.
pub crash-Answered :
    (type : EventType) (w : Input) (id : String) (headless : Bool) (y : System)
    → is_crash type ≡ true
    → y.strategy.restarting ≡ false
    → y.strategy.deliberate ≡ false
    → is_live y.strategy.ctx ≡ true
    → w.timer ≡ true
    → w.launched ≡ some (id, headless)
    → let y' = step (event type (some y.strategy.instance_id)) y in
      if is_last y.strategy
      then GaveUp y.strategy y (moves 2 0 w y')
      else Restarted y.strategy id y (moves 3 0 w y')
unfolding step moved handle_event advance crash wake relaunched restart_instance has_restart_limit
crash-Answered type w id headless y k r d l t o =
    let noted : handle_event type (some y.strategy.instance_id) y.strategy
        ≡ some (noticed y.strategy.instance_id) =
      ground (arith, k, r, d, eq_refl y.strategy.instance_id) in
    elim (Bool-cases (is_last y.strategy)) [
      | inl over ↦
          rw (noted, over, l)
            (record {
              resting = refl;
              count = refl;
              instance_id = refl;
              handlers = refl;
              launches = omega arith;
              emitted = refl;
            })
      | inr within ↦
          rw (noted, within, l, t, l, o)
            (record {
              resting = refl;
              count = refl;
              instance_id = refl;
              handlers = refl;
              launches = omega arith;
              emitted = refl;
            })
    ]
