-- ===== src/Strategy/Autorestart/Handlers.antt =====
-- internal/strategy/autorestart/restart.go: the goroutines of the strategy, each cut at its critical
-- sections, and any interleaving of them. The orchestrator's events, the readings of the clock and
-- the results of Launch are inputs.
use pinchtab.Prelude.{
  ℕ, suc, ◌+◌, ◌-◌, ◌*◌, ◌^◌, ◌%◌, String, Bool, true, false, Option, none, some, List, [], ◌∷◌,
  ltb, str_eq, if◌then◌else◌, ◌&&◌, get_elem?, put, ◌++◌,
}
use pinchtab.Prelude.Int.{ℤ, pos, negsuc, ltb_ℤ}
use pinchtab.Strategy.Autorestart.{Strategy, Context, live, has_restart_limit, cancel_ctx, stop}

abbrev pub two_63 : ℕ
two_63 = 9223372036854775808

abbrev pub two_64 : ℕ
two_64 = 18446744073709551616

-- an int64 as its 64 bits, and back
abbrev pub bits : ℤ → ℕ
bits (pos n) = n % two_64
bits (negsuc n) = two_64 - suc (n % two_64)

abbrev signed_bits : ℕ → ℤ
signed_bits n = if ltb n two_63 then pos n else negsuc (two_64 - suc n)

unfoldable pub signed : ℕ → ℤ
signed n = signed_bits (n % two_64)

-- `InitBackoff * time.Duration(1<<uint(count-1))`, capped
unfoldable pub backoff : ℤ → ℤ → ℕ → ℤ
unfolding signed
backoff init max count =
    let delay = signed (bits init * 2 ^ (count - 1)) in if ltb_ℤ max delay then max else delay

-- Where a goroutine stands.
pub data Phase : Type 0 where
  -- launchInitial, before its test of the context and before the end of Launch
  entering : Phase
  launching : Phase
  -- handleCrash of an instance: at its start, after the first section where it gives up, and in
  -- its wait
  noticed : String → Phase
  giving_up : String → Phase
  waiting : String → ℤ → Phase
  -- restartInstance, before the end of Launch
  relaunching : Bool → Phase

pub data Emitted : Type 0 where
  instance_crashed : String → Emitted
  instance_restarting : String → Emitted
  instance_restarted : String → Emitted

-- What a goroutine meets in its next step: the time, the result of Launch (the id and the mode of
-- the new instance), and whether a wait ends by its timer or by the context.
pub record Input : Type 0 where
  pub now : ℕ
  pub launched : Option (String × Bool)
  pub timer : Bool

-- A step of a goroutine: the strategy after it, where the goroutine stands unless it has ended,
-- the events it emits, and the calls of Launch in restartInstance.
pub record Outcome : Type 0 where
  pub strategy : Strategy
  pub next : Option Phase
  pub emitted : List Emitted
  pub launches : ℕ

abbrev ends : Strategy → Outcome
ends s = record { strategy = s; next = none; emitted = []; launches = 0 }

abbrev goes : Strategy → Phase → Outcome
goes s p = record { strategy = s; next = some p; emitted = []; launches = 0 }

abbrev pub is_live : Context → Bool
is_live live = true
is_live _ = false

abbrev running : String × Bool → ℕ → Strategy → Strategy
running (id, headless) now s = record s {
  instance_id = id;
  headless = headless;
  last_start = some now;
}

-- launchInitial, after Launch
abbrev launched_first : Input → Option (String × Bool) → Strategy → Outcome
launched_first w none s = ends s
launched_first w (some inst) s = ends (running inst w.now s)

-- the first section of handleCrash
abbrev pub count_crash : ℕ → Strategy → Strategy
count_crash now s = record s {
  restarting = true;
  restart_count = suc s.restart_count;
  last_crash = some now;
}

-- handleCrash, up to its wait
unfoldable pub crash : ℕ → String → Strategy → Outcome
unfolding has_restart_limit backoff
crash now id s =
    let s' = count_crash now s in
    if not_live
    then ends s
    else if has_restart_limit s && ltb_ℤ s.config.max_restarts (pos s'.restart_count)
    then goes s' (giving_up id)
    else record (goes s' (waiting id delay)) { emitted = instance_restarting id ∷ [] }
  where
    not_live : Bool
    not_live = if is_live s.ctx then false else true

    delay : ℤ
    delay = backoff s.config.init_backoff s.config.max_backoff (suc s.restart_count)

abbrev rest : Strategy → Strategy
rest s = record s { restarting = false }

-- restartInstance, up to Launch
unfoldable pub restart_instance : Strategy → Outcome
restart_instance s =
    if is_live s.ctx
    then record (goes s (relaunching s.headless)) { launches = 1 }
    else ends (rest s)

-- the select of handleCrash: the context's end is seen only once it is there
unfoldable pub wake : Bool → String → ℤ → Strategy → Outcome
unfolding restart_instance
wake true id delay s = restart_instance s
wake false id delay s = if is_live s.ctx then goes s (waiting id delay) else ends s

-- restartInstance, after Launch
unfoldable pub relaunched : ℕ → Option (String × Bool) → Strategy → Outcome
relaunched now none s = ends (rest s)
relaunched now (some (id, headless)) s = record (ends (rest (running (id, headless) now s))) {
  emitted = instance_restarted id ∷ [];
}

unfoldable pub advance : Input → Phase → Strategy → Outcome
unfolding crash wake relaunched
advance w entering s = if is_live s.ctx then goes s launching else ends s
advance w launching s = launched_first w w.launched s
advance w (noticed id) s = crash w.now id s
advance w (giving_up id) s = record (ends (rest s)) { emitted = instance_crashed id ∷ [] }
advance w (waiting id delay) s = wake w.timer id delay s
advance w (relaunching headless) s = relaunched w.now w.launched s

-- The types of the orchestrator's events that handleEvent tells apart.
pub data EventType : Type 0 where
  instance_stopped : EventType
  instance_error : EventType
  other_event : EventType

abbrev pub is_crash : EventType → Bool
is_crash other_event = false
is_crash _ = true

abbrev is_managed : Option String → Strategy → Bool
is_managed none s = false
is_managed (some id) s = str_eq id s.instance_id

-- handleEvent, up to its call of handleCrash, if it makes one
unfoldable pub handle_event : EventType → Option String → Strategy → Option Phase
handle_event type instance s =
    if is_managed instance s
    then if s.restarting
      then none
      else if is_crash type
      then if s.deliberate then none else some (noticed s.instance_id)
      else none
    else none

abbrev is_stable : ℕ → Option ℕ → ℤ → Bool
is_stable now none stable_after = false
is_stable now (some start) stable_after = ltb_ℤ stable_after (pos (now - start))

-- a tick of stabilityLoop, and whether it resets the counter
unfoldable pub is_reset : ℕ → Strategy → Bool
is_reset now s = ltb 0 s.restart_count && is_stable now s.last_start s.config.stable_after

unfoldable pub tick : ℕ → Strategy → Strategy
unfolding is_reset
tick now s = if is_reset now s then record s { restart_count = 0 } else s

-- The strategy with its goroutines; `launches` counts the calls of Launch in restartInstance, and
-- `resets` how often the counter was reset.
pub record System : Type 0 where
  pub strategy : Strategy
  pub handlers : List Phase
  pub emitted : List Emitted
  pub launches : ℕ
  pub resets : ℕ

pub data Action : Type 0 where
  -- an event of the orchestrator, the next step of a goroutine, a tick of stabilityLoop
  event : EventType → Option String → Action
  move : ℕ → Input → Action
  ticks : ℕ → Action
  -- Stop, and the end of the context that Start was given
  stops : Action
  expires : Action

abbrev add : Option Phase → List Phase → List Phase
add none ps = ps
add (some p) ps = p ∷ ps

abbrev pub resume : ℕ → Outcome → System → System
resume i o y = record {
  strategy = o.strategy;
  handlers = put i o.next y.handlers;
  emitted = o.emitted ++ y.emitted;
  launches = o.launches + y.launches;
  resets = y.resets;
}

unfoldable pub moved : ℕ → Input → Option Phase → System → System
unfolding advance
moved i w none y = y
moved i w (some p) y = resume i (advance w p y.strategy) y

unfoldable pub step : Action → System → System
unfolding moved handle_event tick is_reset stop cancel_ctx
step (event type instance) y = record y {
  handlers = add (handle_event type instance y.strategy) y.handlers;
}
step (move i w) y = moved i w (get_elem? y.handlers i) y
step (ticks now) y = record y {
  strategy = tick now y.strategy;
  resets = if is_reset now y.strategy then suc y.resets else y.resets;
}
step stops y = record y { strategy = stop y.strategy }
step expires y = record y { strategy = cancel_ctx y.strategy }

unfoldable pub run : List Action → System → System
unfolding step
run [] y = y
run (a ∷ acts) y = run acts (step a y)

-- a strategy that has just been started
unfoldable pub started : Strategy → System
started s = record {
  strategy = s;
  handlers = entering ∷ [];
  emitted = [];
  launches = 0;
  resets = 0;
}
