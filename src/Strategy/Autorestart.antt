-- ===== src/Strategy/Autorestart.antt =====
-- internal/strategy/autorestart/autorestart.go: the settings and the state of the strategy that
-- starts its browser instance again after a crash. Durations are int64 numbers of nanoseconds; an
-- instant is a number with `none` for the zero time. The orchestrator is not part of the state.
pub mod Handlers
pub mod Delay
pub mod Launches
pub mod Progress
pub mod Recovery
mod Tests
use pinchtab.Prelude.{
  ℕ, String, Bool, true, false, not, ◌||◌, ◌&&◌, Option, none, some, str_eq, if◌then◌else◌,
}
use pinchtab.Prelude.Int.{ℤ, pos, negsuc, ltb_ℤ, eqb_ℤ}

pub record AutorestartConfig : Type 0 where
  pub max_restarts : ℤ
  pub init_backoff : ℤ
  pub max_backoff : ℤ
  pub stable_after : ℤ
  pub profile_name : String
  pub headless : Bool
  pub headless_set : Bool
  pub strategy_name : String
  pub status_path : String

-- the fields of config.RuntimeConfig that the strategy reads
pub record RuntimeConfig : Type 0 where
  pub restart_max_restarts : ℤ
  pub restart_init_backoff : ℤ
  pub restart_max_backoff : ℤ
  pub restart_stable_after : ℤ
  pub headless : Bool
  pub headless_set : Bool

-- The strategy's context: nil before Start, and then live until it is cancelled.
pub data Context : Type 0 where
  unset : Context
  live : Context
  cancelled : Context

pub record Strategy : Type 0 where
  pub config : AutorestartConfig
  pub instance_id : String
  pub headless : Bool
  pub restart_count : ℕ
  pub last_crash : Option ℕ
  pub last_start : Option ℕ
  pub deliberate : Bool
  pub restarting : Bool
  pub ctx : Context

abbrev default_init_backoff : ℤ
default_init_backoff = pos 2000000000

abbrev default_max_backoff : ℤ
default_max_backoff = pos 60000000000

abbrev default_stable_after : ℤ
default_stable_after = pos 300000000000

-- `x <= 0` replaced by a default
abbrev positive_or : ℤ → ℤ → ℤ
positive_or default x = if ltb_ℤ (pos 0) x then x else default

abbrev text_or : String → String → String
text_or default x = if str_eq x "" then default else x

pub with_defaults : AutorestartConfig → AutorestartConfig
with_defaults cfg = record {
  max_restarts = if eqb_ℤ cfg.max_restarts (pos 0) then pos 3 else cfg.max_restarts;
  init_backoff = positive_or default_init_backoff cfg.init_backoff;
  max_backoff = positive_or default_max_backoff cfg.max_backoff;
  stable_after = positive_or default_stable_after cfg.stable_after;
  profile_name = text_or "default" cfg.profile_name;
  headless = if cfg.headless_set then cfg.headless else true;
  headless_set = cfg.headless_set;
  strategy_name = text_or "simple-autorestart" cfg.strategy_name;
  status_path = text_or "/autorestart/status" cfg.status_path;
}

-- New
unfoldable pub new : AutorestartConfig → Strategy
unfolding with_defaults
new cfg = record {
  config = with_defaults cfg;
  instance_id = "";
  headless = (with_defaults cfg).headless;
  restart_count = 0;
  last_crash = none;
  last_start = none;
  deliberate = false;
  restarting = false;
  ctx = unset;
}

-- SetRuntimeConfig, of a configuration that is not nil
unfoldable pub set_runtime_config : RuntimeConfig → Strategy → Strategy
set_runtime_config cfg s = record s {
  headless = if cfg.headless_set then cfg.headless else s.headless;
  config = record s.config {
    max_restarts =
        if eqb_ℤ cfg.restart_max_restarts (pos 0)
        then s.config.max_restarts
        else cfg.restart_max_restarts;
    init_backoff = positive_or s.config.init_backoff cfg.restart_init_backoff;
    max_backoff = positive_or s.config.max_backoff cfg.restart_max_backoff;
    stable_after = positive_or s.config.stable_after cfg.restart_stable_after;
    headless = if cfg.headless_set then cfg.headless else s.config.headless;
    headless_set = s.config.headless_set || cfg.headless_set;
  };
}

-- Start, as far as it changes the state: it also starts launchInitial and stabilityLoop
unfoldable pub start : Strategy → Strategy
start s = record s { ctx = live }

abbrev cancel : Context → Context
cancel unset = unset
cancel _ = cancelled

-- the end of the context that Start was given
unfoldable pub cancel_ctx : Strategy → Strategy
cancel_ctx s = record s { ctx = cancel s.ctx }

-- Stop
unfoldable pub stop : Strategy → Strategy
stop s = record s { deliberate = true; ctx = cancel s.ctx }

-- hasRestartLimit
unfoldable pub has_restart_limit : Strategy → Bool
has_restart_limit s = ltb_ℤ (pos 0) s.config.max_restarts

pub data Status : Type 0 where
  running : Status
  crashed : Status
  restarting : Status
  starting : Status

pub record RestartState : Type 0 where
  pub instance_id : String
  pub restart_count : ℕ
  pub max_restarts : ℤ
  pub last_crash : Option ℕ
  pub last_start : Option ℕ
  pub status : Status

unfoldable pub status_of : Strategy → Status
unfolding has_restart_limit
status_of s =
    if has_restart_limit s && not (ltb_ℤ (pos s.restart_count) s.config.max_restarts)
    then crashed
    else if s.restarting
    then restarting
    else if str_eq s.instance_id ""
    then starting
    else running

-- State
pub state : Strategy → RestartState
unfolding status_of
state s = record {
  instance_id = s.instance_id;
  restart_count = s.restart_count;
  max_restarts = s.config.max_restarts;
  last_crash = s.last_crash;
  last_start = s.last_start;
  status = status_of s;
}
