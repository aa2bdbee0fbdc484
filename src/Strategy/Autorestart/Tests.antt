-- ===== src/Strategy/Autorestart/Tests.antt =====
-- The strategy at small concrete inputs.
use pinchtab.Prelude.{ℕ, ◌≡◌, refl, true, false, some, List, [], ◌∷◌, arith, ◌≤◌, ◌*◌, suc}
use pinchtab.Prelude.Int.{pos, negsuc}
use pinchtab.Strategy.Autorestart.{AutorestartConfig, new, start, has_restart_limit}
use pinchtab.Strategy.Autorestart.Handlers.{
  waiting, Input, instance_error, instance_stopped, System, Action, event, move, signed, backoff,
  step, run, started, moved, advance, crash, wake, relaunched, restart_instance, handle_event,
}
use pinchtab.Strategy.Autorestart.Delay.{backoff-lesser}
use pinchtab.Strategy.Autorestart.Launches.{run-launches}
use pinchtab.Strategy.Autorestart.Progress.{run-moves, moves}
use pinchtab.Strategy.Autorestart.Recovery.{crash-Answered, Restarted}

abbrev no_settings : AutorestartConfig
no_settings = record {
  max_restarts = pos 0;
  init_backoff = pos 0;
  max_backoff = pos 0;
  stable_after = pos 0;
  profile_name = "";
  headless = false;
  headless_set = false;
  strategy_name = "";
  status_path = "";
}

-- Launch returns the instance "b", and waits end by their timers
abbrev launches_b : Input
launches_b = record { now = 7; launched = some ("b", true); timer = true }

-- the first instance is launched and crashes
abbrev first_crash : List Action
first_crash =
    move 0 launches_b ∷ move 0 launches_b ∷ event instance_error (some "b") ∷ move 0 launches_b ∷ []

waits_for_backoff :
    (run first_crash (started (start (new no_settings)))).handlers
    ≡ waiting "b" (pos 2000000000) ∷ []
unfolding run step moved advance crash wake relaunched restart_instance handle_event backoff signed
    has_restart_limit new started start
waits_for_backoff = refl

-- the delay after 34 crashes in a row, with the defaults, is past an int64, and negative
backoff_past_int64 : backoff (pos 2000000000) (pos 60000000000) 34 ≡ negsuc 1266874889709551615
unfolding backoff signed
backoff_past_int64 = refl

fourth_crash : backoff (pos 2000000000) (pos 60000000000) 3 ≡ pos 8000000000
fourth_crash = backoff-lesser 2000000000 60000000000 2 (omega arith)

run-launches_example :
    let y = run first_crash (started (start (new no_settings))) in y.launches ≤ 3 * suc y.resets
unfolding new
run-launches_example = run-launches 2 (new no_settings) first_crash refl

run-moves_example :
    let y = run first_crash (started (start (new no_settings))) in
    (i : ℕ) × ((n : ℕ) × ((n ≤ 2) × ((moves n i launches_b y).strategy.restarting ≡ false)))
unfolding run step moved advance crash wake relaunched restart_instance handle_event backoff signed
    has_restart_limit new started start
run-moves_example = run-moves (new no_settings) first_crash launches_b refl refl refl refl

abbrev b_runs : System
b_runs = record {
  strategy = record (start (new no_settings)) { instance_id = "b" };
  handlers = [];
  emitted = [];
  launches = 0;
  resets = 0;
}

crash-Answered_example :
    Restarted b_runs.strategy "b" b_runs
      (moves 3 0 launches_b (step (event instance_stopped (some "b")) b_runs))
unfolding new start has_restart_limit
crash-Answered_example =
    crash-Answered instance_stopped launches_b "b" true b_runs refl refl refl refl refl refl
