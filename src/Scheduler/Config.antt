-- ===== src/Scheduler/Config.antt =====
-- The settings of internal/scheduler/scheduler.go (New) and reload.go. An `int` or a Duration below
-- 0 acts as 0 in every test. Enabled, Strategy and what only the configuration file reads are left
-- out.
use pinchtab.Prelude.{ℕ, ◌*◌, ltb, if◌then◌else◌}

pub record Config : Type 0 where
  pub max_queue_size : ℕ
  pub max_per_agent : ℕ
  pub max_inflight : ℕ
  pub max_per_agent_flight : ℕ
  pub result_ttl : ℕ
  pub worker_count : ℕ
  pub max_batch_size : ℕ
  pub watcher_interval : ℕ

abbrev pub second : ℕ
second = 1000000000

unfoldable pub default_config : Config
default_config = record {
  max_queue_size = 1000;
  max_per_agent = 100;
  max_inflight = 20;
  max_per_agent_flight = 10;
  result_ttl = 300 * second;
  worker_count = 4;
  max_batch_size = 50;
  watcher_interval = 30 * second;
}

abbrev positive_or : ℕ → ℕ → ℕ
positive_or default n = if ltb 0 n then n else default

-- the defaults that New puts in
unfoldable pub normalize : Config → Config
normalize c = record {
  max_queue_size = positive_or 1000 c.max_queue_size;
  max_per_agent = positive_or 100 c.max_per_agent;
  max_inflight = positive_or 20 c.max_inflight;
  max_per_agent_flight = positive_or 10 c.max_per_agent_flight;
  result_ttl = positive_or (300 * second) c.result_ttl;
  worker_count = positive_or 4 c.worker_count;
  max_batch_size = positive_or 50 c.max_batch_size;
  watcher_interval = positive_or (30 * second) c.watcher_interval;
}
