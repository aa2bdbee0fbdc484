-- ===== src/Scheduler/Metrics.antt =====
-- internal/scheduler/metrics.go: counters, each a uint64 that wraps. The average latency, a float,
-- is left out of the snapshot.
pub mod Totals
use pinchtab.Prelude.{ℕ, ◌+◌, ◌%◌, ◌^◌, String, Option, none, some, [], leb, if◌then◌else◌}
use pinchtab.Prelude.Map
use pinchtab.Prelude.Map.{Map}

pub record AgentMetrics : Type 0 where
  pub submitted : ℕ
  pub completed : ℕ
  pub failed : ℕ
  pub cancelled : ℕ
  pub rejected : ℕ

pub record Metrics : Type 0 where
  pub tasks_submitted : ℕ
  pub tasks_completed : ℕ
  pub tasks_failed : ℕ
  pub tasks_cancelled : ℕ
  pub tasks_rejected : ℕ
  pub tasks_expired : ℕ
  pub dispatch_total : ℕ
  pub dispatch_latency : ℕ
  pub agent_stats : Map AgentMetrics

abbrev pub u64 : ℕ → ℕ
u64 n = n % 18446744073709551616

abbrev pub no_metrics : AgentMetrics
no_metrics = record { submitted = 0; completed = 0; failed = 0; cancelled = 0; rejected = 0 }

pub new_metrics : Metrics
new_metrics = record {
  tasks_submitted = 0;
  tasks_completed = 0;
  tasks_failed = 0;
  tasks_cancelled = 0;
  tasks_rejected = 0;
  tasks_expired = 0;
  dispatch_total = 0;
  dispatch_latency = 0;
  agent_stats = [];
}

abbrev pub or_new : Option AgentMetrics → AgentMetrics
or_new none = no_metrics
or_new (some a) = a

-- `m.agentMetric(agentID).add(fn)`: an agent that is new gets an entry.
pub agent_metric : String → (AgentMetrics → AgentMetrics) → Map AgentMetrics → Map AgentMetrics
agent_metric agent fn m = Map.insert agent (fn (or_new (Map.lookup agent m))) m

pub record_submit : String → Metrics → Metrics
record_submit agent m = record m {
  tasks_submitted = u64 (m.tasks_submitted + 1);
  agent_stats =
      agent_metric agent (λ a. record a { submitted = u64 (a.submitted + 1) }) m.agent_stats;
}

pub record_reject : String → Metrics → Metrics
record_reject agent m = record m {
  tasks_rejected = u64 (m.tasks_rejected + 1);
  agent_stats =
      agent_metric agent (λ a. record a { rejected = u64 (a.rejected + 1) }) m.agent_stats;
}

pub record_complete : String → Metrics → Metrics
record_complete agent m = record m {
  tasks_completed = u64 (m.tasks_completed + 1);
  agent_stats =
      agent_metric agent (λ a. record a { completed = u64 (a.completed + 1) }) m.agent_stats;
}

pub record_fail : String → Metrics → Metrics
record_fail agent m = record m {
  tasks_failed = u64 (m.tasks_failed + 1);
  agent_stats = agent_metric agent (λ a. record a { failed = u64 (a.failed + 1) }) m.agent_stats;
}

pub record_cancel : String → Metrics → Metrics
record_cancel agent m = record m {
  tasks_cancelled = u64 (m.tasks_cancelled + 1);
  agent_stats =
      agent_metric agent (λ a. record a { cancelled = u64 (a.cancelled + 1) }) m.agent_stats;
}

pub record_expire : Metrics → Metrics
record_expire m = record m { tasks_expired = u64 (m.tasks_expired + 1) }

-- A latency that is not positive counts as one nanosecond.
pub record_dispatch_latency : ℕ → Metrics → Metrics
record_dispatch_latency d m = record m {
  dispatch_total = u64 (m.dispatch_total + 1);
  dispatch_latency = u64 (m.dispatch_latency + (if leb d 0 then 1 else d));
}
