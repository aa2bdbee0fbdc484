-- ===== src/Scheduler/Metrics/Totals.antt =====
-- The global counters and the agents'.
use pinchtab.Prelude.{ℕ, ◌+◌, ◌≡◌, refl, sym, String, Option, none, some, List, [], ◌∷◌, arith}
use pinchtab.Prelude.Map
use pinchtab.Prelude.Map.{Map}
use pinchtab.Scheduler.Metrics.{
  Metrics, AgentMetrics, u64, no_metrics, or_new, new_metrics, agent_metric, record_submit,
  record_reject, record_complete, record_fail, record_cancel, record_expire,
  record_dispatch_latency,
}

-- Each global counter is the sum of the agents' counters, modulo 2^64.
pub record IsTotal (m : Metrics) : Type 0 where
  pub submitted : m.tasks_submitted ≡ u64 (Map.sum (λ a. a.submitted) m.agent_stats)
  pub completed : m.tasks_completed ≡ u64 (Map.sum (λ a. a.completed) m.agent_stats)
  pub failed : m.tasks_failed ≡ u64 (Map.sum (λ a. a.failed) m.agent_stats)
  pub cancelled : m.tasks_cancelled ≡ u64 (Map.sum (λ a. a.cancelled) m.agent_stats)
  pub rejected : m.tasks_rejected ≡ u64 (Map.sum (λ a. a.rejected) m.agent_stats)

-- a call of one of the recorders
pub data Event : Type 0 where
  submit reject complete fail cancel : String → Event
  expire : Event
  latency : ℕ → Event

abbrev pub record_event : Event → Metrics → Metrics
record_event (submit a) = record_submit a
record_event (reject a) = record_reject a
record_event (complete a) = record_complete a
record_event (fail a) = record_fail a
record_event (cancel a) = record_cancel a
record_event expire = record_expire
record_event (latency d) = record_dispatch_latency d

pub record_all : List Event → Metrics → Metrics
record_all [] m = m
record_all (e ∷ es) m = record_all es (record_event e m)

-- One count, of `f`, over the agents, when `fn` is applied to an agent's entry.
agent_metric-sum :
    (f : AgentMetrics → ℕ) (agent : String) (fn : AgentMetrics → AgentMetrics)
    (m : Map AgentMetrics)
    → f no_metrics ≡ 0
    → Map.sum f (agent_metric agent fn m) + f (or_new (Map.lookup agent m))
      ≡ Map.sum f m + f (fn (or_new (Map.lookup agent m)))
unfolding agent_metric
agent_metric-sum f agent fn m zero_new =
    let same = at_new f (Map.lookup agent m) zero_new in
    omega (arith, same, Map.sum-insert f agent (fn (or_new (Map.lookup agent m))) m)
  where
    at_new :
        (f : AgentMetrics → ℕ) (o : Option AgentMetrics)
        → f no_metrics ≡ 0
        → Map.at f o ≡ f (or_new o)
    at_new f none e = sym e
    at_new f (some a) e = refl

-- An entry that changes in one count, by one, and the totals with it.
module _ (agent : String) (fn : AgentMetrics → AgentMetrics) (m : Map AgentMetrics) where
  bumped :
      (f : AgentMetrics → ℕ) (n : ℕ)
      → f no_metrics ≡ 0
      → ((a : AgentMetrics) → f (fn a) ≡ u64 (f a + 1))
      → n ≡ u64 (Map.sum f m)
      → u64 (n + 1) ≡ u64 (Map.sum f (agent_metric agent fn m))
  bumped f n z up e =
      omega (arith, agent_metric-sum f agent fn m z, up (or_new (Map.lookup agent m)), e)

  kept :
      (f : AgentMetrics → ℕ) (n : ℕ)
      → f no_metrics ≡ 0
      → ((a : AgentMetrics) → f (fn a) ≡ f a)
      → n ≡ u64 (Map.sum f m)
      → n ≡ u64 (Map.sum f (agent_metric agent fn m))
  kept f n z same e =
      omega (arith, agent_metric-sum f agent fn m z, same (or_new (Map.lookup agent m)), e)

event-IsTotal : (e : Event) (m : Metrics) → IsTotal m → IsTotal (record_event e m)
unfolding record_submit record_reject record_complete record_fail record_cancel record_expire
    record_dispatch_latency
event-IsTotal (submit a) m v = record {
  submitted = bumped a _ m.agent_stats (λ a. a.submitted) _ refl (λ a. refl) v.submitted;
  completed = kept a _ m.agent_stats (λ a. a.completed) _ refl (λ a. refl) v.completed;
  failed = kept a _ m.agent_stats (λ a. a.failed) _ refl (λ a. refl) v.failed;
  cancelled = kept a _ m.agent_stats (λ a. a.cancelled) _ refl (λ a. refl) v.cancelled;
  rejected = kept a _ m.agent_stats (λ a. a.rejected) _ refl (λ a. refl) v.rejected;
}
event-IsTotal (reject a) m v = record {
  submitted = kept a _ m.agent_stats (λ a. a.submitted) _ refl (λ a. refl) v.submitted;
  completed = kept a _ m.agent_stats (λ a. a.completed) _ refl (λ a. refl) v.completed;
  failed = kept a _ m.agent_stats (λ a. a.failed) _ refl (λ a. refl) v.failed;
  cancelled = kept a _ m.agent_stats (λ a. a.cancelled) _ refl (λ a. refl) v.cancelled;
  rejected = bumped a _ m.agent_stats (λ a. a.rejected) _ refl (λ a. refl) v.rejected;
}
event-IsTotal (complete a) m v = record {
  submitted = kept a _ m.agent_stats (λ a. a.submitted) _ refl (λ a. refl) v.submitted;
  completed = bumped a _ m.agent_stats (λ a. a.completed) _ refl (λ a. refl) v.completed;
  failed = kept a _ m.agent_stats (λ a. a.failed) _ refl (λ a. refl) v.failed;
  cancelled = kept a _ m.agent_stats (λ a. a.cancelled) _ refl (λ a. refl) v.cancelled;
  rejected = kept a _ m.agent_stats (λ a. a.rejected) _ refl (λ a. refl) v.rejected;
}
event-IsTotal (fail a) m v = record {
  submitted = kept a _ m.agent_stats (λ a. a.submitted) _ refl (λ a. refl) v.submitted;
  completed = kept a _ m.agent_stats (λ a. a.completed) _ refl (λ a. refl) v.completed;
  failed = bumped a _ m.agent_stats (λ a. a.failed) _ refl (λ a. refl) v.failed;
  cancelled = kept a _ m.agent_stats (λ a. a.cancelled) _ refl (λ a. refl) v.cancelled;
  rejected = kept a _ m.agent_stats (λ a. a.rejected) _ refl (λ a. refl) v.rejected;
}
event-IsTotal (cancel a) m v = record {
  submitted = kept a _ m.agent_stats (λ a. a.submitted) _ refl (λ a. refl) v.submitted;
  completed = kept a _ m.agent_stats (λ a. a.completed) _ refl (λ a. refl) v.completed;
  failed = kept a _ m.agent_stats (λ a. a.failed) _ refl (λ a. refl) v.failed;
  cancelled = bumped a _ m.agent_stats (λ a. a.cancelled) _ refl (λ a. refl) v.cancelled;
  rejected = kept a _ m.agent_stats (λ a. a.rejected) _ refl (λ a. refl) v.rejected;
}
event-IsTotal expire m v = record {
  submitted = v.submitted;
  completed = v.completed;
  failed = v.failed;
  cancelled = v.cancelled;
  rejected = v.rejected;
}
event-IsTotal (latency d) m v = record {
  submitted = v.submitted;
  completed = v.completed;
  failed = v.failed;
  cancelled = v.cancelled;
  rejected = v.rejected;
}

record_all-keeps : (es : List Event) (m : Metrics) → IsTotal m → IsTotal (record_all es m)
unfolding record_all
record_all-keeps [] m v = v
record_all-keeps (e ∷ es) m v = record_all-keeps es (record_event e m) (event-IsTotal e m v)

-- After any sequence of recorded events, from the metrics of a new scheduler on, each of the five
-- global counters that have a counter per agent is the sum of the agents', modulo 2^64.
pub record_all-IsTotal : (es : List Event) → IsTotal (record_all es new_metrics)
unfolding new_metrics
record_all-IsTotal es = record_all-keeps es new_metrics (omega arith)
