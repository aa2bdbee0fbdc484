-- ===== src/Scheduler/System/Tests.antt =====
-- The theorems on the whole scheduler, at small concrete inputs.
use pinchtab.Prelude.{String, ◌≡◌, refl, none, some, List, [], ◌∷◌, arith}
use pinchtab.Prelude.Map
use pinchtab.Prelude.Text.{is_blank, in_ranges}
use pinchtab.Scheduler.Task.{
  Task, queued, running, done, cancelled, rejected, from_terminal, set_state, validate,
}
use pinchtab.Scheduler.Queue.{global_full, enqueue, new_task_queue}
use pinchtab.Scheduler.Queue.Invariant.{inflight_for}
use pinchtab.Scheduler.Queue.Sound.{IsSound}
use pinchtab.Scheduler.Results
use pinchtab.Scheduler.Results.{new_result_store}
use pinchtab.Scheduler.Config.{Config}
use pinchtab.Scheduler.State.{Scheduler, set_state_of, finish_task, new, reload_config}
use pinchtab.Scheduler.Submit.{submit, checked, accept, new_ref}
use pinchtab.Scheduler.Cancel.{
  cancel, looking, signalled, marked, answered, cancel_failed, cancel_step,
}
use pinchtab.Scheduler.Dispatch.{success, conclude, take}
use pinchtab.Scheduler.System.{Event, submits, cancels, takes, concludes, run, step}
use pinchtab.Prelude.Int.{pos}
use pinchtab.Scheduler.Batch.{BatchTaskDef, BatchRequest, handle_batch}
use pinchtab.Scheduler.System.Batches.{Batched, handle_batch-Batched}
use pinchtab.Scheduler.System.Advance.{Advances}
use pinchtab.Scheduler.System.Lives.{run-Advances, run-terminal_state}
use pinchtab.Scheduler.System.QueueValid.{run-new-IsSound}
use pinchtab.Scheduler.System.Linked.{IsLinked, run-new-IsLinked}
use pinchtab.Scheduler.System.Flights.{
  cancel_queued-inflight, conclude_cancelled-inflight, reload-take_nothing,
}
use pinchtab.Scheduler.System.Retained.{
  Submitted, submit-Submitted, evict_all, submit-rejected_retained,
}
use pinchtab.Scheduler.System.Alone.{Alone}
use pinchtab.Scheduler.System.Outcomes.{Turn, race}
use pinchtab.Scheduler.Samples.{
  slow, sample_task, sample_config, sample_world, sample_request, no_tasks, one_task,
  no_tasks-IsSound, one_task-IsSound, one_live, busy_queue, busy_queue-IsSound,
}

abbrev some_events : List Event
some_events =
    submits (sample_world "tsk_1") sample_request
    ∷ takes
    ∷ cancels 160 "tsk_slow" (signalled slow)
    ∷ cancels 161 "tsk_slow" (marked slow)
    ∷ concludes 170 20 slow (success "{}")
    ∷ []

run-new-IsSound_example :
    IsSound (run some_events (new (sample_task slow queued) sample_config)).queue
run-new-IsSound_example = run-new-IsSound (sample_task slow queued) sample_config some_events

run-new-IsLinked_example : IsLinked (run some_events (new (sample_task slow queued) sample_config))
run-new-IsLinked_example = run-new-IsLinked (sample_task slow queued) sample_config some_events

run-Advances_example :
    Advances (one_live queued one_task) (run some_events (one_live queued one_task))
run-Advances_example = run-Advances some_events (one_live queued one_task)

run-terminal_state_example :
    (((run some_events (one_live cancelled one_task)).memory 0).state ≡ cancelled)
    × (((run some_events (one_live cancelled one_task)).memory 0).spec ≡ slow)
unfolding new
run-terminal_state_example =
    run-terminal_state some_events (one_live cancelled one_task) 0 (omega arith) refl

submit-Submitted_example :
    Submitted
      (sample_world "tsk_2")
      sample_request
      (one_live queued one_task)
      (submit (sample_world "tsk_2") sample_request (one_live queued one_task))
submit-Submitted_example =
    submit-Submitted (sample_world "tsk_2") sample_request (one_live queued one_task)
      (one_task-IsSound.valid)

-- the worker ends the task between two sections of Cancel
abbrev late_turns : List Turn
late_turns =
    ([], 160)
    ∷ ([], 161)
    ∷ ([], 162)
    ∷ ([], 163)
    ∷ (concludes 164 20 slow (success "{}") ∷ [], 165)
    ∷ ([], 166)
    ∷ []

cancel_too_late :
    (race "tsk_slow" late_turns looking (one_live running one_task)).1
    ≡ answered (some (cancel_failed (from_terminal done cancelled)))
unfolding race cancel_step run step conclude set_state_of set_state finish_task new Map.lookup
cancel_too_late = refl

-- the worker's result comes in when the task is cancelled already, before the last section
abbrev quick_turns : List Turn
quick_turns =
    ([], 160)
    ∷ (takes ∷ [], 161)
    ∷ ([], 162)
    ∷ ([], 163)
    ∷ ([], 164)
    ∷ (concludes 165 20 slow (success "{}") ∷ [], 166)
    ∷ []

cancel_queued-inflight_example :
    inflight_for "ada" (cancel 160 "tsk_slow" (one_live queued (busy_queue 1))).0.queue ≡ 0
unfolding new Map.lookup
cancel_queued-inflight_example =
    cancel_queued-inflight 160 "tsk_slow" slow (one_live queued (busy_queue 1)) 0
      (busy_queue-IsSound 1).valid refl refl refl

conclude_cancelled-inflight_example :
    inflight_for "ada"
      (conclude 170 20 slow
        (success "{}")
        (cancel 160 "tsk_slow" (one_live running (busy_queue 2))).0).queue
    ≡ 0
unfolding new Map.lookup
conclude_cancelled-inflight_example =
    conclude_cancelled-inflight 160 170 20 "tsk_slow" slow (success "{}")
      (one_live running (busy_queue 2)) 0 (busy_queue-IsSound 2).valid refl refl refl

-- a reload of the limit of tasks in flight alone
abbrev flight_reload : Config
flight_reload = record sample_config {
  max_queue_size = 0;
  max_per_agent = 0;
  max_inflight = 8;
  max_per_agent_flight = 0;
}

nothing_after_reload : take (reload_config flight_reload (one_live queued one_task)) ≡ none
unfolding new
nothing_after_reload =
    reload-take_nothing flight_reload (one_live queued one_task) one_task-IsSound (omega arith) refl

-- a scheduler whose queue takes no more tasks
abbrev full_scheduler : Scheduler
full_scheduler = one_live queued (record no_tasks { max_total = 0 })

submit-rejected_retained_example :
    (t : Task) × (t.state ≡ rejected)
    × (Results.get "tsk_2" (
          evict_all
            (500 ∷ 1000 ∷ [])
            (submit (sample_world "tsk_2") sample_request full_scheduler).0.results)
        ≡ some t)
unfolding new new_result_store new_task_queue enqueue submit checked accept new_ref validate
    is_blank in_ranges
submit-rejected_retained_example =
    submit-rejected_retained (sample_world "tsk_2") sample_request full_scheduler (global_full 0 0)
      (500 ∷ 1000 ∷ []) (no_tasks-IsSound.valid) tt refl

-- a batch of one task that is taken and one without an action
abbrev sample_def : String → BatchTaskDef
sample_def action = record {
  action = action;
  tab_id = "tab_1";
  ref = "e5";
  params = "";
  priority = pos 1;
  deadline = "2026-01-01T00:00:00Z";
}

abbrev sample_batch : BatchRequest
sample_batch = record {
  agent_id = "ada";
  callback_url = "";
  tasks = sample_def "click" ∷ sample_def "" ∷ [];
}

handle_batch-Batched_example :
    Batched sample_batch
      (one_live queued one_task)
      (handle_batch (λ i. sample_world "tsk_9") sample_batch (one_live queued one_task))
handle_batch-Batched_example =
    handle_batch-Batched (λ i. sample_world "tsk_9") sample_batch (one_live queued one_task)
      one_task-IsSound
