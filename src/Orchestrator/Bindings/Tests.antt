-- ===== src/Orchestrator/Bindings/Tests.antt =====
-- The bindings at small concrete inputs.
use pinchtab.Prelude.{◌≡◌, refl, some, [], ◌∷◌, List}
use pinchtab.Prelude.Int.{pos}
use pinchtab.Prelude.Map
use pinchtab.Orchestrator.Bindings.{
  new_bindings, resolve_session, resolve_agent, bind_session, bind_agent, clear_instance, drop_idle,
  drop_excess, prune_agents,
}
use pinchtab.Orchestrator.Bindings.Cleared.{
  Call, binds_session, binds_agent, resolves_agent, prunes, call, run, run-clear_instance,
}

abbrev before_stop : List Call
before_stop =
    binds_session "s" "inst_a" ∷ binds_agent 3 "x" "inst_a" ∷ binds_agent 4 "y" "inst_b" ∷ []

abbrev after_stop : List Call
after_stop =
    binds_session "s" "inst_b"
    ∷ resolves_agent 9 "y"
    ∷ prunes (λ seen. seen) 20 (pos 30) (pos 1)
    ∷ []

served : (resolve_agent 5 "x" (run before_stop new_bindings)).1 ≡ some "inst_a"
unfolding run call new_bindings bind_session bind_agent resolve_agent Map.lookup Map.insert
served = refl

-- an agent that has been idle for longer than ten is dropped
pruned :
    (prune_agents (λ seen. seen) 14 (pos 10) (pos 0) (run before_stop new_bindings)).agent
    ≡ ("y", "inst_b") ∷ []
unfolding run call new_bindings bind_session bind_agent prune_agents drop_idle drop_excess
    Map.lookup Map.insert Map.delete
pruned = refl

run-clear_instance_example :
    let b = run after_stop (clear_instance "inst_a" (run before_stop new_bindings)) in
    (¬ (resolve_session "s" b ≡ some "inst_a")) × (¬ ((resolve_agent 30 "s" b).1 ≡ some "inst_a"))
run-clear_instance_example =
    run-clear_instance "inst_a" "s" 30 (run before_stop new_bindings) after_stop refl
      (refl, (tt, (tt, tt)))
