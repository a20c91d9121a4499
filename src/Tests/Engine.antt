-- ===== src/Tests/Engine.antt =====
-- A run of the engine whose retrieval fails once and whose validator advises a new answer.
use prima_next.Base.{
  ℕ, ◌+◌, ◌-◌, ◌*◌, ◌≤◌, ◌≡◌, ◌==◌, nat_eq, refl, Option, none, some, [], ◌∷◌, length, arith,
}
use prima_next.Workflow.Context.{ExecutionContext}
use prima_next.Workflow.Phase.{WorkflowStatus, completed, memory_retrieval}
use prima_next.Workflow.Engine.Cancellation.{execute-cancelled}
use prima_next.Workflow.Engine.{
  Engine, execute, run_route, run_phases, run_round, execute_phase, attempt_once, retry_phase,
  after_phase, close_attempts, apply_advice, gate_retry,
}
use prima_next.Workflow.Engine.Corrections.{skip_phase, phase_advice}
use prima_next.Workflow.Engine.Output.{route_phase_output}
use prima_next.Workflow.Engine.Termination.{execute-terminates, route_of}
use prima_next.Workflow.Engine.Conclusion.{execute-Ends, Ends}
use prima_next.Workflow.Engine.Cost.{execute-calls}
use prima_next.Tests.Fixtures.{demo_context, demo_engine, demo_metadata}

demo_fuel :
    length (route_of demo_context)
      + (5 * (demo_engine.budget.max_retrieval_retries - demo_metadata.retrieval_retry_count)
          + 9
            * (demo_engine.budget.max_reflection_interventions
                - demo_metadata.reflection_intervention_count))
    ≤ 17
demo_fuel = ground arith

execute-terminates_example : (c : ExecutionContext) × (execute 17 demo_engine demo_context ≡ some c)
execute-terminates_example = execute-terminates 17 demo_engine demo_context demo_fuel

-- Where the run ends.
abbrev demo_end : (c : ExecutionContext) × (execute 17 demo_engine demo_context ≡ some c)
demo_end = execute-terminates 17 demo_engine demo_context demo_fuel

abbrev ended : ExecutionContext
ended = demo_end.0

execute-Ends_example : Ends ended
execute-Ends_example = execute-Ends 17 demo_engine demo_context demo_end.1

execute-calls_example : ended.calls ≤ 0 + 2 * (3 + (5 * 1 + 9 * 1))
execute-calls_example = execute-calls 17 demo_engine demo_context demo_end.1

-- The same request, cancelled while its second controller is called.
abbrev cancelled_engine : Engine
cancelled_engine = record demo_engine { cancel_during = λ n. n == 1 }

abbrev cancelled_end : (c : ExecutionContext) × (execute 17 cancelled_engine demo_context ≡ some c)
cancelled_end = execute-terminates 17 cancelled_engine demo_context demo_fuel

early : 0 ≤ 1
early = ground arith

execute-cancelled_example : cancelled_end.0.calls ≤ 1 + (1 + 1)
execute-cancelled_example =
    execute-cancelled 17 cancelled_engine 1 demo_context refl early cancelled_end.1

summary_of : Option ExecutionContext → Option (WorkflowStatus × (ℕ × ℕ))
summary_of none = none
summary_of (some c) = some (c.workflow_state.status, (c.calls, length c.correction_attempts))

-- A request that only retrieves.
abbrev short_context : ExecutionContext
short_context = record demo_context {
  metadata = record demo_metadata { route = some (memory_retrieval ∷ []) };
}

-- The failed retrieval is called again, and the run is completed.
short_summary : summary_of (execute 1 demo_engine short_context) ≡ some (completed, (2, 0))
unfolding summary_of execute run_route run_phases run_round skip_phase execute_phase attempt_once
    retry_phase route_phase_output after_phase close_attempts apply_advice phase_advice gate_retry
short_summary = refl
