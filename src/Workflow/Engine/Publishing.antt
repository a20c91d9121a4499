-- ===== src/Workflow/Engine/Publishing.antt =====
-- `_publish` (workflow/orchestration_engine.py): an event carries the status of that moment.
use prima_next.Base.{Option, [], ◌∷◌, ◌++◌}
use prima_next.Workflow.Context.{WorkflowEventType, Payload, ExecutionContext, with_state}
use prima_next.Workflow.Phase.{WorkflowPhase, WorkflowStatus}

abbrev pub set_status : WorkflowStatus → ExecutionContext → ExecutionContext
set_status s = with_state (λ w. record w { status = s })

abbrev pub publish :
    WorkflowEventType → Option WorkflowPhase → Payload → ExecutionContext → ExecutionContext
publish t p x c = record c {
  events =
      c.events
      ++ (record { event_type = t; status = c.workflow_state.status; phase = p; payload = x } ∷ []);
}
