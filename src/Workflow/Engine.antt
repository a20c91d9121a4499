-- ===== src/Workflow/Engine.antt =====
-- workflow/orchestration_engine.py, workflow/controller_registry.py and workflow/task_router.py:
-- the loop that runs the phases of a route. Controllers are arguments: what one returns may depend
-- on the context and on the number of calls made before.
pub mod Output
pub mod Corrections
pub mod Publishing
pub mod Frames
pub mod Termination
pub mod Invariants
pub mod Budgets
pub mod Calls
pub mod Conclusion
pub mod Cost
mod Requests
pub mod Cancellation
use prima_next.Base.{
  ℕ, zero, suc, ◌+◌, min, ◌≡◌, Bool, true, false, not, ◌&&◌, ◌||◌, Option, none, some, List, [],
  ◌∷◌, ◌++◌, Eq, ◌==◌, ltb, is_none, if◌then◌else◌,
}
use prima_next.Base.Dict.{Dict, lookup, insert}
use prima_next.Base.Text.{Text, codes}
use prima_next.Workflow.Advice.{ReflectionAdvice}
use prima_next.Workflow.Context.{
  PhaseResult, ExecutionContext, request_cancel, mark_phase_complete, increment_retry, with_state,
  workflow_started, phase_started, phase_completed, phase_retry, phase_failed, workflow_completed,
  workflow_cancelled, workflow_failed, empty, error, retry_error,
}
use prima_next.Workflow.Correction.{CorrectionBudget}
use prima_next.Workflow.Correction.Completion.{complete}
use prima_next.Workflow.Phase.{
  WorkflowPhase, WorkflowStatus, phase_eq, phase_value, answer_generation, output_validation,
  output, execution_decision, running, completed, failed, cancelled,
}
use Corrections.{requests_retrieval_retry, skip_phase, phase_advice, correction_phases, retry_route}
use Output.{Routed, routed, rejected, route_phase_output}
use Publishing.{publish, set_status}

-- How one call of a controller ends.
pub data Outcome : Type 0 where
  returned : PhaseResult → Outcome
  raised : Text → Outcome
  -- `asyncio.CancelledError`
  task_cancelled : Outcome

abbrev pub Controller : Type 0
Controller = ℕ → ExecutionContext → Outcome

pub record Engine : Type 0 where
  pub controllers : Dict WorkflowPhase Controller
  pub max_retries : ℕ
  pub budget : CorrectionBudget
  -- whether another task calls `cancel` during the n-th controller call
  pub cancel_during : ℕ → Bool

-- `ControllerRegistry.register`
unfoldable pub register : WorkflowPhase → Controller → Engine → Engine
register p f e = record e { controllers = insert p f e.controllers }

-- `ControllerRegistry.get` and the call of the controller.
abbrev pub called : Engine → ExecutionContext → ExecutionContext
called e c =
    let c' = record c { calls = c.calls + 1 } in
    if e.cancel_during c.calls then record c' { cancellation_requested = true } else c'

unfoldable pub call : Engine → WorkflowPhase → ExecutionContext → Outcome × ExecutionContext
call e p c = elim (lookup p e.controllers) [
  | none ↦ (raised (codes "No controller registered for phase " ++ phase_value p), c)
  | some f ↦ (f c.calls c, called e c)
]

-- One attempt at a phase: stored, raised, or stopped by a cancelled task.
pub data Attempt : Type 0 where
  stored : ExecutionContext → Attempt
  erred : Text → ExecutionContext → Attempt
  interrupted : ExecutionContext → Attempt

abbrev pub settle_routed : ExecutionContext → Routed → Attempt
settle_routed c (routed c') = stored c'
settle_routed c (rejected e) = erred e c

abbrev pub settle : WorkflowPhase → Outcome → ExecutionContext → Attempt
settle p (returned r) c = settle_routed c (route_phase_output p r c)
settle p (raised e) c = erred e c
settle p task_cancelled c = interrupted (request_cancel c)

unfoldable pub attempt_once : Engine → WorkflowPhase → ExecutionContext → Attempt
unfolding call request_cancel
attempt_once e p c = let (o, c') = call e p c in settle p o c'

-- The records that an exception leaves: the phase's retry count and the error list.
abbrev pub note_error : WorkflowPhase → Text → ExecutionContext → ExecutionContext × ℕ
note_error p x c =
    let (w, count) = increment_retry p c.workflow_state in
    (
      record c {
        workflow_state = record w {
          errors = w.errors ++ (phase_value p ++ (codes ": " ++ x)) ∷ [];
        };
      },
      count,
    )

unfoldable pub fail_phase : WorkflowPhase → Text → ExecutionContext → ExecutionContext
unfolding increment_retry
fail_phase p x c =
    let (c', count) = note_error p x c in publish phase_failed (some p) (retry_error x count) c'

unfoldable pub retry_phase : WorkflowPhase → Text → ExecutionContext → ExecutionContext
unfolding increment_retry
retry_phase p x c =
    let (c', count) = note_error p x c in publish phase_retry (some p) (retry_error x count) c'

-- How a phase ends after its retries.
pub data PhaseEnd : Type 0 where
  finished : ExecutionContext → PhaseEnd
  crashed : Text → ExecutionContext → PhaseEnd
  stopped : ExecutionContext → PhaseEnd

-- `_execute_phase_with_retries`, by the number of retries that are left.
unfoldable pub execute_phase : ℕ → Engine → WorkflowPhase → ExecutionContext → PhaseEnd
execute_phase zero e p c = elim (attempt_once e p c) [
  | stored c' ↦ finished c'
  | erred x c' ↦ crashed x (fail_phase p x c')
  | interrupted c' ↦ stopped c'
]
execute_phase (suc left) e p c = elim (attempt_once e p c) [
  | stored c' ↦ finished c'
  | erred x c' ↦ execute_phase left e p (retry_phase p x c')
  | interrupted c' ↦ stopped c'
]

-- What remains to be done: the context, and the phases still ahead.
abbrev pub Work : Type 0
Work = ExecutionContext × List WorkflowPhase

abbrev pub count_generation : WorkflowPhase → ExecutionContext → ExecutionContext
count_generation p c =
    if p == answer_generation
    then record c {
      metadata = record (c.metadata) { generation_count = c.metadata.generation_count + 1 };
    }
    else c

unfoldable pub gate_retry : Engine → WorkflowPhase → Work → Work
gate_retry e p (c, rest) =
    if p == execution_decision && requests_retrieval_retry e.budget c
    then (
      record c {
        metadata = record (c.metadata) {
          retrieval_retry_count = c.metadata.retrieval_retry_count + 1;
        };
      },
      retry_route ++ rest,
    )
    else (c, rest)

abbrev pub correct_with : Engine → WorkflowPhase → Work → Option ReflectionAdvice → Work
correct_with e p (c, rest) none = (c, rest)
correct_with e p (c, rest) (some a) =
    let (c', stages) = correction_phases e.budget c a p in (c', stages ++ rest)

unfoldable pub apply_advice : Engine → WorkflowPhase → Work → Work
apply_advice e p w = correct_with e p w (phase_advice w.0 p)

unfoldable pub close_attempts : WorkflowPhase → Work → Work
close_attempts p (c, rest) =
    if p == output_validation || p == output then (complete c, rest) else (c, rest)

abbrev pub completed_phase : WorkflowPhase → ExecutionContext → ExecutionContext
completed_phase p c = publish phase_completed (some p) empty (with_state (mark_phase_complete p) c)

-- The rest of the loop's body, once the phase has run.
unfoldable pub after_phase : Engine → WorkflowPhase → ExecutionContext → List WorkflowPhase → Work
after_phase e p c rest =
    close_attempts p
      (apply_advice e p (gate_retry e p (count_generation p (completed_phase p c), rest)))

abbrev pub start_phase : WorkflowPhase → ExecutionContext → ExecutionContext
start_phase p c =
    publish phase_started (some p) empty (with_state (λ w. record w { current_phase = p }) c)

-- One round of the loop.
pub data Round : Type 0 where
  onward : ExecutionContext → List WorkflowPhase → Round
  halt_cancelled : ExecutionContext → Round
  halt_failed : Text → ExecutionContext → Round

abbrev pub end_phase : Engine → WorkflowPhase → List WorkflowPhase → PhaseEnd → Round
end_phase e p rest (finished c) = let (c', rest') = after_phase e p c rest in onward c' rest'
end_phase e p rest (crashed x c) = halt_failed x c
end_phase e p rest (stopped c) = halt_cancelled c

unfoldable pub run_round : Engine → WorkflowPhase → ExecutionContext → List WorkflowPhase → Round
run_round e p c rest =
    if skip_phase c p
    then onward c rest
    else if c.cancellation_requested
    then halt_cancelled c
    else end_phase e p rest (execute_phase e.max_retries e p (start_phase p c))

-- The loop over the remaining phases, on fuel.
unfoldable pub run_phases : ℕ → Engine → ExecutionContext → List WorkflowPhase → Option Round
run_phases fuel e c [] = some (onward c [])
run_phases zero e c (p ∷ rest) = none
run_phases (suc fuel) e c (p ∷ rest) = elim (run_round e p c rest) [
  | onward c' rest' ↦ run_phases fuel e c' rest'
  | halt_cancelled c' ↦ some (halt_cancelled c')
  | halt_failed x c' ↦ some (halt_failed x c')
]

-- The `else`, `except` and `finally` of `execute`.
abbrev pub conclude : Round → ExecutionContext
conclude (onward c rest) = publish workflow_completed none empty (set_status completed c)
conclude (halt_cancelled c) =
    publish workflow_cancelled (some c.workflow_state.current_phase) empty (set_status cancelled c)
conclude (halt_failed x c) =
    let c' = with_state (λ w. record w { errors = w.errors ++ (x ∷ []) }) (set_status failed c) in
    publish workflow_failed (some c.workflow_state.current_phase) (error x) c'

-- `TaskRouter.route`: a route that is missing or empty is refused.
abbrev pub route : Option (List WorkflowPhase) → Option (List WorkflowPhase)
route none = none
route (some []) = none
route (some (p ∷ ps)) = some (p ∷ ps)

unfoldable pub run_route :
    ℕ → Engine → ExecutionContext → Option (List WorkflowPhase) → Option Round
run_route fuel e c none =
    some (halt_failed (codes "Workflow execution requires a trusted canonical route plan.") c)
run_route fuel e c (some phases) = run_phases fuel e c phases

abbrev pub started : ExecutionContext → ExecutionContext
started c = publish workflow_started none empty (set_status running c)

-- `OrchestrationEngine.execute`: the context at the end, none where the fuel ran out.
unfoldable pub execute : ℕ → Engine → ExecutionContext → Option ExecutionContext
execute fuel e c = elim (run_route fuel e (started c) (route c.metadata.route)) [
  | none ↦ none
  | some r ↦ some (conclude r)
]
