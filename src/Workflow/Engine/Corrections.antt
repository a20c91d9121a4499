-- ===== src/Workflow/Engine/Corrections.antt =====
-- The decisions of workflow/orchestration_engine.py: what is skipped, which phases a gate retry or
-- accepted advice puts before the rest of the route.
use prima_next.Base.{
  ℕ, min, Bool, true, false, not, ◌&&◌, ◌||◌, Option, none, some, List, [], ◌∷◌, ◌++◌, ◌==◌, ltb,
  is_none, is_empty, if◌then◌else◌,
}
use prima_next.Base.Text.{Text, codes, text_eq}
use prima_next.Workflow.Advice.{
  ReflectionAction, ReflectionAdvice, revise_query, broaden_query, pivot_entity, replan,
  retry_transient_failure, regenerate, ask_user, no_action,
}
use prima_next.Workflow.Context.{
  PhaseResult, ExecutionDecision, reflect, retry_retrieval, ask_for_clarification, gate, advised,
  Stage, pre_execution, post_execution, ExecutionContext, Metadata,
}
use prima_next.Workflow.Correction.{CorrectionBudget, review}
use prima_next.Workflow.Phase.{
  WorkflowPhase, evidence_acquisition, planning, world_simulation, uncertainty_estimation,
  execution_decision, reflection, action, answer_generation, output_validation,
}

-- `getattr(context.execution_decision, "decision", None)`
abbrev pub decision_of : Option PhaseResult → Option ExecutionDecision
decision_of (some (gate d n)) = some d
decision_of _ = none

abbrev pub gate_retries : Option PhaseResult → ℕ
gate_retries (some (gate d n)) = n
gate_retries _ = 0

abbrev pub is_retry : Option ExecutionDecision → Bool
is_retry (some retry_retrieval) = true
is_retry _ = false

abbrev pub is_reflect : Option ExecutionDecision → Bool
is_reflect (some reflect) = true
is_reflect _ = false

-- The decisions at which nothing is acted on and no answer is generated.
abbrev pub is_blocking : Option ExecutionDecision → Bool
is_blocking (some ask_for_clarification) = true
is_blocking (some ExecutionDecision.abstain) = true
is_blocking (some retry_retrieval) = true
is_blocking _ = false

abbrev pub is_terminal : Option ReflectionAction → Bool
is_terminal (some ask_user) = true
is_terminal (some ReflectionAction.abstain) = true
is_terminal _ = false

unfoldable pub requests_retrieval_retry : CorrectionBudget → ExecutionContext → Bool
requests_retrieval_retry b c =
    is_retry (decision_of c.execution_decision)
    && ltb c.metadata.retrieval_retry_count
        (min (gate_retries c.execution_decision) b.max_retrieval_retries)

unfoldable pub skip_phase : ExecutionContext → WorkflowPhase → Bool
skip_phase c reflection =
    not (is_none c.execution_decision) && not (is_reflect (decision_of c.execution_decision))
skip_phase c action =
    is_terminal c.metadata.correction_terminal_action
    || is_blocking (decision_of c.execution_decision)
skip_phase c answer_generation =
    is_terminal c.metadata.correction_terminal_action
    || is_blocking (decision_of c.execution_decision)
skip_phase c _ = false

abbrev pub advice_of : Option PhaseResult → Option ReflectionAdvice
advice_of (some (advised a)) = a
advice_of _ = none

unfoldable pub phase_advice : ExecutionContext → WorkflowPhase → Option ReflectionAdvice
phase_advice c reflection = advice_of c.reflection_result
phase_advice c output_validation = advice_of c.output_validation
phase_advice c _ = none

-- What `execute` puts before the rest of the route for a gate retry.
abbrev pub retry_route : List WorkflowPhase
retry_route =
    evidence_acquisition ∷ planning ∷ world_simulation ∷ uncertainty_estimation ∷ execution_decision
    ∷ []

abbrev pub stage_of : WorkflowPhase → Stage
stage_of output_validation = post_execution
stage_of _ = pre_execution

unfoldable pub execution_tail : ExecutionContext → List WorkflowPhase
execution_tail c =
    if c.metadata.task_kind == codes "tool_request"
    then action ∷ output_validation ∷ []
    else action ∷ answer_generation ∷ output_validation ∷ []

abbrev pub tail_after : Stage → ExecutionContext → List WorkflowPhase
tail_after pre_execution c = []
tail_after post_execution c = execution_tail c

unfoldable pub query_correction_route : ExecutionContext → Stage → List WorkflowPhase
query_correction_route c stage =
    if not (c.metadata.profile == codes "prima_full")
    then evidence_acquisition ∷ answer_generation ∷ output_validation ∷ []
    else (evidence_acquisition ∷ planning ∷ world_simulation ∷ uncertainty_estimation
        ∷ execution_decision ∷ reflection ∷ [])
      ++ tail_after stage c

unfoldable pub replan_route : ExecutionContext → Stage → List WorkflowPhase
replan_route c stage =
    (planning ∷ world_simulation ∷ uncertainty_estimation ∷ execution_decision ∷ reflection ∷ [])
    ++ tail_after stage c

abbrev pub set_metadata : Metadata → ExecutionContext → ExecutionContext
set_metadata m c = record c { metadata = m }

abbrev pub override_query : Text → ExecutionContext → ExecutionContext
override_query q c = set_metadata (record (c.metadata) { retrieval_query_override = some q }) c

abbrev pub requery : ExecutionContext → Stage → Text → ExecutionContext × List WorkflowPhase
requery c stage q = (override_query q c, query_correction_route c stage)

abbrev pub terminal : ReflectionAction → ExecutionContext → ExecutionContext × List WorkflowPhase
terminal a c = (set_metadata (record (c.metadata) { correction_terminal_action = some a }) c, [])

abbrev pub retry_transient :
    Stage → Option PhaseResult → ExecutionContext → Text → ExecutionContext × List WorkflowPhase
retry_transient post_execution (some r) c q = (c, action ∷ output_validation ∷ [])
retry_transient stage _ c q = requery c stage q

-- `advice.reason_code or advice.correction_proposal`
abbrev pub replan_text : ReflectionAdvice → Text
replan_text a = if is_empty a.reason_code then a.correction_proposal else a.reason_code

-- The phases for an accepted action.
unfoldable pub correct :
    ReflectionAction
    → ReflectionAdvice
    → Stage
    → ExecutionContext
    → Text
    → ExecutionContext × List WorkflowPhase
unfolding query_correction_route replan_route execution_tail
correct revise_query a stage c q = requery c stage q
correct broaden_query a stage c q = requery c stage q
correct pivot_entity a stage c q = requery c stage q
correct replan a stage c q = (
  set_metadata (record (c.metadata) { replan_reason = some (replan_text a) }) c,
  replan_route c stage,
)
correct regenerate a stage c q = (c, answer_generation ∷ output_validation ∷ [])
correct retry_transient_failure a stage c q = retry_transient stage c.action_result c q
correct ask_user a stage c q = terminal ask_user c
correct ReflectionAction.abstain a stage c q = terminal ReflectionAction.abstain c
correct no_action a stage c q = (c, [])

-- `_correction_phases`
unfoldable pub correction_phases :
    CorrectionBudget
    → ExecutionContext
    → ReflectionAdvice
    → WorkflowPhase
    → ExecutionContext × List WorkflowPhase
unfolding correct
correction_phases b c a p =
    let (c', attempt) = review b c a (stage_of p) in
    if attempt.accepted then correct a.action a (stage_of p) c' attempt.after_query else (c', [])
