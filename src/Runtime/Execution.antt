-- ===== src/Runtime/Execution.antt =====
-- `PrimaRuntime.execute` (runtime/prima_runtime.py) with the request and the response of
-- runtime/contracts.py: the route, the workflow run on it, and the status of the response.
-- Diagnostics, evidence and output data beside the text are left out.
pub mod Responses
use prima_next.Base.{
  ℕ, Bool, true, false, not, ◌==◌, Option, none, some, List, [], ◌∷◌, ◌++◌, inl, inr, ◌⊎◌, is_empty,
  elem, fresh_keys, filter_by, get_or, if◌then◌else◌,
}
use prima_next.Base.Text.{Text, codes, text_eq, strip}
use prima_next.Llm.{GenerationConfig, json_schema}
use prima_next.State.{CognitiveState}
use prima_next.Runtime.Contracts.{
  TaskKind, ExecutionProfile, factual_qa, task_value, profile_value, task_eq,
}
use prima_next.Runtime.Routes.{RoutePlan, select_route}
use prima_next.Workflow.Context.{
  ExecutionContext, Metadata, PhaseResult, generated, shaped, new_state,
}
use prima_next.Workflow.Engine.{Engine}
use prima_next.Workflow.Engine
use prima_next.Workflow.Phase.{WorkflowStatus}
use prima_next.Workflow.Phase

pub data ExecutionStatus : Type 0 where
  completed not_implemented rejected failed cancelled : ExecutionStatus

pub data ExecutionOutcome : Type 0 where
  answered abstained failed_outcome ingested classified actioned : ExecutionOutcome
  cancelled_outcome : ExecutionOutcome

pub record PrimaRequest : Type 0 where
  pub request_id : Text
  pub task_kind : TaskKind
  pub profile : ExecutionProfile
  pub input_text : Text
  pub generation_config : Option GenerationConfig
  pub metadata_keys : List Text
  -- what the caller's metadata give for the keys that the workflow reads, or else their defaults;
  -- counts below zero are left out
  pub metadata : Metadata

-- `_INTERNAL_CONTROL_KEYS`
abbrev pub internal_control_keys : List Text
internal_control_keys =
    codes "route"
    ∷ codes "task_kind"
    ∷ codes "profile"
    ∷ codes "generation_config"
    ∷ codes "execution_policy"
    ∷ codes "top_k"
    ∷ codes "reasoning_mode"
    ∷ codes "max_hops"
    ∷ codes "max_retrieval_calls"
    ∷ codes "max_context_tokens"
    ∷ codes "context_compression_enabled"
    ∷ codes "required_reranker_backend"
    ∷ codes "retrieval_query_override"
    ∷ codes "correction_budget"
    ∷ codes "tool_results"
    ∷ []

-- The validators of a request.
unfoldable pub is_acceptable : PrimaRequest → Bool
is_acceptable q =
    if is_empty (strip q.input_text)
    then false
    else is_empty (filter_by (λ k. elem k internal_control_keys) q.metadata_keys)

pub record PrimaResponse : Type 0 where
  pub request_id : Text
  pub task_kind : TaskKind
  pub profile : ExecutionProfile
  pub status : ExecutionStatus
  pub outcome : ExecutionOutcome
  pub output_text : Option Text
  pub errors : List Text

-- `ExecutionOutcome(value)`; none is its `ValueError`.
abbrev pub outcome_named : Text → Option ExecutionOutcome
outcome_named v =
    if v == codes "answered"
    then some answered
    else if v == codes "abstained"
    then some abstained
    else if v == codes "failed"
    then some failed_outcome
    else if v == codes "ingested"
    then some ingested
    else if v == codes "classified"
    then some classified
    else if v == codes "actioned"
    then some actioned
    else if v == codes "cancelled"
    then some cancelled_outcome
    else none

abbrev pub output_value : Option PhaseResult → Text
output_value (some (shaped o t)) = o
output_value _ = codes "failed"

abbrev pub text_of : Option PhaseResult → Option Text
text_of (some (shaped o t)) = t
text_of _ = none

abbrev pub generation_errors : Option PhaseResult → List Text
generation_errors (some (generated g)) = g.errors
generation_errors _ = []

abbrev pub status_of : ExecutionOutcome → ExecutionStatus
status_of failed_outcome = failed
status_of _ = completed

-- The status and the outcome, by the status of the workflow.
unfoldable pub concluded : WorkflowStatus → Option PhaseResult → ExecutionStatus × ExecutionOutcome
concluded Phase.cancelled r = (cancelled, cancelled_outcome)
concluded Phase.failed r = (failed, failed_outcome)
concluded _ r = let o = get_or (outcome_named (output_value r)) failed_outcome in (status_of o, o)

-- `_response_from_execution`
unfoldable pub response_of : PrimaRequest → ExecutionContext → PrimaResponse
unfolding concluded
response_of q c =
    let (s, o) = concluded c.workflow_state.status c.output in
    record {
      request_id = q.request_id;
      task_kind = q.task_kind;
      profile = q.profile;
      status = s;
      outcome = o;
      output_text = text_of c.output;
      errors = fresh_keys [] (c.workflow_state.errors ++ generation_errors c.generation_result);
    }

-- The response to a request that has no route.
abbrev pub rejection : PrimaRequest → Text → PrimaResponse
rejection q e = record {
  request_id = q.request_id;
  task_kind = q.task_kind;
  profile = q.profile;
  status = rejected;
  outcome = failed_outcome;
  output_text = none;
  errors = e ∷ [];
}

-- The configuration of a factual question asks for a JSON schema.
abbrev pub generation_for : TaskKind → GenerationConfig → GenerationConfig
generation_for t g = if t == factual_qa then record g { structured_output = json_schema } else g

-- The metadata and the context that `execute` makes for a route.
unfoldable pub request_metadata : PrimaRequest → GenerationConfig → RoutePlan → Metadata
request_metadata q default r = record (q.metadata) {
  route = some r.phases;
  profile = profile_value q.profile;
  task_kind = task_value q.task_kind;
  generation_config = some (generation_for q.task_kind (get_or q.generation_config default));
}

unfoldable pub request_context :
    PrimaRequest → GenerationConfig → CognitiveState → RoutePlan → ExecutionContext
unfolding request_metadata
request_context q default blank r = record {
  user_input = q.input_text;
  cognitive_state = blank;
  workflow_state = new_state;
  affect_update = none;
  retrieval_response = none;
  reasoning_result = none;
  plan = none;
  world_prediction = none;
  uncertainty = none;
  execution_decision = none;
  reflection_result = none;
  action_result = none;
  generation_result = none;
  output_validation = none;
  ingestion_result = none;
  memory_notes_created = [];
  memory_admission = none;
  maintenance_result = none;
  correction_attempts = [];
  output = none;
  metadata = request_metadata q default r;
  cancellation_requested = false;
  events = [];
  calls = 0;
}

abbrev pub run_selected :
    ℕ
    → Engine
    → PrimaRequest
    → GenerationConfig
    → CognitiveState
    → Text ⊎ RoutePlan
    → Option PrimaResponse
run_selected fuel e q default blank (inl x) = some (rejection q x)
run_selected fuel e q default blank (inr r) =
    elim (Engine.execute fuel e (request_context q default blank r)) [
      | none ↦ none
      | some c ↦ some (response_of q c)
    ]

-- `execute`, with the engine of the workflow: none where the fuel ran out.
unfoldable pub respond :
    ℕ → Engine → PrimaRequest → GenerationConfig → CognitiveState → Option PrimaResponse
respond fuel e q default blank =
    run_selected fuel e q default blank (select_route q.task_kind q.profile)
