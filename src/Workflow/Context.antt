-- ===== src/Workflow/Context.antt =====
-- workflow/execution_context.py and workflow/workflow_state.py: the mutable record of one request.
-- An object that the workflow only stores is the text that stands for it. The metadata keys that
-- the engine and the correction loop read or write are fields, with their default where unset.
use prima_next.Base.{ℕ, ◌+◌, Bool, true, Option, List, [], ◌∷◌, ◌++◌, elem, get_or, if◌then◌else◌}
use prima_next.Base.Dict.{Dict, lookup, insert}
use prima_next.Base.Int.{ℤ}
use prima_next.Base.Text.{Text}
use prima_next.Llm.{FallbackPolicy, GenerationConfig}
use prima_next.Reasoning.{SufficiencyStatus, EvidenceItem}
use prima_next.State.{CognitiveState}
use prima_next.Workflow.Advice.{ReflectionAction, ReflectionAdvice, Score}
use prima_next.Workflow.Phase.{WorkflowPhase, WorkflowStatus, input, pending, phase_eq}

abbrev pub Object : Type 0
Object = Text

pub data ExecutionDecision : Type 0 where
  continue reflect retry_retrieval ask_for_clarification abstain : ExecutionDecision

pub data GenerationOutcome : Type 0 where
  answered abstained failed : GenerationOutcome

-- An absent text is the empty one. Latency, usage and capabilities are diagnostics and left out.
pub record GenerationResult : Type 0 where
  pub outcome : GenerationOutcome
  pub text : Text
  pub selected_source_ids : List Text
  pub errors : List Text
  pub provider : Text
  pub model : Text
  pub llm_called : Bool
  pub fallback_policy : FallbackPolicy
  pub fallback_used : Bool
  pub fallback_reason : Option Text

-- The fields of `reasoning.models.AnswerResult` that the workflow reads.
pub record AnswerResult : Type 0 where
  pub status : SufficiencyStatus
  pub confidence : Score
  pub evidence_references : List EvidenceItem
  pub errors : List Text

-- What a phase controller returns, by the attributes that the engine looks for.
pub data PhaseResult : Type 0 where
  -- a `CognitiveState`
  loaded_state : CognitiveState → PhaseResult
  -- an object with `answer_result` and `latest_retrieval`
  evidence : Option AnswerResult → Object → PhaseResult
  -- an object with a `confidence`
  estimate : Score → PhaseResult
  -- an `ExecutionGateResult`: its decision and its threshold `max_retrieval_retries`
  gate : ExecutionDecision → ℕ → PhaseResult
  -- an object with an `advice` attribute
  advised : Option ReflectionAdvice → PhaseResult
  generated : GenerationResult → PhaseResult
  -- the dictionary of an action result: its `status` and the text of the whole
  acted : Text → Text → PhaseResult
  -- a dictionary with the keys `state` and `committed`
  committed_state : CognitiveState → Bool → PhaseResult
  -- a dictionary with the keys `notes` and `admission`
  committed_memory : List Object → Option Object → PhaseResult
  -- a dictionary with the keys `outcome` and `text`
  shaped : Text → Option Text → PhaseResult
  -- the result of an ingestion, with its `memory_id`
  ingested : Text → PhaseResult
  -- any other dictionary
  mapping : Object → PhaseResult
  other : Object → PhaseResult

-- The object that a result is, for a snapshot of it.
abbrev pub plan_object : PhaseResult → Object
plan_object (other o) = o
plan_object (mapping o) = o
plan_object _ = []

pub record WorkflowState : Type 0 where
  pub status : WorkflowStatus
  pub current_phase : WorkflowPhase
  pub completed_phases : List WorkflowPhase
  pub retry_counts : Dict WorkflowPhase ℕ
  pub errors : List Text
  pub outputs : Dict WorkflowPhase PhaseResult

-- Record a completed phase without duplicating entries.
unfoldable pub mark_phase_complete : WorkflowPhase → WorkflowState → WorkflowState
mark_phase_complete p w =
    if elem p w.completed_phases
    then w
    else record w { completed_phases = w.completed_phases ++ (p ∷ []) }

-- The retry count of a phase, incremented and returned.
unfoldable pub increment_retry : WorkflowPhase → WorkflowState → WorkflowState × ℕ
increment_retry p w =
    let count = get_or (lookup p w.retry_counts) 0 + 1 in
    (record w { retry_counts = insert p count w.retry_counts }, count)

pub record Metadata : Type 0 where
  -- none where the route is missing or is no tuple
  pub route : Option (List WorkflowPhase)
  pub profile : Text
  pub task_kind : Text
  pub generation_config : Option GenerationConfig
  pub generation_count : ℕ
  pub model_call_count : ℕ
  pub retrieval_retry_count : ℕ
  pub reflection_intervention_count : ℕ
  pub correction_retrieval_retries : ℕ
  pub correction_replans : ℕ
  pub correction_signatures : List (ReflectionAction × Text)
  pub correction_queries : List Text
  pub retrieval_query_override : Option Text
  pub replan_reason : Option Text
  pub correction_terminal_action : Option ReflectionAction
  pub state_committed : Option Bool

-- Why advice was turned down.
pub data Reason : Type 0 where
  no_intervention evaluation_leakage low_advice_confidence duplicate_advice : Reason
  reflection_budget_exhausted missing_query retrieval_budget_exhausted : Reason
  replan_budget_exhausted generation_budget_exhausted : Reason

pub data Stage : Type 0 where
  pre_execution post_execution : Stage

pub record CorrectionAttempt : Type 0 where
  pub attempt_index : ℕ
  pub stage : Stage
  pub advice : ReflectionAdvice
  pub accepted : Bool
  -- none is the text "accepted"
  pub decision_reason : Option Reason
  pub before_query : Text
  pub after_query : Text
  pub before_plan : Option Object
  pub after_plan : Option Object
  pub before_answer : Text
  pub after_answer : Text
  pub before_confidence : Score
  pub after_confidence : Score
  pub confidence_delta : ℤ
  pub utility : Score

pub data WorkflowEventType : Type 0 where
  workflow_started phase_started phase_completed phase_retry phase_failed : WorkflowEventType
  workflow_completed workflow_cancelled workflow_failed : WorkflowEventType

-- The payload of an event: nothing, an error, or an error with the phase's retry count.
pub data Payload : Type 0 where
  empty : Payload
  error : Text → Payload
  retry_error : Text → ℕ → Payload

pub record WorkflowEvent : Type 0 where
  pub event_type : WorkflowEventType
  pub status : WorkflowStatus
  pub phase : Option WorkflowPhase
  pub payload : Payload

pub record ExecutionContext : Type 0 where
  pub user_input : Text
  pub cognitive_state : CognitiveState
  pub workflow_state : WorkflowState
  pub affect_update : Option PhaseResult
  pub retrieval_response : Option PhaseResult
  pub reasoning_result : Option AnswerResult
  pub plan : Option PhaseResult
  pub world_prediction : Option PhaseResult
  pub uncertainty : Option PhaseResult
  pub execution_decision : Option PhaseResult
  pub reflection_result : Option PhaseResult
  pub action_result : Option PhaseResult
  pub generation_result : Option PhaseResult
  pub output_validation : Option PhaseResult
  pub ingestion_result : Option PhaseResult
  pub memory_notes_created : List Object
  pub memory_admission : Option Object
  pub maintenance_result : Option PhaseResult
  pub correction_attempts : List CorrectionAttempt
  pub output : Option PhaseResult
  pub metadata : Metadata
  pub cancellation_requested : Bool
  -- the workflow events published so far, and the controller calls made so far
  pub events : List WorkflowEvent
  pub calls : ℕ

unfoldable pub request_cancel : ExecutionContext → ExecutionContext
request_cancel c = record c { cancellation_requested = true }

abbrev pub new_state : WorkflowState
new_state = record {
  status = pending;
  current_phase = input;
  completed_phases = [];
  retry_counts = [];
  errors = [];
  outputs = [];
}

-- A change of the workflow state alone.
abbrev pub with_state : (WorkflowState → WorkflowState) → ExecutionContext → ExecutionContext
with_state f c = record c { workflow_state = f c.workflow_state }
