-- ===== src/Runtime/Routes/Executed.antt =====
-- `_executed_components` of runtime/prima_runtime.py: the components that one request has run.
pub mod Coverage
pub mod Planned
use prima_next.Base.{
  ℕ, Bool, true, false, not, ◌&&◌, ◌||◌, ◌==◌, Option, none, some, List, [], ◌∷◌, ◌++◌, elem,
  filter_by, ltb, if◌then◌else◌, get_or,
}
use prima_next.Base.Text.{Text, codes, text_eq}
use prima_next.Runtime.Contracts.{
  RuntimeComponent, component_eq, all_components, input_parser, task_scheduler, policy_router,
  execution_dispatcher, state_manager, persistent_state, emotion_classifier, affect_engine,
  query_rewriter, memory_index, fusion, confidence_estimator, reranker, dense_retrieval,
  sparse_retrieval, temporal_retrieval, graph_traversal, graph_reasoning, context_compressor,
  planner, world_model, uncertainty_estimator, reflection_component, tool_executor, model_executor,
  output_validator, document_encoder, memory_committer, output_shaper, maintenance_events,
  state_committer,
}
use prima_next.Workflow.Context.{PhaseResult, generated, ExecutionContext}
use prima_next.Workflow.Phase.{
  WorkflowPhase, phase_eq, state_load, affect, memory_retrieval, evidence_acquisition, planning,
  world_simulation, uncertainty_estimation, reflection, action, answer_generation,
  output_validation, document_ingestion, output, memory_commit, maintenance_enqueue, state_commit,
}

-- What the results of a run say besides: the strategies and the reranker that retrieval reports,
-- whether a context was compressed, and how many maintenance events were queued.
pub record RunReport : Type 0 where
  pub executed_strategies : List Text
  pub reranker_active : Bool
  pub graph_reasoning_invoked : Bool
  pub context_compressed : Bool
  pub queued_count : ℕ

-- `if condition: executed.update(components)`
abbrev pub when : Bool → List RuntimeComponent → List RuntimeComponent
when true cs = cs
when false cs = []

-- `bool(getattr(context.generation_result, "llm_called", False))`
abbrev pub llm_was_called : Option PhaseResult → Bool
llm_was_called (some (generated g)) = g.llm_called
llm_was_called _ = false

abbrev pub has_task : Text → ExecutionContext → Bool
has_task t c = c.metadata.task_kind == t

abbrev pub completed_phase : WorkflowPhase → ExecutionContext → Bool
completed_phase p c = elem p c.workflow_state.completed_phases

-- Whether evidence or memory was retrieved.
abbrev pub has_retrieved : ExecutionContext → Bool
has_retrieved c = completed_phase evidence_acquisition c || completed_phase memory_retrieval c

-- Whether the retriever has run a strategy.
abbrev pub has_run : Text → RunReport → Bool
has_run s f = elem s f.executed_strategies

abbrev pub always : List RuntimeComponent
always = input_parser ∷ task_scheduler ∷ policy_router ∷ execution_dispatcher ∷ []

-- The updates of the set, in the order of the source.
unfoldable pub updates : RunReport → ExecutionContext → List (List RuntimeComponent)
updates f c =
    always
    ∷ when (completed_phase state_load c) (state_manager ∷ persistent_state ∷ [])
    ∷ when (completed_phase affect c) (emotion_classifier ∷ affect_engine ∷ [])
    ∷ when (has_retrieved c) (query_rewriter ∷ memory_index ∷ fusion ∷ confidence_estimator ∷ [])
    ∷ when (has_retrieved c) (when f.reranker_active (reranker ∷ []))
    ∷ when (has_retrieved c) (when (has_run (codes "dense") f) (dense_retrieval ∷ []))
    ∷ when (has_retrieved c) (when (has_run (codes "sparse") f) (sparse_retrieval ∷ []))
    ∷ when (has_retrieved c) (when (has_run (codes "temporal") f) (temporal_retrieval ∷ []))
    ∷ when (has_retrieved c) (when (has_run (codes "graph") f) (graph_traversal ∷ []))
    ∷ when (has_retrieved c) (when f.graph_reasoning_invoked (graph_reasoning ∷ []))
    ∷ when (completed_phase evidence_acquisition c && f.context_compressed)
        (context_compressor ∷ [])
    ∷ when (completed_phase planning c) (planner ∷ [])
    ∷ when (completed_phase world_simulation c) (world_model ∷ [])
    ∷ when (completed_phase uncertainty_estimation c) (uncertainty_estimator ∷ [])
    ∷ when (completed_phase reflection c) (reflection_component ∷ [])
    ∷ when (completed_phase action c && has_task (codes "tool_request") c) (tool_executor ∷ [])
    ∷ when (completed_phase answer_generation c && llm_was_called c.generation_result)
        (model_executor ∷ [])
    ∷ when (completed_phase output_validation c) (output_validator ∷ [])
    ∷ when (completed_phase document_ingestion c)
        (document_encoder ∷ memory_index ∷ memory_committer ∷ [])
    ∷ when (completed_phase output c) (output_shaper ∷ [])
    ∷ when (completed_phase memory_commit c) (memory_committer ∷ [])
    ∷ when (completed_phase memory_commit c && has_task (codes "historical_replay") c)
        (memory_index ∷ [])
    ∷ when (completed_phase maintenance_enqueue c && ltb 0 f.queued_count) (maintenance_events ∷ [])
    ∷ when (completed_phase state_commit c && get_or c.metadata.state_committed false)
        (state_committer ∷ [])
    ∷ []

abbrev pub is_updated : List (List RuntimeComponent) → RuntimeComponent → Bool
is_updated [] c = false
is_updated (u ∷ us) c = elem c u || is_updated us c

unfoldable pub executed_components : RunReport → ExecutionContext → List RuntimeComponent
unfolding updates
executed_components f c = filter_by (is_updated (updates f c)) all_components
