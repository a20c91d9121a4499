-- ===== src/Runtime/Routes.antt =====
-- runtime/route_profiles.py: the route of each task kind and profile. A phase of a route stands for
-- its name.
pub mod Order
pub mod Skipped
pub mod Executed
use prima_next.Base.{
  ◌≡◌, Bool, true, false, not, ◌⊎◌, inl, inr, Option, none, some, List, [], ◌∷◌, ◌++◌, elem,
  filter_by, map, is_none, minus,
}
use prima_next.Base.Text.{Text, codes}
use prima_next.Llm.Provider.{join_names}
use prima_next.Runtime.Contracts.{
  TaskKind, ExecutionProfile, RuntimeComponent, conversation, historical_replay, factual_qa,
  document_ingestion, emotion_classification, tool_request, model_only, simple_rag, prima_full,
  affect_only, ingestion_only, all_profiles, all_components, component_eq, task_value,
  profile_value, input_parser, task_scheduler, state_manager, policy_router, execution_dispatcher,
  persistent_state, affect_engine, query_rewriter, dense_retrieval, sparse_retrieval,
  temporal_retrieval, graph_traversal, graph_reasoning, fusion, reranker, confidence_estimator,
  context_compressor, planner, world_model, uncertainty_estimator, reflection_component,
  model_executor, tool_executor, output_validator, output_shaper, state_committer, memory_index,
  memory_committer, document_encoder, emotion_classifier, maintenance_events,
}
use prima_next.Workflow.Phase.{
  WorkflowPhase, phase_eq, state_load, affect, evidence_acquisition, planning, world_simulation,
  uncertainty_estimation, execution_decision, reflection, action, answer_generation,
  output_validation, document_ingestion, output, state_commit, memory_commit, maintenance_enqueue,
}

pub record RoutePlan : Type 0 where
  pub task_kind : TaskKind
  pub profile : ExecutionProfile
  pub components : List RuntimeComponent
  pub phases : List WorkflowPhase

-- `RoutePlan.name`
unfoldable pub name : RoutePlan → Text
name p = task_value p.task_kind ++ (codes ":" ++ profile_value p.profile)

-- `RoutePlan.skipped_components`
unfoldable pub skipped_components : RoutePlan → List RuntimeComponent
skipped_components p = filter_by (λ c. not (elem c p.components)) all_components

abbrev pub control : List RuntimeComponent
control =
    input_parser ∷ task_scheduler ∷ state_manager ∷ policy_router ∷ execution_dispatcher
    ∷ persistent_state ∷ []

-- `SIMPLE_RETRIEVAL[4:]` and `SIMPLE_RETRIEVAL[:4]`
abbrev pub ranking : List RuntimeComponent
ranking = fusion ∷ reranker ∷ confidence_estimator ∷ context_compressor ∷ []

abbrev pub lookup_components : List RuntimeComponent
lookup_components = query_rewriter ∷ memory_index ∷ dense_retrieval ∷ sparse_retrieval ∷ []

abbrev pub simple_retrieval : List RuntimeComponent
simple_retrieval = lookup_components ++ ranking

abbrev pub full_retrieval : List RuntimeComponent
full_retrieval =
    lookup_components ++ (temporal_retrieval ∷ graph_traversal ∷ graph_reasoning ∷ ranking)

abbrev pub commit : List RuntimeComponent
commit =
    output_validator ∷ output_shaper ∷ state_committer ∷ memory_committer ∷ maintenance_events ∷ []

abbrev pub model_only_components : List RuntimeComponent
model_only_components = control ++ (model_executor ∷ commit)

abbrev pub simple_rag_components : List RuntimeComponent
simple_rag_components = control ++ (simple_retrieval ++ (model_executor ∷ commit))

abbrev pub deliberation : List RuntimeComponent
deliberation = planner ∷ world_model ∷ uncertainty_estimator ∷ reflection_component ∷ []

abbrev pub prima_full_components : List RuntimeComponent
prima_full_components =
    control ++ (affect_engine ∷ (full_retrieval ++ (deliberation ++ (model_executor ∷ commit))))

abbrev pub ingestion_components : List RuntimeComponent
ingestion_components =
    control
    ++ (document_encoder ∷ memory_index ∷ memory_committer ∷ state_committer ∷ maintenance_events
        ∷ output_shaper ∷ [])

abbrev pub affect_components : List RuntimeComponent
affect_components =
    control ++ (emotion_classifier ∷ affect_engine ∷ state_committer ∷ output_shaper ∷ [])

abbrev pub replay_components : List RuntimeComponent
replay_components =
    control
    ++ (affect_engine ∷ memory_index ∷ output_shaper ∷ state_committer ∷ memory_committer
        ∷ maintenance_events ∷ [])

abbrev pub tool_components : List RuntimeComponent
tool_components =
    control ++ (affect_engine ∷ (full_retrieval ++ (deliberation ++ (tool_executor ∷ commit))))

abbrev pub model_only_phases : List WorkflowPhase
model_only_phases =
    state_load ∷ answer_generation ∷ output_validation ∷ output ∷ state_commit ∷ memory_commit
    ∷ maintenance_enqueue ∷ []

-- `tuple(phase for phase in phases if phase != dropped)`
abbrev pub without : WorkflowPhase → List WorkflowPhase → List WorkflowPhase
without dropped phases = minus phases (dropped ∷ [])

abbrev pub simple_rag_phases : List WorkflowPhase
simple_rag_phases =
    state_load ∷ evidence_acquisition ∷ answer_generation ∷ output_validation ∷ output
    ∷ state_commit ∷ memory_commit ∷ maintenance_enqueue ∷ []

abbrev pub prima_full_phases : List WorkflowPhase
prima_full_phases =
    state_load ∷ affect ∷ evidence_acquisition ∷ planning ∷ world_simulation
    ∷ uncertainty_estimation ∷ execution_decision ∷ reflection ∷ action ∷ answer_generation
    ∷ output_validation ∷ output ∷ state_commit ∷ memory_commit ∷ maintenance_enqueue ∷ []

abbrev pub ingestion_phases : List WorkflowPhase
ingestion_phases =
    state_load ∷ document_ingestion ∷ output ∷ state_commit ∷ maintenance_enqueue ∷ []

abbrev pub affect_phases : List WorkflowPhase
affect_phases = state_load ∷ affect ∷ output ∷ state_commit ∷ []

abbrev pub replay_phases : List WorkflowPhase
replay_phases =
    state_load ∷ affect ∷ output ∷ state_commit ∷ memory_commit ∷ maintenance_enqueue ∷ []

abbrev pub tool_phases : List WorkflowPhase
tool_phases = without answer_generation prima_full_phases

abbrev pub plan :
    TaskKind → ExecutionProfile → List RuntimeComponent → List WorkflowPhase → Option RoutePlan
plan t p cs ps = some (record { task_kind = t; profile = p; components = cs; phases = ps })

-- `_ROUTES.get((task_kind, profile))`
unfoldable pub route_matrix : TaskKind → ExecutionProfile → Option RoutePlan
route_matrix conversation model_only =
    plan conversation model_only model_only_components model_only_phases
route_matrix conversation simple_rag =
    plan conversation simple_rag simple_rag_components simple_rag_phases
route_matrix conversation prima_full =
    plan conversation prima_full prima_full_components prima_full_phases
route_matrix historical_replay prima_full =
    plan historical_replay prima_full replay_components replay_phases
route_matrix factual_qa model_only =
    plan factual_qa model_only model_only_components (without memory_commit model_only_phases)
route_matrix factual_qa simple_rag =
    plan factual_qa simple_rag simple_rag_components (without memory_commit simple_rag_phases)
route_matrix factual_qa prima_full =
    plan factual_qa prima_full prima_full_components (without memory_commit prima_full_phases)
route_matrix document_ingestion ingestion_only =
    plan document_ingestion ingestion_only ingestion_components ingestion_phases
route_matrix emotion_classification affect_only =
    plan emotion_classification affect_only affect_components affect_phases
route_matrix tool_request prima_full = plan tool_request prima_full tool_components tool_phases
route_matrix t p = none

-- The profiles that a task kind has a route for.
unfoldable pub allowed : TaskKind → List ExecutionProfile
unfolding route_matrix
allowed t = filter_by (λ p. not (is_none (route_matrix t p))) all_profiles

-- `select_route`: the plan, or the text of the `InvalidRouteError`.
unfoldable pub select_route : TaskKind → ExecutionProfile → Text ⊎ RoutePlan
unfolding route_matrix allowed
select_route t p = elim (route_matrix t p) [
  | none ↦ inl (
      codes "Execution profile '"
      ++ (profile_value p
          ++ (codes "' is invalid for task '"
              ++ (task_value t
                  ++ (codes "'; allowed profiles: "
                      ++ (join_names (map profile_value (allowed t)) ++ codes "."))))))
  | some r ↦ inr r
]
