-- ===== src/Runtime/Routes/Executed/Coverage.antt =====
-- Each phase of a route comes with the components that it runs
-- (runtime/prima_runtime.py, runtime/route_profiles.py).
use prima_next.Base.{
  ◌≡◌, refl, Bool, true, not, ◌||◌, ◌==◌, Option, none, some, List, [], ◌∷◌, All, elem, all, arith,
}
use prima_next.Base.Text.{Text, codes, text_eq}
use prima_next.Runtime.Contracts.{
  TaskKind, ExecutionProfile, task_value, RuntimeComponent, component_eq, state_manager,
  persistent_state, emotion_classifier, affect_engine, query_rewriter, memory_index, fusion,
  confidence_estimator, reranker, dense_retrieval, sparse_retrieval, temporal_retrieval,
  graph_traversal, graph_reasoning, context_compressor, planner, world_model, uncertainty_estimator,
  reflection_component, tool_executor, model_executor, output_validator, document_encoder,
  memory_committer, output_shaper, maintenance_events, state_committer, conversation,
  historical_replay, factual_qa, document_ingestion, emotion_classification, tool_request,
  model_only, simple_rag, prima_full, affect_only, ingestion_only,
}
use prima_next.Runtime.Routes.{RoutePlan, route_matrix}
use prima_next.Runtime.Routes.Executed.{always}
use prima_next.Workflow.Phase
use prima_next.Workflow.Phase.{
  WorkflowPhase, phase_eq, state_load, affect, memory_retrieval, evidence_acquisition, planning,
  world_simulation, uncertainty_estimation, reflection, action, answer_generation,
  output_validation, output, memory_commit, maintenance_enqueue, state_commit,
}

-- A component of the plan, or one that runs beside it: affect runs the emotion classifier on every
-- route, and the retriever chooses its own strategies.
abbrev pub is_expected : RoutePlan → RuntimeComponent → Bool
is_expected r c =
    elem c r.components
    || elem c (emotion_classifier ∷ temporal_retrieval ∷ graph_traversal ∷ graph_reasoning ∷ [])

-- Where the plan has the phase it has the components that the phase runs.
abbrev pub covers : RoutePlan → WorkflowPhase → List RuntimeComponent → Bool
covers r p cs = not (elem p r.phases) || all (is_expected r) cs

-- Everything that retrieval may run, and the compression of its evidence.
abbrev pub retrieval_all : List RuntimeComponent
retrieval_all =
    query_rewriter ∷ memory_index ∷ fusion ∷ confidence_estimator ∷ reranker ∷ dense_retrieval
    ∷ sparse_retrieval ∷ temporal_retrieval ∷ graph_traversal ∷ graph_reasoning ∷ context_compressor
    ∷ []

-- Whether the plan is for the task of that name.
abbrev pub is_task : Text → RoutePlan → Bool
is_task t r = task_value r.task_kind == t

-- For each update of the set, in its order, that the plan covers it.
abbrev pub coverage : RoutePlan → List Bool
coverage r =
    all (is_expected r) always
    ∷ covers r state_load (state_manager ∷ persistent_state ∷ [])
    ∷ covers r affect (emotion_classifier ∷ affect_engine ∷ [])
    ∷ covers r evidence_acquisition retrieval_all
    ∷ covers r memory_retrieval retrieval_all
    ∷ covers r planning (planner ∷ [])
    ∷ covers r world_simulation (world_model ∷ [])
    ∷ covers r uncertainty_estimation (uncertainty_estimator ∷ [])
    ∷ covers r reflection (reflection_component ∷ [])
    ∷ (not (is_task (codes "tool_request") r) || covers r action (tool_executor ∷ []))
    ∷ covers r answer_generation (model_executor ∷ [])
    ∷ covers r output_validation (output_validator ∷ [])
    ∷ covers r Phase.document_ingestion (document_encoder ∷ memory_index ∷ memory_committer ∷ [])
    ∷ covers r output (output_shaper ∷ [])
    ∷ covers r memory_commit (memory_committer ∷ [])
    ∷ (not (is_task (codes "historical_replay") r) || covers r memory_commit (memory_index ∷ []))
    ∷ covers r maintenance_enqueue (maintenance_events ∷ [])
    ∷ covers r state_commit (state_committer ∷ [])
    ∷ []

abbrev pub HasCoverage : Option RoutePlan → Type 0
HasCoverage none = Unit
HasCoverage (some r) = all (λ b. b) (coverage r) ≡ true

pub matrix-HasCoverage : (t : TaskKind) (p : ExecutionProfile) → HasCoverage (route_matrix t p)
unfolding route_matrix
matrix-HasCoverage conversation model_only = refl
matrix-HasCoverage conversation simple_rag = refl
matrix-HasCoverage conversation prima_full = refl
matrix-HasCoverage historical_replay prima_full = refl
matrix-HasCoverage factual_qa model_only = refl
matrix-HasCoverage factual_qa simple_rag = refl
matrix-HasCoverage factual_qa prima_full = refl
matrix-HasCoverage document_ingestion ingestion_only = refl
matrix-HasCoverage emotion_classification affect_only = refl
matrix-HasCoverage tool_request prima_full = refl
matrix-HasCoverage t p = tt

pub all-All :
    (A : Type 0) (test : A → Bool) (xs : List A) → all test xs ≡ true → All (λ x. test x ≡ true) xs
all-All A test [] h = tt
all-All A test (x ∷ xs) h = (ground arith, all-All A test xs (ground arith))
