-- ===== src/Runtime/Routes/Skipped.antt =====
-- The components that a route skips (runtime/route_profiles.py).
use prima_next.Base.{◌≡◌, refl, ◌∙◌, true, not, ◌&&◌, elem, Bool, arith}
use prima_next.Base.Keys.{elem-filter_by}
use prima_next.Runtime.Contracts.{
  RuntimeComponent, component_eq, all_components, input_parser, task_scheduler, state_manager,
  policy_router, execution_dispatcher, persistent_state, affect_engine, query_rewriter,
  dense_retrieval, sparse_retrieval, temporal_retrieval, graph_traversal, graph_reasoning, fusion,
  reranker, confidence_estimator, context_compressor, planner, world_model, uncertainty_estimator,
  reflection_component, model_executor, tool_executor, output_validator, output_shaper,
  state_committer, memory_index, memory_committer, document_encoder, emotion_classifier,
  maintenance_events,
}
use prima_next.Runtime.Routes.{RoutePlan, skipped_components}

elem-all_components : (c : RuntimeComponent) → elem c all_components ≡ true
elem-all_components input_parser = refl
elem-all_components task_scheduler = refl
elem-all_components state_manager = refl
elem-all_components policy_router = refl
elem-all_components execution_dispatcher = refl
elem-all_components persistent_state = refl
elem-all_components affect_engine = refl
elem-all_components query_rewriter = refl
elem-all_components dense_retrieval = refl
elem-all_components sparse_retrieval = refl
elem-all_components temporal_retrieval = refl
elem-all_components graph_traversal = refl
elem-all_components graph_reasoning = refl
elem-all_components fusion = refl
elem-all_components reranker = refl
elem-all_components confidence_estimator = refl
elem-all_components context_compressor = refl
elem-all_components planner = refl
elem-all_components world_model = refl
elem-all_components uncertainty_estimator = refl
elem-all_components reflection_component = refl
elem-all_components model_executor = refl
elem-all_components tool_executor = refl
elem-all_components output_validator = refl
elem-all_components output_shaper = refl
elem-all_components state_committer = refl
elem-all_components memory_index = refl
elem-all_components memory_committer = refl
elem-all_components document_encoder = refl
elem-all_components emotion_classifier = refl
elem-all_components maintenance_events = refl

and_true : (b c : Bool) → c ≡ true → (b && c) ≡ b
and_true b c h = ground arith

-- Every component is either selected by a plan or skipped by it, never both and never neither.
skipped_components-elem :
    (r : RoutePlan) (c : RuntimeComponent)
    → elem c (skipped_components r) ≡ not (elem c r.components)
unfolding skipped_components
skipped_components-elem r c =
    elem-filter_by (λ d. not (elem d r.components)) c all_components
    ∙ and_true (not (elem c r.components)) (elem c all_components) (elem-all_components c)
