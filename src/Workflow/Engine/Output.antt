-- ===== src/Workflow/Engine/Output.antt =====
-- `_route_phase_output` (workflow/orchestration_engine.py): where a controller's result is stored.
use prima_next.Base.{Bool, true, false, Option, none, some, []}
use prima_next.Base.Dict.{insert}
use prima_next.Base.Text.{Text, codes}
use prima_next.Workflow.Context.{
  PhaseResult, AnswerResult, ExecutionContext, loaded_state, evidence, committed_state,
  committed_memory, mapping, other, acted, shaped, with_state,
}
use prima_next.Workflow.Phase.{
  WorkflowPhase, input, state_load, affect, memory_retrieval, evidence_acquisition, planning,
  world_simulation, uncertainty_estimation, execution_decision, reflection, action,
  answer_generation, output_validation, document_ingestion, output, state_commit, memory_commit,
  maintenance_enqueue, phase_eq,
}

-- The context with the result stored, or the exception's text.
pub data Routed : Type 0 where
  routed : ExecutionContext → Routed
  rejected : Text → Routed

-- `getattr(result, "answer_result", None)`
abbrev pub answer_of : PhaseResult → Option AnswerResult
answer_of (evidence a r) = a
answer_of _ = none

-- `getattr(result, "latest_retrieval", None)`
abbrev pub retrieval_of : PhaseResult → Option PhaseResult
retrieval_of (evidence a r) = some (other r)
retrieval_of _ = none

abbrev pub is_mapping : PhaseResult → Bool
is_mapping (committed_state _ _) = true
is_mapping (committed_memory _ _) = true
is_mapping (mapping _) = true
is_mapping (acted _ _) = true
is_mapping (shaped _ _) = true
is_mapping _ = false

store_state : PhaseResult → ExecutionContext → Routed
store_state (loaded_state s) c = routed (record c { cognitive_state = s })
store_state _ c = rejected (codes "State load controller must return CognitiveState.")

store_commit : PhaseResult → ExecutionContext → Routed
store_commit (committed_state s done) c = routed (record c {
  cognitive_state = s;
  metadata = record (c.metadata) { state_committed = some done };
})
store_commit (committed_memory _ _) c = rejected (codes "'state'")
store_commit (mapping _) c = rejected (codes "'state'")
store_commit (acted _ _) c = rejected (codes "'state'")
store_commit (shaped _ _) c = rejected (codes "'state'")
store_commit _ c = rejected (codes "State commit controller must return a dictionary.")

store_memory : PhaseResult → ExecutionContext → Routed
store_memory (committed_memory notes admission) c =
    routed (record c { memory_notes_created = notes; memory_admission = admission })
store_memory (committed_state _ _) c =
    routed (record c { memory_notes_created = []; memory_admission = none })
store_memory (mapping _) c =
    routed (record c { memory_notes_created = []; memory_admission = none })
store_memory (acted _ _) c =
    routed (record c { memory_notes_created = []; memory_admission = none })
store_memory (shaped _ _) c =
    routed (record c { memory_notes_created = []; memory_admission = none })
store_memory _ c = rejected (codes "Memory commit controller must return a dictionary.")

store_maintenance : PhaseResult → ExecutionContext → Routed
store_maintenance r c = elim (is_mapping r) [
  | true ↦ routed (record c { maintenance_result = some r })
  | false ↦ rejected (codes "Maintenance enqueue controller must return a dictionary.")
]

store : WorkflowPhase → PhaseResult → ExecutionContext → Routed
unfolding store_state store_commit store_memory store_maintenance
store state_load r c = store_state r c
store affect r c = routed (record c { affect_update = some r })
store memory_retrieval r c = routed (record c { retrieval_response = some r })
store evidence_acquisition r c =
    routed (record c { reasoning_result = answer_of r; retrieval_response = retrieval_of r })
store planning r c = routed (record c { plan = some r })
store world_simulation r c = routed (record c { world_prediction = some r })
store uncertainty_estimation r c = routed (record c { uncertainty = some r })
store execution_decision r c = routed (record c { execution_decision = some r })
store reflection r c = routed (record c { reflection_result = some r })
store action r c = routed (record c { action_result = some r })
store answer_generation r c = routed (record c { generation_result = some r })
store output_validation r c = routed (record c { output_validation = some r })
store document_ingestion r c = routed (record c { ingestion_result = some r })
store output r c = routed (record c { output = some r })
store state_commit r c = store_commit r c
store memory_commit r c = store_memory r c
store maintenance_enqueue r c = store_maintenance r c
store input r c = routed c

abbrev pub record_output : WorkflowPhase → PhaseResult → Routed → Routed
record_output p r (rejected e) = rejected e
record_output p r (routed c) =
    routed (with_state (λ w. record w { outputs = insert p r w.outputs }) c)

unfoldable pub route_phase_output : WorkflowPhase → PhaseResult → ExecutionContext → Routed
unfolding store
route_phase_output p r c = record_output p r (store p r c)
