-- ===== src/Runtime/Execution/Responses.antt =====
-- Every request gets a response, and what its status says (runtime/prima_runtime.py).
use prima_next.Base.{
  ℕ, ◌+◌, ◌*◌, ◌≤◌, ◌≡◌, ◌≢◌, refl, subst, Option-cases, ◌↔◌, ◌⊎◌, inl, inr, Option, none, some,
  List, [], ◌∷◌, length, arith,
}
use prima_next.Base.Text.{Text}
use prima_next.Llm.{GenerationConfig}
use prima_next.State.{CognitiveState}
use prima_next.Runtime.Contracts.{
  TaskKind, ExecutionProfile, conversation, historical_replay, factual_qa, document_ingestion,
  emotion_classification, tool_request, model_only, simple_rag, prima_full, affect_only,
  ingestion_only,
}
use prima_next.Runtime.Routes.{RoutePlan, select_route, route_matrix}
use prima_next.Runtime.Execution
use prima_next.Runtime.Execution.{
  failed_outcome, concluded, get_or, request_metadata, PrimaRequest, PrimaResponse, rejection,
  request_context, response_of, run_selected, respond,
}
use prima_next.Workflow.Phase
use prima_next.Workflow.Phase.{WorkflowPhase, WorkflowStatus}
use prima_next.Workflow.Context.{ExecutionContext}
use prima_next.Workflow.Engine
use prima_next.Workflow.Engine.{Engine}
use prima_next.Workflow.Engine.Termination.{execute-terminates}
use prima_next.Workflow.Engine.Conclusion.{execute-Ends, Ends}

abbrev IsShort : Option RoutePlan → Type 0
IsShort none = Unit
IsShort (some r) = length r.phases ≤ 15

matrix-IsShort : (t : TaskKind) (p : ExecutionProfile) → IsShort (route_matrix t p)
unfolding route_matrix
matrix-IsShort conversation model_only = omega arith
matrix-IsShort conversation simple_rag = omega arith
matrix-IsShort conversation prima_full = omega arith
matrix-IsShort historical_replay prima_full = omega arith
matrix-IsShort factual_qa model_only = omega arith
matrix-IsShort factual_qa simple_rag = omega arith
matrix-IsShort factual_qa prima_full = omega arith
matrix-IsShort document_ingestion ingestion_only = omega arith
matrix-IsShort emotion_classification affect_only = omega arith
matrix-IsShort tool_request prima_full = omega arith
matrix-IsShort t p = tt

-- What `select_route` does with an entry of the matrix, for a predicate that the entry has.
abbrev IsShortSelection : Text ⊎ RoutePlan → Type 0
IsShortSelection (inl e) = Unit
IsShortSelection (inr r) = length r.phases ≤ 15

select_route-IsShort : (t : TaskKind) (p : ExecutionProfile) → IsShortSelection (select_route t p)
unfolding select_route
select_route-IsShort t p = elim (Option-cases (route_matrix t p)) [
  | inl missing ↦ rw (missing, select_route) tt
  | inr (r, found) ↦ rw (found, select_route) (subst IsShort found (matrix-IsShort t p))
]

-- The response agrees with the way the workflow ended.
abbrev pub Agrees : WorkflowStatus → PrimaResponse → Type 0
Agrees s r =
    ((s ≡ Phase.cancelled) ↔ (r.status ≡ Execution.cancelled))
    × ((r.status ≢ Execution.completed) ⊎ ((r.outcome ≢ failed_outcome) × (s ≢ Phase.failed)))

response_of-Agrees :
    (q : PrimaRequest) (c : ExecutionContext) → Agrees c.workflow_state.status (response_of q c)
unfolding response_of concluded
response_of-Agrees q c = ground arith

-- A response that a workflow execution stands behind, or the rejection of a request without route.
abbrev pub IsReport :
    ℕ
    → Engine
    → PrimaRequest
    → GenerationConfig
    → CognitiveState
    → PrimaResponse
    → Text ⊎ RoutePlan
    → Type 0
IsReport fuel e q default blank r (inl x) = r ≡ rejection q x
IsReport fuel e q default blank r (inr plan) =
    (c : ExecutionContext) × (Engine.execute fuel e (request_context q default blank plan) ≡ some c)
    × (r ≡ response_of q c)
    × Ends c
    × Agrees c.workflow_state.status r

routed-length : (ps : List WorkflowPhase) → length (get_or (Engine.route (some ps)) []) ≡ length ps
routed-length [] = refl
routed-length (p ∷ ps) = refl

module _ (fuel : ℕ) (e : Engine) (q : PrimaRequest) (default : GenerationConfig)
    (blank : CognitiveState) where
  context-ends :
      (plan : RoutePlan)
      → length plan.phases ≤ 15
      → 15 + (5 * e.budget.max_retrieval_retries + 9 * e.budget.max_reflection_interventions) ≤ fuel
      → (c : ExecutionContext) × (Engine.execute fuel e (request_context q default blank plan)
          ≡ some c)
  unfolding request_context request_metadata
  context-ends plan short h =
      execute-terminates fuel e (request_context q default blank plan)
        (omega (arith, routed-length plan.phases, short, h))

  selected_returns :
      (o : Text ⊎ RoutePlan)
      → IsShortSelection o
      → 15 + (5 * e.budget.max_retrieval_retries + 9 * e.budget.max_reflection_interventions) ≤ fuel
      → (r : PrimaResponse) × (run_selected fuel e q default blank o ≡ some r)
        × IsReport fuel e q default blank r o
  selected_returns (inl x) short h = (rejection q x, refl, refl)
  selected_returns (inr plan) short h =
      let c = request_context q default blank plan in
      let (c', ends) = context-ends plan short h in
      (
        response_of q c',
        rw (ends, run_selected) refl,
        (c', ends, refl, execute-Ends fuel e c ends, response_of-Agrees q c'),
      )

-- Every request gets its response within a number of rounds that the correction budget fixes: 15
-- for the longest route, five for each retrieval retry and nine for each intervention. It is the
-- rejection of a task and profile without a route, or it reports a workflow execution that has
-- ended: cancelled exactly if that was cancelled, and completed only if it neither failed nor
-- shaped a failed outcome.
pub respond-IsReport :
    (fuel : ℕ) (e : Engine) (q : PrimaRequest) (default : GenerationConfig) (blank : CognitiveState)
    → 15 + (5 * e.budget.max_retrieval_retries + 9 * e.budget.max_reflection_interventions) ≤ fuel
    → (r : PrimaResponse) × (respond fuel e q default blank ≡ some r)
      × IsReport fuel e q default blank r (select_route q.task_kind q.profile)
unfolding respond
respond-IsReport fuel e q default blank h =
    selected_returns fuel e q default blank (select_route q.task_kind q.profile)
      (select_route-IsShort q.task_kind q.profile) h
