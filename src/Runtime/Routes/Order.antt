-- ===== src/Runtime/Routes/Order.antt =====
-- What every route of runtime/route_profiles.py has, and when there is none.
use prima_next.Base.{
  ◌≡◌, ◌≢◌, refl, Bool, true, false, not, ◌&&◌, ◌||◌, ◌⊎◌, inl, inr, Option, none, some, List, [],
  ◌∷◌, elem, IsNodup, ◌==◌, arith, Option-cases, is_none, subst, ◌∙◌,
}
use prima_next.Base.Keys.{elem-filter_by, distinct, distinct-IsNodup}
use prima_next.Base.Text.{Text}
use prima_next.Runtime.Contracts.{
  TaskKind, ExecutionProfile, component_eq, factual_qa, conversation, historical_replay,
  document_ingestion, emotion_classification, tool_request, profile_eq, all_profiles, model_only,
  simple_rag, prima_full, affect_only, ingestion_only, task_eq,
}
use prima_next.Runtime.Routes.{RoutePlan, route_matrix, allowed, select_route}
use prima_next.Workflow.Phase.{
  WorkflowPhase, phase_eq, state_load, evidence_acquisition, answer_generation, output_validation,
  output, state_commit, memory_commit, uncertainty_estimation, execution_decision, action,
}

-- Every occurrence of the one phase stands before every occurrence of the other.
abbrev pub before : WorkflowPhase → WorkflowPhase → List WorkflowPhase → Bool
before p q [] = true
before p q (x ∷ xs) = (not (x == q) || not (elem p xs)) && before p q xs

-- The order that a route keeps.
abbrev pub is_ordered : List WorkflowPhase → Bool
is_ordered ps =
    before evidence_acquisition answer_generation ps
    && (before uncertainty_estimation execution_decision ps
        && (before execution_decision action ps
            && (before action output_validation ps
                && (before answer_generation output_validation ps
                    && (before output_validation output ps
                        && (before output state_commit ps
                            && before state_commit memory_commit ps))))))

abbrev pub starts_with : WorkflowPhase → List WorkflowPhase → Bool
starts_with p [] = false
starts_with p (x ∷ xs) = x == p

-- An answer or an action is validated on the route.
abbrev pub is_checked : List WorkflowPhase → Bool
is_checked ps = elem output_validation ps || not (elem answer_generation ps || elem action ps)

pub record IsPlanned (t : TaskKind) (p : ExecutionProfile) (r : RoutePlan) : Type 0 where
  pub task : r.task_kind ≡ t
  pub chosen : r.profile ≡ p
  pub loads_first : starts_with state_load r.phases ≡ true
  pub phases_once : IsNodup r.phases
  pub components_once : IsNodup r.components
  pub ordered : is_ordered r.phases ≡ true
  pub checked : is_checked r.phases ≡ true
  pub commits : elem state_commit r.phases ≡ true
  -- a factual question writes no memory
  pub read_only : (t ≢ factual_qa) ⊎ (elem memory_commit r.phases ≡ false)

abbrev SelectsPlanned : TaskKind → ExecutionProfile → Option RoutePlan → Type 0
SelectsPlanned t p none = Unit
SelectsPlanned t p (some r) = IsPlanned t p r

-- The tests of a plan that its tables pass by computation.
abbrev is_planned : RoutePlan → Bool
is_planned r =
    starts_with state_load r.phases
    && (distinct r.phases
        && (distinct r.components
            && (is_ordered r.phases && (is_checked r.phases && elem state_commit r.phases))))

is_planned-IsPlanned :
    (t : TaskKind) (p : ExecutionProfile) (r : RoutePlan)
    → r.task_kind ≡ t
    → r.profile ≡ p
    → is_planned r ≡ true
    → (t ≢ factual_qa) ⊎ (elem memory_commit r.phases ≡ false)
    → IsPlanned t p r
is_planned-IsPlanned t p r a b h q = record {
  task = a;
  chosen = b;
  loads_first = ground arith;
  phases_once = distinct-IsNodup r.phases (ground arith);
  components_once = distinct-IsNodup r.components (ground arith);
  ordered = ground arith;
  checked = ground arith;
  commits = ground arith;
  read_only = q;
}

matrix-IsPlanned : (t : TaskKind) (p : ExecutionProfile) → SelectsPlanned t p (route_matrix t p)
unfolding route_matrix
matrix-IsPlanned conversation model_only =
    is_planned-IsPlanned conversation model_only _ refl refl refl (inl (λ h. cc))
matrix-IsPlanned conversation simple_rag =
    is_planned-IsPlanned conversation simple_rag _ refl refl refl (inl (λ h. cc))
matrix-IsPlanned conversation prima_full =
    is_planned-IsPlanned conversation prima_full _ refl refl refl (inl (λ h. cc))
matrix-IsPlanned historical_replay prima_full =
    is_planned-IsPlanned historical_replay prima_full _ refl refl refl (inl (λ h. cc))
matrix-IsPlanned factual_qa model_only =
    is_planned-IsPlanned factual_qa model_only _ refl refl refl (inr refl)
matrix-IsPlanned factual_qa simple_rag =
    is_planned-IsPlanned factual_qa simple_rag _ refl refl refl (inr refl)
matrix-IsPlanned factual_qa prima_full =
    is_planned-IsPlanned factual_qa prima_full _ refl refl refl (inr refl)
matrix-IsPlanned document_ingestion ingestion_only =
    is_planned-IsPlanned document_ingestion ingestion_only _ refl refl refl (inl (λ h. cc))
matrix-IsPlanned emotion_classification affect_only =
    is_planned-IsPlanned emotion_classification affect_only _ refl refl refl (inl (λ h. cc))
matrix-IsPlanned tool_request prima_full =
    is_planned-IsPlanned tool_request prima_full _ refl refl refl (inl (λ h. cc))
matrix-IsPlanned t p = tt

-- A plan that was selected, or the refusal of a profile that the task has no route for.
abbrev pub IsSelection : TaskKind → ExecutionProfile → Text ⊎ RoutePlan → Type 0
IsSelection t p (inl e) = elem p (allowed t) ≡ false
IsSelection t p (inr r) = IsPlanned t p r

-- Every route that is selected is the plan of its task and profile: it loads the state first,
-- repeats no phase and no component, keeps evidence before answer, estimate before decision,
-- decision before action, and output before commit, validates each answer and action before it is
-- output, commits the state, and writes no memory for a factual question. Only a profile that the
-- task has no route for is refused.
pub select_route-IsSelection :
    (t : TaskKind) (p : ExecutionProfile) → IsSelection t p (select_route t p)
unfolding select_route allowed
select_route-IsSelection t p = elim (Option-cases (route_matrix t p)) [
  | inl missing ↦
      rw (missing, select_route)
        (elem-filter_by (λ q. not (is_none (route_matrix t q))) p all_profiles ∙ ground arith)
  | inr (r, found) ↦
      rw (found, select_route) (subst (SelectsPlanned t p) found (matrix-IsPlanned t p))
]
