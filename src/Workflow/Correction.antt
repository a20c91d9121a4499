-- ===== src/Workflow/Correction.antt =====
-- workflow/correction_loop.py: bounded acceptance of advice, and its audit records.
pub mod Completion
pub mod Acceptance
use prima_next.Base.{
  ℕ, ◌+◌, suc, max, Bool, true, false, not, ◌&&◌, ◌||◌, Option, none, some, List, [], ◌∷◌, ◌++◌, Eq,
  ◌==◌, ltb, leb, is_empty, elem, map, length, is_none, get_or, if◌then◌else◌,
}
use prima_next.Base.Int.{sub_ℕ, pos_part}
use prima_next.Base.Text.{Text, text_eq, lower, join_split}
use prima_next.Workflow.Advice.{
  ReflectionAction, ReflectionAdvice, revise_query, broaden_query, pivot_entity, replan,
  retry_transient_failure, regenerate, ask_user, abstain, no_action, action_eq, Score,
  is_query_action, contains_evaluation_leakage,
}
use prima_next.Workflow.Context.{
  Object, PhaseResult, AnswerResult, GenerationResult, estimate, generated, Metadata, Reason, Stage,
  CorrectionAttempt, ExecutionContext, no_intervention, evaluation_leakage, low_advice_confidence,
  duplicate_advice, reflection_budget_exhausted, missing_query, retrieval_budget_exhausted,
  replan_budget_exhausted, generation_budget_exhausted, plan_object,
}

pub record CorrectionBudget : Type 0 where
  pub max_retrieval_retries : ℕ
  pub max_replans : ℕ
  pub max_reflection_interventions : ℕ
  pub max_generations : ℕ
  pub advice_confidence_threshold : Score

abbrev pub default_budget : CorrectionBudget
default_budget = record {
  max_retrieval_retries = 1;
  max_replans = 1;
  max_reflection_interventions = 1;
  max_generations = 2;
  advice_confidence_threshold = 600_000;
}

-- The key by which a repeated proposal is recognised.
abbrev pub signature : ReflectionAdvice → Text → ReflectionAction × Text
signature a candidate = (a.action, lower candidate)

abbrev pub has_signature : ReflectionAction × Text → List (ReflectionAction × Text) → Bool
has_signature s [] = false
has_signature s (t ∷ ts) = (t.0 == s.0 && t.1 == s.1) || has_signature s ts

-- The retrieval retries counted against the budget: those of corrections and of the gate.
abbrev pub retries_used : Metadata → ℕ
retries_used m = m.correction_retrieval_retries + m.retrieval_retry_count

-- The tests that are specific to the proposed action.
action_reason : CorrectionBudget → Metadata → ReflectionAction → Text → Text → Option Reason
action_reason b m a query candidate =
    if is_query_action a && is_empty candidate
    then some missing_query
    else if is_query_action a
        && elem (lower candidate) (lower query ∷ map lower m.correction_queries)
    then some duplicate_advice
    else if (is_query_action a || a == retry_transient_failure)
        && leb b.max_retrieval_retries (retries_used m)
    then some retrieval_budget_exhausted
    else if a == replan && leb b.max_replans m.correction_replans
    then some replan_budget_exhausted
    else if a == regenerate && leb b.max_generations m.generation_count
    then some generation_budget_exhausted
    else none

-- `_rejection_reason`: none where the advice is accepted.
unfoldable pub rejection_reason :
    CorrectionBudget → Metadata → ReflectionAdvice → Text → Text → Option Reason
unfolding action_reason
rejection_reason b m a query candidate =
    if not a.trigger || a.action == no_action
    then some no_intervention
    else if contains_evaluation_leakage a
    then some evaluation_leakage
    else if ltb a.confidence b.advice_confidence_threshold
    then some low_advice_confidence
    else if has_signature (signature a candidate) m.correction_signatures
    then some duplicate_advice
    else if leb b.max_reflection_interventions m.reflection_intervention_count
    then some reflection_budget_exhausted
    else action_reason b m a.action query candidate

-- `_consume_budget`
unfoldable pub consume_budget : Metadata → ReflectionAdvice → Text → Metadata
consume_budget m a candidate =
    let m' = record m {
      reflection_intervention_count = m.reflection_intervention_count + 1;
      correction_signatures = signature a candidate ∷ m.correction_signatures;
    } in
    if is_query_action a.action || a.action == retry_transient_failure
    then record m' {
      correction_retrieval_retries = m.correction_retrieval_retries + 1;
      correction_queries = m.correction_queries ++ (candidate ∷ []);
    }
    else if a.action == replan
    then record m' { correction_replans = m.correction_replans + 1 }
    else m'

abbrev pub current_query : ExecutionContext → Text
current_query c = get_or c.metadata.retrieval_query_override c.user_input

abbrev pub answer_snapshot : Option PhaseResult → Text
answer_snapshot (some (generated g)) = g.text
answer_snapshot _ = []

abbrev pub reasoning_confidence : Option AnswerResult → Score
reasoning_confidence none = 0
reasoning_confidence (some a) = a.confidence

abbrev pub confidence_snapshot : Option PhaseResult → Option AnswerResult → Score
confidence_snapshot (some (estimate s)) r = s
confidence_snapshot _ r = reasoning_confidence r

abbrev pub plan_snapshot : Option PhaseResult → Option Object
plan_snapshot none = none
plan_snapshot (some r) = some (plan_object r)

-- `CorrectionLoop.review`: accept or reject, without executing the requested action.
unfoldable pub review :
    CorrectionBudget
    → ExecutionContext
    → ReflectionAdvice
    → Stage
    → ExecutionContext × CorrectionAttempt
unfolding rejection_reason consume_budget
review b c a stage =
    let query = current_query c in
    let candidate = join_split a.suggested_query in
    let reason = rejection_reason b c.metadata a query candidate in
    let accepted = is_none reason in
    let attempt : CorrectionAttempt = record {
      attempt_index = length c.correction_attempts + 1;
      stage = stage;
      advice = a;
      accepted = accepted;
      decision_reason = reason;
      before_query = query;
      after_query = if accepted && not (is_empty candidate) then candidate else query;
      before_plan = plan_snapshot c.plan;
      after_plan = plan_snapshot c.plan;
      before_answer = answer_snapshot c.generation_result;
      after_answer = answer_snapshot c.generation_result;
      before_confidence = confidence_snapshot c.uncertainty c.reasoning_result;
      after_confidence = confidence_snapshot c.uncertainty c.reasoning_result;
      confidence_delta = sub_ℕ 0 0;
      utility = 0;
    } in
    (
      record c {
        metadata = if accepted then consume_budget c.metadata a candidate else c.metadata;
        correction_attempts = c.correction_attempts ++ (attempt ∷ []);
      },
      attempt,
    )
