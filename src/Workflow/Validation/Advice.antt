-- ===== src/Workflow/Validation/Advice.antt =====
-- What the correction loop and the engine make of the advice on an invalid output
-- (workflow/output_validation.py, workflow/orchestration_engine.py).
use prima_next.Base.{
  ◌<◌, ◌≤◌, ◌≡◌, ◌≢◌, ◌⊎◌, inl, inr, Option, subst, elem, map, is_empty, if◌then◌else◌, refl, true,
  false, none, some, is_none, ap, List, [], ◌∷◌, arith,
}
use prima_next.Base.Text.{Text, strip, lower, join_split, text_eq, infix_of}
use prima_next.Base.Text.Canonical.{join_split-nonempty}
use prima_next.Workflow.Advice.{
  ReflectionAdvice, abstain, contains_evaluation_leakage, is_query_action, no_action, replan,
  action_beq_iff, action_eq,
}
use prima_next.Workflow.Context.{
  PhaseResult, Stage, ExecutionContext, pre_execution, post_execution,
}
use prima_next.Workflow.Correction.{
  CorrectionBudget, rejection_reason, review, consume_budget, signature, has_signature,
  retries_used, current_query,
}
use prima_next.Workflow.Engine.Corrections.{
  correct, correction_phases, query_correction_route, execution_tail, retry_transient,
}
use prima_next.Workflow.Phase.{WorkflowPhase, action, answer_generation, output_validation}
use prima_next.Workflow.Validation.{
  OutputValidationSignal, schema_signal, claim_signal, tool_signal, logic_signal, policy_signal,
  signal_eq, signal_action, signal_advice,
}

-- What the correction loop has not spent.
abbrev pub IsUnspent : CorrectionBudget → ExecutionContext → ReflectionAdvice → Type 0
IsUnspent b c a =
    (b.advice_confidence_threshold ≤ 900_000)
    × (has_signature (signature a (join_split a.suggested_query)) c.metadata.correction_signatures
        ≡ false)
    × (c.metadata.reflection_intervention_count < b.max_reflection_interventions)
    × (retries_used c.metadata < b.max_retrieval_retries)
    × (c.metadata.generation_count < b.max_generations)

-- For an unsupported claim, that the query it proposes names no evaluation data and is new.
abbrev pub IsNew : OutputValidationSignal → ExecutionContext → Type 0
IsNew claim_signal c =
    let a = signal_advice c.user_input claim_signal in
    (contains_evaluation_leakage a ≡ false)
    × (elem (lower (join_split a.suggested_query))
          (lower (current_query c) ∷ map lower c.metadata.correction_queries)
        ≡ false)
IsNew _ c = Unit

-- The advice names no evaluation data, and its query, if it needs one, is there and new.
IsProposal : ExecutionContext → ReflectionAdvice → Type 0
IsProposal c a =
    let k = join_split a.suggested_query in
    (contains_evaluation_leakage a ≡ false)
    × ((is_query_action a.action ≡ false)
        ⊎ ((is_empty k ≡ false)
            × (elem (lower k) (lower (current_query c) ∷ map lower c.metadata.correction_queries)
                ≡ false)))

signal_advice-IsProposal :
    (c : ExecutionContext) (s : OutputValidationSignal)
    → IsNew s c
    → IsProposal c (signal_advice c.user_input s)
unfolding IsProposal contains_evaluation_leakage signal_advice infix_of lower
signal_advice-IsProposal c schema_signal h = (refl, inl refl)
signal_advice-IsProposal c claim_signal h =
    (h.0, inr (join_split-nonempty (strip c.user_input), h.1))
signal_advice-IsProposal c tool_signal h = (refl, inl refl)
signal_advice-IsProposal c logic_signal h = (refl, inl refl)
signal_advice-IsProposal c policy_signal h = (refl, inl refl)

unspent-none :
    (b : CorrectionBudget) (c : ExecutionContext) (a : ReflectionAdvice)
    → a.trigger ≡ true
    → a.action ≢ no_action
    → IsProposal c a
    → a.confidence ≡ 900_000
    → a.action ≢ replan
    → IsUnspent b c a
    → rejection_reason b c.metadata a (current_query c) (join_split a.suggested_query) ≡ none
unfolding rejection_reason IsProposal
unspent-none b c a t n p f r h =
    ground (arith, action_beq_iff a.action no_action, action_beq_iff a.action replan)

signal_action-plain :
    (s : OutputValidationSignal) → (signal_action s ≢ no_action) × (signal_action s ≢ replan)
signal_action-plain s = ground arith

accepts :
    (b : CorrectionBudget) (c : ExecutionContext) (s : OutputValidationSignal) (stage : Stage)
    → let a = signal_advice c.user_input s in
      IsNew s c → IsUnspent b c a → (review b c a stage).1.accepted ≡ true
unfolding review signal_advice
accepts b c s stage h k =
    let a = signal_advice c.user_input s in
    let (acts, stays) = signal_action-plain s in
    ap is_none (unspent-none b c a refl acts (signal_advice-IsProposal c s h) refl stays k)

-- What the engine runs next for a signal, once the advice is accepted: a failed tool is run again
-- where there is a result of it, and else its evidence is searched again.
abbrev pub follow_up : OutputValidationSignal → ExecutionContext → List WorkflowPhase
follow_up tool_signal c =
    if is_none c.action_result
    then query_correction_route c post_execution
    else action ∷ output_validation ∷ []
follow_up claim_signal c = query_correction_route c post_execution
follow_up policy_signal c = []
follow_up _ c = answer_generation ∷ output_validation ∷ []

corrected :
    (b : CorrectionBudget) (c : ExecutionContext) (a : ReflectionAdvice)
    → (review b c a post_execution).1.accepted ≡ true
    → correction_phases b c a output_validation
      ≡ correct a.action a post_execution
          (review b c a post_execution).0
          (review b c a post_execution).1.after_query
unfolding correction_phases
corrected b c a h = rw h

-- What the correction leaves in the metadata: the end of a request that violates the policy, and the
-- query for an unsupported claim.
abbrev pub IsPrepared : OutputValidationSignal → ExecutionContext → ExecutionContext → Type 0
IsPrepared policy_signal c c' = c'.metadata.correction_terminal_action ≡ some abstain
IsPrepared claim_signal c c' =
    c'.metadata.retrieval_query_override
    ≡ some (join_split (signal_advice c.user_input claim_signal).suggested_query)
IsPrepared _ c c' = Unit

abbrev pub IsFollowed :
    OutputValidationSignal → ExecutionContext → ExecutionContext × List WorkflowPhase → Type 0
IsFollowed s c (c', phases) = (phases ≡ follow_up s c) × IsPrepared s c c'

-- What a review leaves alone that the corrections read.
abbrev IsAlike : ExecutionContext → ExecutionContext → Type 0
IsAlike c c' =
    (c'.action_result ≡ c.action_result)
    × (c'.metadata.profile ≡ c.metadata.profile)
    × (c'.metadata.task_kind ≡ c.metadata.task_kind)

review-IsAlike :
    (b : CorrectionBudget) (c : ExecutionContext) (a : ReflectionAdvice) (s : Stage)
    → IsAlike c (review b c a s).0
unfolding review consume_budget
review-IsAlike b c a s = ground arith

route-same :
    (c c' : ExecutionContext) (s : Stage)
    → IsAlike c c'
    → query_correction_route c' s ≡ query_correction_route c s
unfolding query_correction_route execution_tail
route-same c c' pre_execution (r, p, t) = rw p refl
route-same c c' post_execution (r, p, t) = rw (p, t) refl

tool-route :
    (c c' : ExecutionContext) (q : Text) (o : Option PhaseResult)
    → IsAlike c c'
    → (retry_transient post_execution o c' q).1 ≡ (
        if is_none o
        then query_correction_route c post_execution
        else action ∷ output_validation ∷ [])
tool-route c c' q none h = route-same c c' post_execution h
tool-route c c' q (some r) h = refl

abbrev IsQuery : OutputValidationSignal → ExecutionContext → Text → Type 0
IsQuery claim_signal c q = q ≡ join_split (signal_advice c.user_input claim_signal).suggested_query
IsQuery _ c q = Unit

correct-IsFollowed :
    (s : OutputValidationSignal) (a : ReflectionAdvice) (c c' : ExecutionContext) (q : Text)
    → IsAlike c c'
    → IsQuery s c q
    → IsFollowed s c (correct (signal_action s) a post_execution c' q)
unfolding correct
correct-IsFollowed schema_signal a c c' q h e = (refl, tt)
correct-IsFollowed claim_signal a c c' q h e = (route-same c c' post_execution h, ap some e)
correct-IsFollowed tool_signal a c c' q h e = (
  subst
      (λ o. (retry_transient post_execution c'.action_result c' q).1 ≡ (
        if is_none o
        then query_correction_route c post_execution
        else action ∷ output_validation ∷ []))
      h.0 (tool-route c c' q c'.action_result h),
  tt,
)
correct-IsFollowed logic_signal a c c' q h e = (refl, tt)
correct-IsFollowed policy_signal a c c' q h e = (refl, refl)

after-IsQuery :
    (b : CorrectionBudget) (c : ExecutionContext) (s : OutputValidationSignal)
    → let r = review b c (signal_advice c.user_input s) post_execution in
      r.1.accepted ≡ true → IsQuery s c r.1.after_query
unfolding review signal_advice
after-IsQuery b c schema_signal h = tt
after-IsQuery b c claim_signal h = ground (arith, h, join_split-nonempty (strip c.user_input))
after-IsQuery b c tool_signal h = tt
after-IsQuery b c logic_signal h = tt
after-IsQuery b c policy_signal h = tt

-- The correction loop accepts the advice on an invalid output whenever it asks for a confidence of
-- 0.9 at most, its budgets of interventions, retrieval retries and generations are unspent and the
-- proposal was not accepted before, for an unsupported claim also if the proposed query is new and
-- names no evaluation data. The engine goes on as the signal asks: it generates the answer again,
-- runs a tool that has a result again, searches evidence again for an unsupported claim, by the
-- proposed query, or for a tool without a result, or, on a policy violation, ends with an
-- abstention.
pub signal_advice-accepted :
    (b : CorrectionBudget) (c : ExecutionContext) (s : OutputValidationSignal)
    → IsNew s c
    → IsUnspent b c (signal_advice c.user_input s)
    → IsFollowed s c (correction_phases b c (signal_advice c.user_input s) output_validation)
unfolding signal_advice
signal_advice-accepted b c s h k =
    let a = signal_advice c.user_input s in
    let accepted = accepts b c s post_execution h k in
    rw (corrected b c a accepted) (
      correct-IsFollowed s a c (review b c a post_execution).0
        (review b c a post_execution).1.after_query (review-IsAlike b c a post_execution)
        (after-IsQuery b c s accepted))
