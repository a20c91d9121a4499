-- ===== src/Reasoning/Controller.antt =====
-- reasoning/controller.py: the loop of retrieval, evaluation and continuation. The retriever, the
-- synthesizer, the verifier, the generator of needs and the reflection advisor are fields, as in
-- the source; each may answer differently at each call, since it sees the state.
pub mod Answers
unfoldable pub use Answers.*
use prima_next.Base.{
  ℕ, zero, suc, ◌+◌, Bool, true, false, not, ◌||◌, Option, none, some, List, [], ◌∷◌, ◌++◌, map,
  length, is_empty, elem, ltb, leb, ◌==◌, if◌then◌else◌,
}
use prima_next.Base.Text.{Text, codes, text_eq, lower, join_split}
use prima_next.Workflow.Advice.{
  Score, ReflectionAdvice, ReflectionAction, ReflectionEvent, action_eq, is_query_action,
  retry_transient_failure, contains_evaluation_leakage,
}
use prima_next.Workflow.Advice
use prima_next.Reasoning.{
  Route, bypass_route, single_route, adaptive_route, clarify_route, SufficiencyStatus, sufficient,
  unanswerable, error, ambiguous, contradictory, need_more_evidence, ReasoningRequest, EvidenceItem,
  SufficiencyDecision, EvidenceState, new_evidence, task_route, folded, StopReason, stop_status,
  time_budget, max_retrieval_calls, max_hops, context_budget, no_new_evidence, duplicate_query,
  single_pass_done, no_need, failed, max_llm_calls, bypassed, ambiguity, stop_reason,
  RetrievalResponse, integrate,
}

-- One round of the loop: a result, or the next query.
pub data Turn : Type 0 where
  stops : ReasoningResult → Turn
  goes_on : Text → EvidenceState → Turn

abbrev pub after_advice :
    ReasoningController → SufficiencyDecision → StopReason → Option Text × EvidenceState → Turn
after_advice k d reason (none, s) = stops (synthesize_answer k s d reason)
after_advice k d reason (some q, s) =
    if is_empty q then stops (synthesize_answer k s d reason) else goes_on q s

abbrev pub after_stop :
    ReasoningController
    → SufficiencyDecision
    → Text
    → EvidenceState
    → Option Text
    → Option StopReason
    → Turn
after_stop k d query s need (some reason) = after_advice k d reason (advised_query k s query reason)
after_stop k d query s none none = stops (synthesize_answer k s d no_need)
after_stop k d query s (some q) none = goes_on q s

abbrev pub need_for : ReasoningController → EvidenceState → SufficiencyStatus → Option Text
need_for k s need_more_evidence = k.next_need s
need_for k s status = none

-- The round after the evidence is integrated.
unfoldable pub evaluate_evidence : ReasoningController → Bool → Text → EvidenceState → Turn
evaluate_evidence k once query s =
    let d = k.verify s in
    let need = need_for k s d.status in
    if once
    then stops (synthesize_answer k s d single_pass_done)
    else after_stop k d query s need (stop_reason (k.elapsed s.retrieval_calls) s d.status need)

abbrev pub after_retrieval :
    ReasoningController → Bool → ℕ → Text → EvidenceState → Retrieval → Turn
after_retrieval k once hop query s (fails e) =
    stops (record { answer = []; status = error; reason = failed; errors = e ∷ []; state = s })
after_retrieval k once hop query s (responds r) =
    let s' = integrate hop query r (record s { retrieval_calls = s.retrieval_calls + 1 }) in
    evaluate_evidence k once query
      (record s' { attempted_queries = s'.attempted_queries ++ (query ∷ []) })

unfoldable pub turn : ReasoningController → Bool → ℕ → Text → EvidenceState → Turn
turn k once hop query s = after_retrieval k once hop query s (k.retrieve s query)

-- The loop of `answer`, on fuel; none where it runs out.
unfoldable pub search_loop :
    ℕ → ReasoningController → Bool → ℕ → Text → EvidenceState → Option ReasoningResult
search_loop zero k once hop query s = none
search_loop (suc fuel) k once hop query s = elim (turn k once hop query s) [
  | stops r ↦ some r
  | goes_on q s' ↦ search_loop fuel k once (hop + 1) q s'
]

abbrev pub bypass_answer : EvidenceState → Synthesis → ReasoningResult
bypass_answer s y = record {
  answer = y.answer;
  status = if is_empty y.answer then unanswerable else sufficient;
  reason = bypassed;
  errors = y.errors;
  state = record s { llm_calls = s.llm_calls + llm_count y.llm_used };
}

abbrev pub answer_on : ℕ → ReasoningController → ReasoningRequest → Route → Option ReasoningResult
answer_on fuel k r clarify_route = some (record {
  answer = codes "Please clarify the question.";
  status = ambiguous;
  reason = ambiguity;
  errors = [];
  state = new_evidence r;
})
answer_on fuel k r bypass_route = some (bypass_answer (new_evidence r) (k.synthesize r.question []))
answer_on fuel k r single_route = search_loop fuel k true 0 r.question (new_evidence r)
answer_on fuel k r adaptive_route = search_loop fuel k false 0 r.question (new_evidence r)

-- `ReasoningController.answer`
unfoldable pub answer : ℕ → ReasoningController → ReasoningRequest → Option ReasoningResult
answer fuel k r = answer_on fuel k r (task_route r.mode r.question)
