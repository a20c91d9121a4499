-- ===== src/Reasoning/Controller/Answers.antt =====
-- The controller's fields, its results, and what `_synthesize` and `_advised_query` do
-- (reasoning/controller.py).
use prima_next.Base.{
  ℕ, ◌+◌, Bool, true, false, not, ◌||◌, Option, none, some, List, [], ◌∷◌, ◌++◌, map, length,
  is_empty, elem, ltb, leb, ◌==◌, if◌then◌else◌,
}
use prima_next.Base.Text.{Text, codes, text_eq, lower, join_split}
use prima_next.Workflow.Advice.{
  Score, ReflectionAdvice, ReflectionAction, ReflectionEvent, action_eq, is_query_action,
  retry_transient_failure, contains_evaluation_leakage,
}
use prima_next.Workflow.Advice
use prima_next.Reasoning.{
  SufficiencyStatus, sufficient, unanswerable, error, ambiguous, contradictory, need_more_evidence,
  EvidenceItem, SufficiencyDecision, EvidenceState, folded, StopReason, stop_status, time_budget,
  max_retrieval_calls, max_hops, context_budget, no_new_evidence, duplicate_query, single_pass_done,
  no_need, failed, max_llm_calls, bypassed, ambiguity, RetrievalResponse,
}

-- What `retrieve` does: a response, or an exception's text.
pub data Retrieval : Type 0 where
  responds : RetrievalResponse → Retrieval
  fails : Text → Retrieval

-- What `synthesize` returns.
pub record Synthesis : Type 0 where
  pub answer : Text
  pub llm_used : Bool
  pub errors : List Text

pub record ReasoningController : Type 0 where
  pub retrieve : EvidenceState → Text → Retrieval
  pub synthesize : Text → List EvidenceItem → Synthesis
  pub verify : EvidenceState → SufficiencyDecision
  pub next_need : EvidenceState → Option Text
  -- none where there is no advisor; the advisor's none is an exception
  pub advisor : Option (ReflectionEvent → EvidenceState → Text → Option ReflectionAdvice)
  -- the time since the start, after so many retrieval calls
  pub elapsed : ℕ → ℕ

pub record ReasoningResult : Type 0 where
  pub answer : Text
  pub status : SufficiencyStatus
  pub reason : StopReason
  pub errors : List Text
  pub state : EvidenceState

abbrev pub llm_count : Bool → ℕ
llm_count true = 1
llm_count false = 0

abbrev status_value : SufficiencyStatus → Text
status_value sufficient = codes "sufficient"
status_value need_more_evidence = codes "need_more_evidence"
status_value ambiguous = codes "ambiguous"
status_value contradictory = codes "contradictory"
status_value unanswerable = codes "unanswerable"
status_value error = codes "error"

-- The text that the source has for a stop reason.
abbrev pub reason_text : StopReason → Text
reason_text (stop_status s) = status_value s
reason_text time_budget = codes "time_budget"
reason_text max_retrieval_calls = codes "max_retrieval_calls"
reason_text max_hops = codes "max_hops"
reason_text context_budget = codes "context_budget"
reason_text no_new_evidence = codes "no_new_evidence"
reason_text duplicate_query = codes "duplicate_query"
reason_text single_pass_done = codes "single_pass"
reason_text no_need = codes "unanswerable"
reason_text failed = codes "error"
reason_text max_llm_calls = codes "max_llm_calls"
reason_text bypassed = codes "bypass"
reason_text ambiguity = codes "ambiguity"

-- `_abstention`
abbrev pub abstention : StopReason → Text
abstention reason =
    codes "I do not have sufficient evidence to answer this question ("
    ++ (reason_text reason ++ codes ").")

abbrev pub after_synthesis :
    EvidenceState → SufficiencyDecision → StopReason → Synthesis → ReasoningResult
after_synthesis s d reason y =
    let s' = record s { llm_calls = s.llm_calls + llm_count y.llm_used } in
    if ltb s.request.budget.max_llm_calls s'.llm_calls
    then record {
      answer = [];
      status = error;
      reason = max_llm_calls;
      errors = codes "LLM call budget exceeded." ∷ [];
      state = s';
    }
    else record {
      answer = y.answer;
      status = d.status;
      reason = reason;
      errors = y.errors;
      state = s';
    }

-- `_synthesize`
unfoldable pub synthesize_answer :
    ReasoningController → EvidenceState → SufficiencyDecision → StopReason → ReasoningResult
synthesize_answer k s d reason =
    if d.answerable
    then after_synthesis s d reason (k.synthesize s.request.question s.evidence_items)
    else record {
      answer = abstention reason;
      status = d.status;
      reason = reason;
      errors = [];
      state = s;
    }

-- The event that a stop reason asks advice about.
abbrev pub event_of : StopReason → Option ReflectionEvent
event_of no_new_evidence = some Advice.no_new_evidence
event_of duplicate_query = some Advice.duplicate_query
event_of (stop_status contradictory) = some Advice.contradictory_evidence
event_of _ = none

abbrev pub is_rejected : EvidenceState → ReflectionAdvice → Text → Bool
is_rejected s a candidate =
    not a.trigger
    || (not (is_query_action a.action || a.action == retry_transient_failure)
        || (is_empty candidate
            || (ltb a.confidence s.request.budget.reflection_confidence_threshold
                || contains_evaluation_leakage a)))

abbrev pub exceeds_budget : EvidenceState → Bool
exceeds_budget s =
    ltb s.request.budget.max_retrieval_calls (s.retrieval_calls + 1)
    || ltb s.request.budget.max_hops (length s.attempted_queries + 1)

abbrev pub judge : EvidenceState → Option ReflectionAdvice → Option Text
judge s none = none
judge s (some a) =
    let candidate = join_split a.suggested_query in
    if is_rejected s a candidate
      || (elem (lower candidate) (map folded s.attempted_queries) || exceeds_budget s)
    then none
    else some candidate

abbrev pub consult :
    Option ReflectionEvent
    → Option (ReflectionEvent → EvidenceState → Text → Option ReflectionAdvice)
    → Text
    → EvidenceState
    → Option Text × EvidenceState
consult (some event) (some advisor) query s =
    let s' = record s { reflection_interventions = s.reflection_interventions + 1 } in
    if leb s.request.budget.max_reflection_interventions s.reflection_interventions
    then (none, s)
    else (judge s' (advisor event s' query), s')
consult _ _ query s = (none, s)

-- `_advised_query`: the query to go on with, if any.
unfoldable pub advised_query :
    ReasoningController → EvidenceState → Text → StopReason → Option Text × EvidenceState
advised_query k s query reason = consult (event_of reason) k.advisor query s
