-- ===== src/Workflow/Validation.antt =====
-- workflow/output_validation.py: the signals that a generated answer and an action result give, and
-- the advice that the first of them leads to.
pub mod Verdict
pub mod Advice
use prima_next.Base.{
  ℕ, ◌≡◌, ◌↔◌, Bool, true, false, not, ◌&&◌, ◌||◌, ◌==◌, Option, none, some, List, [], ◌∷◌, ◌++◌,
  Eq, nat_beq, any, is_empty, is_none, fresh_keys, get_or, map, if◌then◌else◌, arith,
}
use prima_next.Base.Text.{Text, codes, text_eq, lower, infix_of, strip}
use prima_next.Workflow.Advice.{
  ReflectionEvent, ReflectionAction, ReflectionAdvice, output_schema_failure, tool_failure,
  logical_inconsistency, policy_violation, unsupported_claim, regenerate, revise_query,
  retry_transient_failure, abstain, action_eq, space,
}
use prima_next.Workflow.Context.{
  PhaseResult, GenerationResult, AnswerResult, GenerationOutcome, answered, failed, generated,
  acted, mapping, committed_state, committed_memory, shaped, ExecutionContext, Object,
}

pub data OutputValidationSignal : Type 0 where
  schema_signal claim_signal tool_signal logic_signal policy_signal : OutputValidationSignal

abbrev pub signal_index : OutputValidationSignal → ℕ
signal_index schema_signal = 0
signal_index claim_signal = 1
signal_index tool_signal = 2
signal_index logic_signal = 3
signal_index policy_signal = 4

abbrev pub signal_beq : OutputValidationSignal → OutputValidationSignal → Bool
signal_beq a b = nat_beq (signal_index a) (signal_index b)

pub signal_beq_iff : (a b : OutputValidationSignal) → (signal_beq a b ≡ true) ↔ (a ≡ b)
signal_beq_iff a b = ground arith

instance abbrev pub signal_eq : Eq OutputValidationSignal
signal_eq = record { equal = signal_beq; decides = signal_beq_iff }

abbrev pub signal_value : OutputValidationSignal → Text
signal_value schema_signal = codes "output_schema_failure"
signal_value claim_signal = codes "unsupported_claim_evidence_mismatch"
signal_value tool_signal = codes "tool_failure"
signal_value logic_signal = codes "logical_inconsistency"
signal_value policy_signal = codes "policy_violation"

pub record OutputValidationResult : Type 0 where
  pub valid : Bool
  pub signals : List OutputValidationSignal
  pub advice : Option ReflectionAdvice

abbrev pub is_failed : GenerationOutcome → Bool
is_failed failed = true
is_failed _ = false

abbrev pub is_answered : GenerationOutcome → Bool
is_answered answered = true
is_answered _ = false

-- `" ".join(errors)`
abbrev pub join_errors : List Text → Text
join_errors [] = []
join_errors (e ∷ []) = e
join_errors (e ∷ (f ∷ es)) = e ++ (space ++ join_errors (f ∷ es))

abbrev schema_tokens : List Text
schema_tokens =
    codes "json" ∷ codes "schema" ∷ codes "invalid" ∷ codes "empty" ∷ codes "evidence" ∷ []

abbrev logic_tokens : List Text
logic_tokens = codes "inconsistent" ∷ codes "contradict" ∷ []

-- What the errors of a failed generation point to.
unfoldable pub failure_signal : List Text → OutputValidationSignal
failure_signal es =
    let errors = lower (join_errors es) in
    if any (λ t. infix_of t errors) schema_tokens
    then schema_signal
    else if any (λ t. infix_of t errors) logic_tokens
    then logic_signal
    else schema_signal

abbrev pub has_evidence : Option AnswerResult → Bool
has_evidence none = false
has_evidence (some a) = not (is_empty a.evidence_references)

-- A factual answer that cites nothing although evidence was found.
unfoldable pub lacks_citation : ExecutionContext → GenerationResult → Bool
lacks_citation c g =
    (c.metadata.task_kind == codes "factual_qa")
    && (is_answered g.outcome
        && (has_evidence c.reasoning_result && is_empty g.selected_source_ids))

unfoldable pub generation_signals :
    ExecutionContext → Option PhaseResult → List OutputValidationSignal
unfolding failure_signal lacks_citation
generation_signals c (some (generated g)) =
    (if is_failed g.outcome then failure_signal g.errors ∷ [] else [])
    ++ (if lacks_citation c g then claim_signal ∷ [] else [])
generation_signals c _ = []

abbrev join_objects : List Object → Text
join_objects [] = []
join_objects (o ∷ os) = o ++ (codes ", " ++ join_objects os)

-- `str(action_payload)`, and its status: those of the empty dictionary where the result is none. The
-- text of a committed state is left out: no action controller returns one.
abbrev pub action_text : Option PhaseResult → Text
action_text (some (acted s t)) = t
action_text (some (mapping t)) = t
action_text (some (shaped o t)) = o ++ (codes ", " ++ get_or t (codes "None"))
action_text (some (committed_memory ns a)) = join_objects ns
action_text _ = codes "{}"

abbrev pub action_status : Option PhaseResult → Text
action_status (some (acted s t)) = s
action_status _ = []

unfoldable pub action_signals : Option PhaseResult → List OutputValidationSignal
action_signals r =
    let status = lower (action_status r) in
    (if status == codes "failed" || status == codes "partial" then tool_signal ∷ [] else [])
    ++ (if status == codes "blocked" || infix_of (codes "policy violation") (lower (action_text r))
        then policy_signal ∷ []
        else [])

-- `_signals`
unfoldable pub signals_of : ExecutionContext → List OutputValidationSignal
unfolding generation_signals action_signals
signals_of c =
    fresh_keys [] (generation_signals c c.generation_result ++ action_signals c.action_result)

abbrev pub signal_action : OutputValidationSignal → ReflectionAction
signal_action schema_signal = regenerate
signal_action claim_signal = revise_query
signal_action tool_signal = retry_transient_failure
signal_action logic_signal = regenerate
signal_action policy_signal = abstain

abbrev pub signal_event : OutputValidationSignal → ReflectionEvent
signal_event schema_signal = output_schema_failure
signal_event claim_signal = unsupported_claim
signal_event tool_signal = tool_failure
signal_event logic_signal = logical_inconsistency
signal_event policy_signal = policy_violation

unfoldable pub signal_advice : Text → OutputValidationSignal → ReflectionAdvice
signal_advice user_input s = record {
  trigger = true;
  action = signal_action s;
  suggested_query =
      if signal_action s == revise_query
      then strip user_input ++ codes " supporting evidence"
      else [];
  correction_proposal = codes "Correct post-execution signal: " ++ (signal_value s ++ codes ".");
  confidence = 900_000;
  provenance = codes "{'component': 'output_validator', 'stage': 'post_execution'}";
  reason_code = signal_value s;
  event = some (signal_event s);
  metadata = codes "{}";
}

abbrev pub validation_of : Text → List OutputValidationSignal → OutputValidationResult
validation_of user_input [] = record { valid = true; signals = []; advice = none }
validation_of user_input (s ∷ ss) = record {
  valid = false;
  signals = s ∷ ss;
  advice = some (signal_advice user_input s);
}

-- `OutputValidationController.execute`
unfoldable pub validate_output : ExecutionContext → OutputValidationResult
unfolding signals_of signal_advice
validate_output c = validation_of c.user_input (signals_of c)
