-- ===== src/Workflow/Generation.antt =====
-- workflow/answer_generation.py: the answer to a request, from the model client and the evidence.
-- The client's reply and the reading of JSON are arguments; the prompt is a function of the context
-- and of whether the answer has to cite evidence. An absent key of a dictionary reads as `null`.
pub mod Parsing
pub mod Sources
pub mod Grounding
use prima_next.Base.{
  ℕ, zero, suc, ◌⊎◌, ◌+◌, Bool, true, false, not, ◌&&◌, ◌||◌, ◌==◌, Option, none, some, List, [],
  ◌∷◌, ◌++◌, is_empty, if◌then◌else◌,
}
use prima_next.Base.Text.{Text, codes, text_eq, strip}
use prima_next.Base.Value.{Value}
use prima_next.Llm.{
  StructuredOutputMode, json_schema, mode_eq, FallbackPolicy, extractive, GenerationConfig,
}
use prima_next.Reasoning.{SufficiencyStatus, sufficient, EvidenceItem}
use prima_next.Workflow.Context.{
  GenerationOutcome, answered, abstained, failed, GenerationResult, AnswerResult, generated,
  Metadata, ExecutionContext,
}
use prima_next.Workflow.Engine.{Controller, Outcome, returned, raised}
use prima_next.Workflow.Generation.Parsing.{Parsed, parsed, declined, invalid, parse, label_map}

-- How a call of the client ends: a text, an exception of a class that is caught here
-- (`ProviderError`, `RuntimeError`, `TypeError`, `ValueError`), or another one.
pub data ModelReply : Type 0 where
  text_reply : Text → ModelReply
  caught_error uncaught_error : Text → ModelReply

pub record AnswerGenerator : Type 0 where
  pub provider_name : Text
  pub default_generation_config : Option GenerationConfig
  -- by the number of controller calls made before
  pub chat : ℕ → ExecutionContext → GenerationConfig → Bool → ModelReply
  -- `json.loads`: the text of a `JSONDecodeError`, or a value
  pub loads : Text → Text ⊎ Value

abbrev pub no_evidence_text : Text
no_evidence_text = codes "I do not have sufficient evidence to answer this question."

-- `GenerationResult(outcome, provider=…, model=…, fallback_policy=…)` with the defaults elsewhere.
abbrev pub plain_result : GenerationOutcome → Text → GenerationConfig → GenerationResult
plain_result o provider g = record {
  outcome = o;
  text = [];
  selected_source_ids = [];
  errors = [];
  provider = provider;
  model = g.model;
  llm_called = false;
  fallback_policy = g.fallback_policy;
  fallback_used = false;
  fallback_reason = none;
}

abbrev pub unconfigured : Text → GenerationResult
unconfigured provider = record {
  outcome = failed;
  text = [];
  selected_source_ids = [];
  errors = codes "A typed GenerationConfig is required for answer generation." ∷ [];
  provider = provider;
  model = [];
  llm_called = false;
  fallback_policy = FallbackPolicy.abstain;
  fallback_used = false;
  fallback_reason = none;
}

-- The configuration of the request, or else the default one.
abbrev pub config_of : AnswerGenerator → ExecutionContext → Option GenerationConfig
config_of y c = elim (c.metadata.generation_config) [
  | none ↦ y.default_generation_config
  | some g ↦ some g
]

abbrev pub is_factual : ExecutionContext → Bool
is_factual c = c.metadata.task_kind == codes "factual_qa"

abbrev pub evidence_of : Option AnswerResult → List EvidenceItem
evidence_of none = []
evidence_of (some a) = a.evidence_references

abbrev or_default : List Text → List Text
or_default [] = codes "Evidence acquisition failed." ∷ []
or_default (e ∷ es) = e ∷ es

abbrev pub gate_status :
    SufficiencyStatus → Text → GenerationConfig → List Text → Option GenerationResult
gate_status SufficiencyStatus.error provider g es =
    some (record (plain_result failed provider g) { errors = or_default es })
gate_status sufficient provider g es = none
gate_status _ provider g es =
    some (record (plain_result abstained provider g) { text = no_evidence_text })

-- What a factual request ends with before any model is called, none where it goes on.
unfoldable pub evidence_gate :
    Text → GenerationConfig → Option AnswerResult → Option GenerationResult
evidence_gate provider g none = none
evidence_gate provider g (some a) = gate_status a.status provider g a.errors

-- The result that every fallback starts from.
abbrev pub failed_call : GenerationConfig → Text → GenerationResult
failed_call g reason = record (plain_result failed g.provider g) {
  errors = reason ∷ [];
  llm_called = true;
  fallback_reason = some reason;
}

abbrev pub fall_back : FallbackPolicy → List EvidenceItem → GenerationResult → GenerationResult
fall_back extractive (item ∷ _) r = record r {
  outcome = answered;
  text = strip item.text;
  selected_source_ids = item.source_id ∷ [];
  fallback_used = true;
}
fall_back extractive [] r = r
fall_back FallbackPolicy.abstain is r = record r {
  outcome = abstained;
  text = no_evidence_text;
  fallback_used = true;
}
fall_back FallbackPolicy.fail is r = r

-- `_fallback`
unfoldable pub fallback : Option AnswerResult → GenerationConfig → Text → GenerationResult
fallback reasoning g reason =
    fall_back g.fallback_policy (evidence_of reasoning) (failed_call g reason)

-- What `execute` returns for a reply that was read.
unfoldable pub read_result :
    AnswerGenerator → ExecutionContext → GenerationConfig → Parsed → GenerationResult
unfolding fallback
read_result y c g (parsed answer sources) = record (plain_result answered y.provider_name g) {
  text = answer;
  selected_source_ids = sources;
  llm_called = true;
}
read_result y c g declined = record (plain_result abstained y.provider_name g) {
  text = no_evidence_text;
  llm_called = true;
}
read_result y c g (invalid e) = fallback c.reasoning_result g e

unfoldable pub read_reply :
    AnswerGenerator → ExecutionContext → GenerationConfig → ModelReply → Outcome
unfolding read_result parse
read_reply y c g (text_reply t) =
    let m = label_map (evidence_of c.reasoning_result) in
    returned (generated (read_result y c g (parse y.loads (strip t) c.user_input m (is_factual c))))
read_reply y c g (caught_error e) = returned (generated (fallback c.reasoning_result g e))
read_reply y c g (uncaught_error e) = raised e

abbrev pub count_model_call : ExecutionContext → ExecutionContext
count_model_call c = record c {
  metadata = record (c.metadata) { model_call_count = c.metadata.model_call_count + 1 };
}

-- The call of the model and the reading of its reply.
unfoldable pub call_model :
    ℕ → AnswerGenerator → ExecutionContext → GenerationConfig → Outcome × ExecutionContext
unfolding read_reply
call_model n y c g =
    let c' = count_model_call c in (read_reply y c' g (y.chat n c' g (is_factual c)), c')

unfoldable pub gated :
    AnswerGenerator → GenerationConfig → ExecutionContext → Option GenerationResult
unfolding evidence_gate
gated y g c = if is_factual c then evidence_gate y.provider_name g c.reasoning_result else none

unfoldable pub with_config :
    ℕ → AnswerGenerator → ExecutionContext → GenerationConfig → Outcome × ExecutionContext
unfolding call_model gated
with_config n y c g =
    if is_factual c && not (g.structured_output == json_schema)
    then (
      returned (
          generated (record (plain_result failed y.provider_name g) {
            errors = codes "Factual QA requires a precomputed JSON-schema GenerationConfig." ∷ [];
          })),
      c,
    )
    else elim (gated y g c) [ some r ↦ (returned (generated r), c) | none ↦ call_model n y c g ]

-- `AnswerGenerationController.execute`: how it ends, and the context with its calls counted.
unfoldable pub generate : ℕ → AnswerGenerator → ExecutionContext → Outcome × ExecutionContext
unfolding with_config
generate n y c = elim (config_of y c) [
  | none ↦ (returned (generated (unconfigured y.provider_name)), c)
  | some g ↦ with_config n y c g
]

-- As a controller of the engine, which does not read the count of model calls.
unfoldable pub generation_controller : AnswerGenerator → Controller
unfolding generate
generation_controller y n c = (generate n y c).0
