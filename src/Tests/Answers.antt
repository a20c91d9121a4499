-- ===== src/Tests/Answers.antt =====
-- Answers, their validation and the commits at the end of a request.
use prima_next.Base.{◌≡◌, ◌≢◌, ◌↔◌, refl, true, false, none, some, [], ◌∷◌, inr, arith}
use prima_next.Base.Text.{codes}
use prima_next.Base.Value.{bool, str, list, dict, field, end, cons, nil}
use prima_next.Llm.{FallbackPolicy, json_schema}
use prima_next.Reasoning.{EvidenceItem, sufficient, ambiguous}
use prima_next.Workflow.Advice.{ReflectionAction}
use prima_next.Workflow.Context.{
  ExecutionContext, AnswerResult, GenerationResult, generated, acted, shaped, failed,
}
use prima_next.Workflow.Correction.{default_budget}
use prima_next.Workflow.Engine.Corrections.{correction_phases}
use prima_next.Workflow.Phase.{output_validation}
use prima_next.Workflow.Generation.{AnswerGenerator, text_reply, generate}
use prima_next.Workflow.Generation.Grounding.{
  generate-IsGrounded, generate-IsSilent, ReturnsGrounded, IsSilent,
}
use prima_next.Workflow.Validation.{schema_signal, signal_advice, validate_output}
use prima_next.Workflow.Validation.Verdict.{validate_output-valid, IsSupported, IsUneventful}
use prima_next.Workflow.Validation.Advice.{signal_advice-accepted, IsNew, IsUnspent, IsFollowed}
use prima_next.Workflow.Facade.{shape_output, commit_state}
use prima_next.Workflow.Facade.Traces.{
  shape_output-IsWithheld, failed-IsTraceless, commit_state-IsFound, IsWithheld, IsTraceless,
  IsFound,
}
use prima_next.Tests.Fixtures.{demo_context, demo_metadata, demo_generation}

-- A model that cites the first evidence, and a reader of its reply.
abbrev demo_generator : AnswerGenerator
demo_generator = record {
  provider_name = codes "local";
  default_generation_config = some (record demo_generation { structured_output = json_schema });
  chat = λ n c g factual. text_reply (codes "the reply");
  loads = λ t. inr (
      dict (
        field (str (codes "insufficient_information")) (bool false) (
          field (str (codes "answer")) (str (codes "Ada"))
            (field (str (codes "evidence")) (list (cons (str (codes "E1")) nil)) end))));
}

abbrev demo_evidence : EvidenceItem
demo_evidence = record {
  source_id = codes "n1";
  text = codes "Ada wrote it.";
  hop = 1;
  query = codes "who wrote it";
}

abbrev demo_answer : AnswerResult
demo_answer = record {
  status = sufficient;
  confidence = 500_000;
  evidence_references = demo_evidence ∷ [];
  errors = [];
}

abbrev factual_context : ExecutionContext
factual_context = record demo_context {
  reasoning_result = some demo_answer;
  metadata = record demo_metadata { task_kind = codes "factual_qa" };
}

generate-IsGrounded_example :
    ReturnsGrounded factual_context (generate 0 demo_generator factual_context).0
generate-IsGrounded_example = generate-IsGrounded 0 demo_generator factual_context

abbrev poor_answer : AnswerResult
poor_answer = record demo_answer { status = ambiguous }

abbrev poor_context : ExecutionContext
poor_context = record factual_context { reasoning_result = some poor_answer }

poor-lacking : poor_answer.status ≢ sufficient
poor-lacking = λ h. cc

generate-IsSilent_example : IsSilent poor_context (generate 0 demo_generator poor_context)
generate-IsSilent_example =
    generate-IsSilent 0 demo_generator poor_context poor_answer refl refl poor-lacking

-- A generation that failed, after an action.
abbrev failed_generation : GenerationResult
failed_generation = record {
  outcome = failed;
  text = [];
  selected_source_ids = [];
  errors = codes "invalid json" ∷ [];
  provider = codes "local";
  model = codes "small";
  llm_called = true;
  fallback_policy = FallbackPolicy.fail;
  fallback_used = false;
  fallback_reason = none;
}

abbrev failed_context : ExecutionContext
failed_context = record demo_context {
  generation_result = some (generated failed_generation);
  action_result = some (acted (codes "success") (codes "done"));
}

validate_output-valid_example : ((validate_output failed_context).valid ≡ true) ↔ (
    IsSupported failed_context failed_context.generation_result
    × IsUneventful failed_context.action_result)
validate_output-valid_example = validate_output-valid failed_context

demo-IsUnspent :
    IsUnspent default_budget failed_context (signal_advice failed_context.user_input schema_signal)
demo-IsUnspent = (ground arith, refl, ground arith, ground arith, ground arith)

demo-IsNew : IsNew schema_signal failed_context
demo-IsNew = tt

signal_advice-accepted_example : IsFollowed schema_signal failed_context (
    correction_phases default_budget failed_context
      (signal_advice failed_context.user_input schema_signal)
      output_validation)
signal_advice-accepted_example =
    signal_advice-accepted default_budget failed_context schema_signal demo-IsNew demo-IsUnspent

failed-IsTraceless_example : IsTraceless failed_context (shape_output failed_context)
failed-IsTraceless_example = failed-IsTraceless failed_context failed_generation refl refl refl

abbrev stopped_context : ExecutionContext
stopped_context = record failed_context {
  metadata = record demo_metadata { correction_terminal_action = some ReflectionAction.abstain };
}

shape_output-IsWithheld_example : IsWithheld stopped_context (shape_output stopped_context)
shape_output-IsWithheld_example = shape_output-IsWithheld stopped_context refl

-- The first commit of a session.
abbrev answered_context : ExecutionContext
answered_context = record demo_context {
  output = some (shaped (codes "answered") (some (codes "Ada")));
}

commit_state-IsFound_example :
    IsFound (codes "s") answered_context [] (commit_state (codes "s") 7 answered_context [])
commit_state-IsFound_example = commit_state-IsFound (codes "s") 7 answered_context []
