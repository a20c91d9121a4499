-- ===== src/Tests/Fixtures.antt =====
-- The engine, the tools, the sessions and the events that the tests use.
use prima_next.Base.{true, false, none, some, [], ◌∷◌, ◌==◌, nat_eq, if◌then◌else◌}
use prima_next.Base.Int.{pos}
use prima_next.Base.Text.{codes}
use prima_next.Base.Value.{int}
use prima_next.Llm.{FallbackPolicy, GenerationConfig, no_structure}
use prima_next.State.{empty_state}
use prima_next.Workflow.Phase.{memory_retrieval, answer_generation, output_validation}
use prima_next.Workflow.Advice.{ReflectionAdvice, regenerate}
use prima_next.Workflow.Context.{
  ExecutionContext, Metadata, new_state, generated, advised, other, answered,
}
use prima_next.Workflow.Correction.{default_budget}
use prima_next.Workflow.Engine.{Engine, Controller, returned, raised}
use prima_next.Tools.Invocation.{ToolInvocation, tool_call}
use prima_next.Tools.Invocation
use prima_next.Tools.Policy.{ExecutionPolicy, default_policy}
use prima_next.Tools.Registry.{RegisteredTool, ToolRegistry, returns}
use prima_next.Tools.Validator.{ToolParameterSpec}

-- Advice to generate again, as an output validator gives it.
abbrev pub regenerate_advice : ReflectionAdvice
regenerate_advice = record {
  trigger = true;
  action = regenerate;
  suggested_query = [];
  correction_proposal = codes "cite the evidence";
  confidence = 900_000;
  provenance = [];
  reason_code = codes "unsupported";
  event = none;
  metadata = [];
}

abbrev pub demo_metadata : Metadata
demo_metadata = record {
  route = some (memory_retrieval ∷ answer_generation ∷ output_validation ∷ []);
  profile = codes "simple_rag";
  task_kind = codes "question";
  generation_config = none;
  generation_count = 0;
  model_call_count = 0;
  retrieval_retry_count = 0;
  reflection_intervention_count = 0;
  correction_retrieval_retries = 0;
  correction_replans = 0;
  correction_signatures = [];
  correction_queries = [];
  retrieval_query_override = none;
  replan_reason = none;
  correction_terminal_action = none;
  state_committed = none;
}

abbrev pub demo_context : ExecutionContext
demo_context = record {
  user_input = codes "who wrote it";
  cognitive_state = empty_state 0;
  workflow_state = new_state;
  affect_update = none;
  retrieval_response = none;
  reasoning_result = none;
  plan = none;
  world_prediction = none;
  uncertainty = none;
  execution_decision = none;
  reflection_result = none;
  action_result = none;
  generation_result = none;
  output_validation = none;
  ingestion_result = none;
  memory_notes_created = [];
  memory_admission = none;
  maintenance_result = none;
  correction_attempts = [];
  output = none;
  metadata = demo_metadata;
  cancellation_requested = false;
  events = [];
  calls = 0;
}

-- Retrieval fails at the first call of any controller; validation always asks for a new answer.
abbrev demo_retrieval : Controller
demo_retrieval calls c =
    if calls == 0 then raised (codes "timeout") else returned (other (codes "passages"))

abbrev demo_answer : Controller
demo_answer calls c = returned (
    generated (record {
      outcome = answered;
      text = codes "an answer";
      selected_source_ids = [];
      errors = [];
      provider = codes "local";
      model = codes "small";
      llm_called = true;
      fallback_policy = FallbackPolicy.fail;
      fallback_used = false;
      fallback_reason = none;
    }))

abbrev demo_validation : Controller
demo_validation calls c = returned (advised (some regenerate_advice))

abbrev pub demo_engine : Engine
demo_engine = record {
  controllers =
      (memory_retrieval, demo_retrieval)
      ∷ (answer_generation, demo_answer)
      ∷ (output_validation, demo_validation)
      ∷ [];
  max_retries = 1;
  budget = default_budget;
  cancel_during = λ n. false;
}

abbrev pub adder_spec : ToolParameterSpec
adder_spec = record {
  name = codes "n";
  parameter_type = codes "int";
  required = true;
  allowed_values = [];
  min_value = none;
  max_value = none;
  min_length = none;
  max_length = none;
  allow_empty = true;
}

abbrev pub adder : RegisteredTool
adder = record {
  name = codes "adder";
  handler = λ i. returns (record {
    invocation_id = i.invocation_id;
    tool_name = i.tool_name;
    status = Invocation.success;
    output = none;
    error = none;
    audit = [];
  });
  schema = adder_spec ∷ [];
  sandbox_tags = [];
  invocation_kinds = tool_call ∷ [];
}

abbrev pub demo_registry : ToolRegistry
demo_registry = (codes "adder", adder) ∷ []

abbrev pub open_policy : ExecutionPolicy
open_policy = record default_policy {
  allowed_tools = codes "adder" ∷ [];
  allow_external_actions = true;
}

abbrev pub add_two : ToolInvocation
add_two = record {
  tool_name = codes "adder";
  arguments = (codes "n", int (pos 2)) ∷ [];
  invocation_id = codes "inv_1";
  action_id = none;
  requested_by = codes "action_executor";
  invocation_kind = tool_call;
  sandboxed = true;
  sandbox_tags = [];
}

-- A local model with one retry.
abbrev pub demo_generation : GenerationConfig
demo_generation = record {
  model = codes "small";
  provider = codes "local";
  revision = none;
  temperature = pos 0;
  top_p = none;
  top_k = none;
  repeat_penalty = none;
  seed = none;
  max_output_tokens = pos 128;
  timeout_seconds = pos 60_000_000;
  retries = pos 1;
  structured_output = no_structure;
  fallback_policy = FallbackPolicy.extractive;
}
