-- ===== src/Tests/Runtime.antt =====
-- Requests and routes.
use prima_next.Base.{◌+◌, ◌*◌, ◌≤◌, ◌≡◌, refl, true, false, none, some, [], ◌∷◌, elem, arith}
use prima_next.Base.Text.{codes}
use prima_next.State.{empty_state}
use prima_next.Workflow.Context.{ExecutionContext}
use prima_next.Workflow.Phase.{state_load}
use prima_next.Runtime.Contracts.{
  conversation, factual_qa, model_only, simple_rag, component_eq, state_manager,
}
use prima_next.Runtime.Routes.{
  RoutePlan, select_route, route_matrix, model_only_components, model_only_phases,
}
use prima_next.Runtime.Routes.Order.{select_route-IsSelection, IsSelection}
use prima_next.Runtime.Routes.Executed.{RunReport, executed_components}
use prima_next.Runtime.Routes.Executed.Coverage.{is_expected}
use prima_next.Runtime.Routes.Executed.Planned.{executed_components-expected, StaysOn}
use prima_next.Runtime.Execution.{PrimaRequest, PrimaResponse, respond}
use prima_next.Runtime.Execution.Responses.{respond-IsReport, IsReport}
use prima_next.Tests.Fixtures.{demo_context, demo_metadata, demo_engine, demo_generation}

abbrev demo_request : PrimaRequest
demo_request = record {
  request_id = codes "r1";
  task_kind = conversation;
  profile = model_only;
  input_text = codes "hello";
  generation_config = none;
  metadata_keys = [];
  metadata = demo_metadata;
}

demo_fuel :
    15
      + (5 * demo_engine.budget.max_retrieval_retries
          + 9 * demo_engine.budget.max_reflection_interventions)
    ≤ 29
demo_fuel = ground arith

respond-IsReport_example :
    (r : PrimaResponse) × (respond 29 demo_engine demo_request demo_generation (empty_state 0)
      ≡ some r)
    × IsReport 29 demo_engine demo_request demo_generation
        (empty_state 0)
        r
        (select_route conversation model_only)
respond-IsReport_example =
    respond-IsReport 29 demo_engine demo_request demo_generation (empty_state 0) demo_fuel

select_route-IsSelection_example :
    IsSelection factual_qa simple_rag (select_route factual_qa simple_rag)
select_route-IsSelection_example = select_route-IsSelection factual_qa simple_rag

abbrev demo_plan : RoutePlan
demo_plan = record {
  task_kind = conversation;
  profile = model_only;
  components = model_only_components;
  phases = model_only_phases;
}

-- A run of that route which has loaded the state.
abbrev loaded_context : ExecutionContext
loaded_context = record demo_context {
  workflow_state = record (demo_context.workflow_state) { completed_phases = state_load ∷ [] };
  metadata = record demo_metadata { task_kind = codes "conversation" };
}

abbrev demo_report : RunReport
demo_report = record {
  executed_strategies = [];
  reranker_active = false;
  graph_reasoning_invoked = false;
  context_compressed = false;
  queued_count = 0;
}

loaded-StaysOn : StaysOn demo_plan loaded_context
loaded-StaysOn p h = ground arith

demo_planned : route_matrix conversation model_only ≡ some demo_plan
unfolding route_matrix
demo_planned = refl

loaded-executed : elem state_manager (executed_components demo_report loaded_context) ≡ true
unfolding executed_components
loaded-executed = refl

executed_components-expected_example : is_expected demo_plan state_manager ≡ true
executed_components-expected_example =
    executed_components-expected conversation model_only demo_plan demo_report loaded_context
      state_manager demo_planned loaded-StaysOn refl loaded-executed
