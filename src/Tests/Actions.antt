-- ===== src/Tests/Actions.antt =====
-- A plan with one tool call, and gate decisions.
use prima_next.Base.{
  ℕ, ◌≤◌, ◌≡◌, refl, true, false, Option, none, some, List, [], ◌∷◌, length, arith,
}
use prima_next.Base.Int.{pos}
use prima_next.Base.Text.{Text, codes}
use prima_next.Base.Value.{int}
use prima_next.Workflow.Context.{continue, retry_retrieval}
use prima_next.Tools.Invocation.{ToolInvocation}
use prima_next.Action.{
  no_op, ActionMetadata, Plan, ExecutionResult, execute, tool_invocations, invocation_kind,
}
use prima_next.Action.Limits.{execute-handler_calls}
use prima_next.Uncertainty.{
  OverallConfidence, retrieval, default_gate_policy, evaluate, retrieval_uncertainty,
}
use prima_next.Uncertainty.Decisions.{evaluate_monotone, severity}
use prima_next.Tests.Fixtures.{demo_registry, open_policy}

abbrev adder_metadata : ActionMetadata
adder_metadata = record {
  tool_name = codes "adder";
  tool_args = (codes "n", int (pos 2)) ∷ [];
  invocation_kind = none;
  execution_kind = none;
  sandboxed = true;
  sandbox_tags = [];
}

abbrev demo_plan : Plan
demo_plan = record {
  plan_id = codes "plan_1";
  execution_intent = none;
  actions =
      (record {
        action_id = codes "a1";
        action_type = codes "add";
        expected_output = [];
        metadata = adder_metadata;
      })
      ∷ [];
}

abbrev fresh : ℕ → Text
fresh n = n ∷ []

abbrev found :
    Option (ExecutionResult × List ToolInvocation) → ExecutionResult × List ToolInvocation
found none = (
  record {
    status = no_op;
    intent_type = [];
    steps = [];
    audit_log = [];
    step_count = 0;
    successful_steps = 0;
    blocked_steps = 0;
    failed_steps = 0;
    tool_invocation_count = 0;
    external_action_count = 0;
    environment_operation_count = 0;
  },
  [],
)
found (some r) = r

abbrev demo_result : ExecutionResult × List ToolInvocation
demo_result = found (execute fresh demo_registry open_policy demo_plan [])

demo_executed :
    execute fresh demo_registry open_policy demo_plan [] ≡ some (demo_result.0, demo_result.1)
unfolding execute tool_invocations invocation_kind
demo_executed = refl

execute-handler_calls_example : length demo_result.1 ≤ 3
execute-handler_calls_example =
    execute-handler_calls fresh demo_registry open_policy demo_plan [] demo_executed

-- Retrieval that is sure, and retrieval that is not.
abbrev sure : OverallConfidence
sure = record {
  confidence = 900_000;
  uncertainty = 100_000;
  signals = (record { source = retrieval; confidence = 900_000; uncertainty = 100_000 }) ∷ [];
}

abbrev unsure : OverallConfidence
unsure = record {
  confidence = 400_000;
  uncertainty = 600_000;
  signals = (record { source = retrieval; confidence = 200_000; uncertainty = 800_000 }) ∷ [];
}

demo_continue : (evaluate default_gate_policy sure 0 0 false).decision ≡ continue
unfolding evaluate retrieval_uncertainty
demo_continue = refl

demo_retry : (evaluate default_gate_policy unsure 0 0 false).decision ≡ retry_retrieval
unfolding evaluate retrieval_uncertainty
demo_retry = refl

lower_risk : 0 ≤ 800_000
lower_risk = ground arith

more_uncertain : 100_000 ≤ 600_000
more_uncertain = ground arith

less_confident : 400_000 ≤ 900_000
less_confident = ground arith

less_retrieved : retrieval_uncertainty sure.signals ≤ retrieval_uncertainty unsure.signals
unfolding retrieval_uncertainty
less_retrieved = ground arith

evaluate_monotone_example :
    severity (evaluate default_gate_policy sure 0 0 false).decision
    ≤ severity (evaluate default_gate_policy unsure 800_000 0 false).decision
evaluate_monotone_example =
    evaluate_monotone default_gate_policy sure unsure 0 800_000 0 false lower_risk more_uncertain
      less_confident less_retrieved
