-- ===== src/Action.antt =====
-- action/action_executor.py, action/action_context.py and action/execution_result.py: a plan is
-- carried out by tool invocations, or recorded action by action where it has none. A plan
-- is an object with the attributes that the code reads; `fresh` makes the invocation ids.
pub mod Invocations
pub mod Status
pub mod Limits
unfoldable pub use Invocations.*
use prima_next.Base.{
  ℕ, suc, ◌+◌, Bool, true, false, not, ◌&&◌, ◌||◌, Option, none, some, List, [], ◌∷◌, ◌++◌, all,
  any, count_by, length, is_empty, get_or, ◌==◌, if◌then◌else◌, Eq, nat_beq,
}
use prima_next.Base.Dict.{Dict}
use prima_next.Base.Text.{Text, codes, text_eq}
use prima_next.Base.Value.{Value}
use prima_next.Tools.Executor.{execute as execute_tool}
use prima_next.Tools.Invocation.{
  ToolInvocation, ToolInvocationKind, tool_call, external_action, environment_operation,
  new_invocation, kind_eq, ToolExecutionStatus,
}
use prima_next.Tools.Policy.{ExecutionPolicy}
use prima_next.Tools.Registry.{ToolResult, ToolRegistry}

unfoldable pub status_from_tool : ToolExecutionStatus → ActionExecutionStatus
status_from_tool ToolExecutionStatus.success = success
status_from_tool ToolExecutionStatus.blocked = blocked
status_from_tool ToolExecutionStatus.validation_error = blocked
status_from_tool ToolExecutionStatus.not_found = blocked
status_from_tool ToolExecutionStatus.failed = failed

abbrev pub intent_type_of : Option ExecutionIntent → Text
intent_type_of none = codes "unknown"
intent_type_of (some n) = n.intent_type

unfoldable pub aggregate_status : List ExecutionStepResult → Text → ActionExecutionStatus
aggregate_status steps intent =
    if is_empty steps
    then no_op
    else if all (λ s. is_status s.status success) steps
    then success
    else if any (λ s. is_status s.status failed) steps
    then failed
    else if any (λ s. is_status s.status blocked) steps
    then blocked
    else if intent == codes "no_op"
    then no_op
    else partial

-- `ActionContext.audit`
abbrev pub audited : ExecutionPolicy → AuditRecord → List AuditRecord → List AuditRecord
audited p r log = if p.audit_enabled then log ++ (r ∷ []) else log

-- The steps, the audit log, and the invocations that reached a handler.
pub record Progress : Type 0 where
  pub steps : List ExecutionStepResult
  pub log : List AuditRecord
  pub calls : List ToolInvocation

abbrev pub step_progress : ToolRegistry → ExecutionPolicy → ℕ → ToolInvocation → Progress → Progress
step_progress r p index i g =
    let (result, calls) = execute_tool r p i index in
    record {
      steps =
          g.steps
          ++ (record {
            action_id = get_or i.action_id i.invocation_id;
            status = status_from_tool result.status;
            tool_result = some result;
          }
              ∷ []);
      log = audited p (invocation_completed result) (audited p (invocation_prepared i) g.log);
      calls = g.calls ++ calls;
    }

-- The loop over the invocations, which are counted from `index`.
unfoldable pub run_invocations :
    ToolRegistry → ExecutionPolicy → ℕ → List ToolInvocation → Progress → Progress
run_invocations r p index [] g = g
run_invocations r p index (i ∷ is) g =
    run_invocations r p (index + 1) is (step_progress r p index i g)

abbrev pub record_step : ExecutionPolicy → PlanAction → Progress → Progress
record_step p a g = record {
  steps =
      g.steps ++ (record { action_id = a.action_id; status = success; tool_result = none } ∷ []);
  log = audited p (internal_recorded a.action_id a.action_type) g.log;
  calls = g.calls;
}

unfoldable pub record_actions : ExecutionPolicy → List PlanAction → Progress → Progress
record_actions p [] g = g
record_actions p (a ∷ acts) g = record_actions p acts (record_step p a g)

-- `_internal_steps`
unfoldable pub internal_steps : ExecutionPolicy → Plan → Progress → Progress
internal_steps p plan g =
    if is_empty plan.actions
    then record g {
      steps =
          g.steps ++ (record { action_id = plan.plan_id; status = no_op; tool_result = none } ∷ []);
    }
    else record_actions p plan.actions g

abbrev pub run_plan :
    ToolRegistry → ExecutionPolicy → Plan → List ToolInvocation → Progress → Progress
run_plan r p plan [] g = internal_steps p plan g
run_plan r p plan (i ∷ is) g = run_invocations r p 0 (i ∷ is) g

abbrev pub count_status : ActionExecutionStatus → List ExecutionStepResult → ℕ
count_status s = count_by (λ t. is_status t.status s)

abbrev pub summary : ExecutionPolicy → Plan → List ToolInvocation → Progress → ExecutionResult
summary p plan is g =
    let intent = intent_type_of plan.execution_intent in
    let status = aggregate_status g.steps intent in
    record {
      status = status;
      intent_type = intent;
      steps = g.steps;
      audit_log = audited p (execution_completed status) g.log;
      step_count = length g.steps;
      successful_steps = count_status success g.steps;
      blocked_steps = count_status blocked g.steps;
      failed_steps = count_status failed g.steps;
      tool_invocation_count = length is;
      external_action_count = count_by (λ i. i.invocation_kind == external_action) is;
      environment_operation_count = count_by (λ i. i.invocation_kind == environment_operation) is;
    }

abbrev pub finish :
    ToolRegistry
    → ExecutionPolicy
    → Plan
    → List AuditRecord
    → Pending
    → Option (ExecutionResult × List ToolInvocation)
finish r p plan log none = none
finish r p plan log (some is) =
    let g = run_plan r p plan is (record { steps = []; log = log; calls = [] }) in
    some (summary p plan is g, g.calls)

-- `ActionExecutor.execute`, on a context with that policy and an audit log: the result and the
-- invocations that reached a handler; none where an invocation kind raises.
unfoldable pub execute :
    (ℕ → Text)
    → ToolRegistry
    → ExecutionPolicy
    → Plan
    → List AuditRecord
    → Option (ExecutionResult × List ToolInvocation)
execute fresh r p plan log =
    finish r p plan (audited p execution_started log) (tool_invocations fresh plan)
