-- ===== src/Action/Invocations.antt =====
-- Plans, results, and the invocations that `_tool_invocations` takes from a plan
-- (action/action_executor.py, action/execution_result.py).
use prima_next.Base.{
  ℕ, Bool, not, ◌&&◌, Option, none, some, List, [], ◌∷◌, ◌++◌, length, is_empty, ◌==◌,
  if◌then◌else◌, nat_beq,
}
use prima_next.Base.Dict.{Dict}
use prima_next.Base.Text.{Text, codes, text_eq}
use prima_next.Base.Value.{Value}
use prima_next.Tools.Invocation.{
  ToolInvocation, ToolInvocationKind, tool_call, external_action, environment_operation,
  new_invocation, kind_eq,
}
use prima_next.Tools.Registry.{ToolResult}

-- The keys of an action's or intent's metadata that are read; an empty name is an absent one.
pub record ActionMetadata : Type 0 where
  pub tool_name : Text
  pub tool_args : Dict Text Value
  pub invocation_kind : Option Text
  pub execution_kind : Option Text
  pub sandboxed : Bool
  pub sandbox_tags : List Text

pub record ExecutionIntent : Type 0 where
  pub intent_type : Text
  pub requires_external_tool : Bool
  pub tool_name : Text
  pub metadata : ActionMetadata

pub record PlanAction : Type 0 where
  pub action_id : Text
  pub action_type : Text
  pub expected_output : Text
  pub metadata : ActionMetadata

pub record Plan : Type 0 where
  pub plan_id : Text
  pub execution_intent : Option ExecutionIntent
  pub actions : List PlanAction

pub data ActionExecutionStatus : Type 0 where
  success partial blocked failed no_op : ActionExecutionStatus

abbrev pub status_index : ActionExecutionStatus → ℕ
status_index success = 0
status_index partial = 1
status_index blocked = 2
status_index failed = 3
status_index no_op = 4

abbrev pub is_status : ActionExecutionStatus → ActionExecutionStatus → Bool
is_status a b = nat_beq (status_index a) (status_index b)

pub data AuditRecord : Type 0 where
  execution_started : AuditRecord
  invocation_prepared : ToolInvocation → AuditRecord
  invocation_completed : ToolResult → AuditRecord
  internal_recorded : Text → Text → AuditRecord
  execution_completed : ActionExecutionStatus → AuditRecord

pub record ExecutionStepResult : Type 0 where
  pub action_id : Text
  pub status : ActionExecutionStatus
  pub tool_result : Option ToolResult

pub record ExecutionResult : Type 0 where
  pub status : ActionExecutionStatus
  pub intent_type : Text
  pub steps : List ExecutionStepResult
  pub audit_log : List AuditRecord
  pub step_count : ℕ
  pub successful_steps : ℕ
  pub blocked_steps : ℕ
  pub failed_steps : ℕ
  pub tool_invocation_count : ℕ
  pub external_action_count : ℕ
  pub environment_operation_count : ℕ

-- `ToolInvocationKind(kind)`: none where it raises.
abbrev pub parse_kind : Text → Option ToolInvocationKind
parse_kind k =
    if k == codes "tool_call"
    then some tool_call
    else if k == codes "external_action"
    then some external_action
    else if k == codes "environment_operation"
    then some environment_operation
    else none

abbrev pub kind_or : Option Text → Option Text → Option ToolInvocationKind
kind_or (some k) e = parse_kind k
kind_or none (some k) = parse_kind k
kind_or none none = some tool_call

unfoldable pub invocation_kind : ActionMetadata → Option ToolInvocationKind
invocation_kind m = kind_or m.invocation_kind m.execution_kind

-- The accumulator of `_tool_invocations`: none once a kind has raised.
abbrev pub Pending : Type 0
Pending = Option (List ToolInvocation)

abbrev pub add_invocation :
    (ℕ → Text)
    → Text
    → Option Text
    → ActionMetadata
    → Option ToolInvocationKind
    → List ToolInvocation
    → Pending
add_invocation fresh name id m none is = none
add_invocation fresh name id m (some k) is = some (
    is
    ++ (new_invocation (record {
      tool_name = name;
      arguments = m.tool_args;
      invocation_id = fresh (length is);
      action_id = id;
      requested_by = codes "action_executor";
      invocation_kind = k;
      sandboxed = m.sandboxed;
      sandbox_tags = m.sandbox_tags;
    })
        ∷ []))

-- `str(plan_id) or None`
abbrev pub text_or_none : Text → Option Text
text_or_none [] = none
text_or_none (c ∷ s) = some (c ∷ s)

abbrev pub from_intent : (ℕ → Text) → Text → Option ExecutionIntent → Pending
from_intent fresh id none = some []
from_intent fresh id (some n) =
    if n.requires_external_tool && not (is_empty n.tool_name)
    then add_invocation fresh n.tool_name (text_or_none id) n.metadata (invocation_kind n.metadata)
        []
    else some []

from_actions : (ℕ → Text) → List PlanAction → Pending → Pending
from_actions fresh acts none = none
from_actions fresh [] (some is) = some is
from_actions fresh (a ∷ acts) (some is) =
    if is_empty a.metadata.tool_name
    then from_actions fresh acts (some is)
    else from_actions fresh acts (
        add_invocation fresh a.metadata.tool_name (some a.action_id) a.metadata
          (invocation_kind a.metadata) is)

unfoldable pub tool_invocations : (ℕ → Text) → Plan → Pending
unfolding from_actions
tool_invocations fresh p =
    from_actions fresh p.actions (from_intent fresh p.plan_id p.execution_intent)
