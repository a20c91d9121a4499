-- ===== src/Tools/Registry.antt =====
-- tools/tool_registry.py and tools/tool_router.py: the explicit registry of tools.
use prima_next.Base.{
  ℕ, ◌≡◌, Bool, true, false, Option, none, some, List, elem, is_empty, ◌==◌, arith, if◌then◌else◌,
}
use prima_next.Base.Dict.{Dict, lookup, insert, contains, lookup-insert}
use prima_next.Base.Text.{Text, text_eq, text_beq_iff}
use prima_next.Base.Value.{Value}
use prima_next.Tools.Invocation.{ToolInvocation, ToolInvocationKind, ToolExecutionStatus, kind_eq}
use prima_next.Tools.Policy.{PolicyReason}
use prima_next.Tools.Validator.{ToolParameterSpec, ValidationError}

-- The texts of `ToolResult.error`, by where they come from.
pub data ToolError : Type 0 where
  refused_by_policy : PolicyReason → ToolError
  not_registered tags_unsupported invalid_result timed_out : ToolError
  invalid_arguments : List ValidationError → ToolError
  message : Text → ToolError

-- The entries of `ToolResult.audit`, without their timestamps.
pub data AuditEntry : Type 0 where
  invocation_received route_failed validation_forced execution_completed : AuditEntry
  execution_timeout : AuditEntry
  policy_decision : PolicyReason → AuditEntry
  tags_rejected : List Text → AuditEntry
  validation_completed : Bool → AuditEntry
  execution_failed custom : Text → AuditEntry

pub record ToolResult : Type 0 where
  pub invocation_id : Text
  pub tool_name : Text
  pub status : ToolExecutionStatus
  pub output : Option Value
  pub error : Option ToolError
  pub audit : List AuditEntry

-- What a handler does: return a result or something else, or raise.
pub data Response : Type 0 where
  returns : ToolResult → Response
  returns_other : Response
  raises_timeout : Response
  raises : Text → Response
  -- an awaitable: after that many microseconds it does what the rest says
  awaits : ℕ → Response → Response

pub record RegisteredTool : Type 0 where
  pub name : Text
  pub handler : ToolInvocation → Response
  pub schema : List ToolParameterSpec
  pub sandbox_tags : List Text
  pub invocation_kinds : List ToolInvocationKind

abbrev pub ToolRegistry : Type 0
ToolRegistry = Dict Text RegisteredTool

-- `register`: none where the name is empty or taken, which raises.
unfoldable pub register : RegisteredTool → ToolRegistry → Option ToolRegistry
register t r =
    if is_empty t.name then none else if contains t.name r then none else some (insert t.name t r)

abbrev pub routed : ToolInvocation → Option RegisteredTool → Option RegisteredTool
routed i none = none
routed i (some t) = if elem i.invocation_kind t.invocation_kinds then some t else none

-- `ToolRouter.route`
unfoldable pub route : ToolRegistry → ToolInvocation → Option RegisteredTool
route r i = if is_empty i.tool_name then none else routed i (lookup i.tool_name r)

-- The kind test of the router passes.
abbrev pub supports : RegisteredTool → ToolInvocation → Bool
supports t i = elem i.invocation_kind t.invocation_kinds

-- A registration that succeeds had a name that was neither empty nor taken; the tool is then found
-- under its name and every other name finds what it found before.
register_lem :
    (t : RegisteredTool) (r : ToolRegistry) (k : Text) {r' : ToolRegistry}
    → register t r ≡ some r'
    → (is_empty t.name ≡ false)
      × (contains t.name r ≡ false)
      × (lookup k r' ≡ (if t.name == k then some t else lookup k r))
unfolding register
register_lem t r k h = ground (arith, lookup-insert t.name k t r)

-- A registered tool is never replaced: whatever is registered later, its name still finds it.
register_stable :
    (t u : RegisteredTool) (r : ToolRegistry) (k : Text) {r' : ToolRegistry}
    → lookup k r ≡ some u
    → register t r ≡ some r'
    → lookup k r' ≡ some u
unfolding register
register_stable t u r k found h = ground (arith, lookup-insert t.name k t r, text_beq_iff t.name k)

-- The router finds a tool only under the invocation's own name, and only one that supports its kind.
route_sound :
    (r : ToolRegistry) (i : ToolInvocation) {t : RegisteredTool}
    → route r i ≡ some t
    → (lookup i.tool_name r ≡ some t) × (supports t i ≡ true)
unfolding route
route_sound r i h = ground arith
