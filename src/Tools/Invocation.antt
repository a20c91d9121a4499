-- ===== src/Tools/Invocation.antt =====
-- action/tool_invocation.py and tools/tool_result.py: requests to a tool, and results.
use prima_next.Base.{ℕ, ◌≡◌, ◌↔◌, Bool, true, Option, List, Eq, nat_beq, arith}
use prima_next.Base.Dict.{Dict}
use prima_next.Base.Text.{Text, strip}
use prima_next.Base.Value.{Value}

pub data ToolInvocationKind : Type 0 where
  tool_call external_action environment_operation : ToolInvocationKind

abbrev pub kind_index : ToolInvocationKind → ℕ
kind_index tool_call = 0
kind_index external_action = 1
kind_index environment_operation = 2

abbrev pub kind_beq : ToolInvocationKind → ToolInvocationKind → Bool
kind_beq a b = nat_beq (kind_index a) (kind_index b)

pub kind_beq_iff : (a b : ToolInvocationKind) → (kind_beq a b ≡ true) ↔ (a ≡ b)
kind_beq_iff a b = ground arith

instance abbrev pub kind_eq : Eq ToolInvocationKind
kind_eq = record { equal = kind_beq; decides = kind_beq_iff }

pub record ToolInvocation : Type 0 where
  pub tool_name : Text
  pub arguments : Dict Text Value
  pub invocation_id : Text
  pub action_id : Option Text
  pub requested_by : Text
  pub invocation_kind : ToolInvocationKind
  pub sandboxed : Bool
  pub sandbox_tags : List Text

-- `__post_init__`: the name is stripped.
abbrev pub new_invocation : ToolInvocation → ToolInvocation
new_invocation i = record i { tool_name = strip i.tool_name }

pub data ToolExecutionStatus : Type 0 where
  success validation_error blocked not_found failed : ToolExecutionStatus
