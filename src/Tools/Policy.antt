-- ===== src/Tools/Policy.antt =====
-- action/execution_policy.py: the sandbox policy.
use prima_next.Base.{
  ℕ, ◌<◌, ◌≡◌, ◌↔◌, refl, Bool, true, false, not, ◌&&◌, Option, some, List, [], ◌∷◌, leb, elem,
  minus, is_empty, ◌==◌, arith, if◌then◌else◌,
}
use prima_next.Base.Names.{sorted_set}
use prima_next.Base.Text.{Text, text_eq}
use prima_next.Tools.Invocation.{ToolInvocation, environment_operation, kind_eq, kind_beq_iff}

-- Why an invocation is refused, or that it is allowed.
pub data PolicyReason : Type 0 where
  empty_name external_disabled not_sandboxed environment_disabled : PolicyReason
  limit_exceeded tool_blocked tool_not_allowlisted : PolicyReason
  tags_outside : List Text → PolicyReason
  invocation_allowed : PolicyReason

pub record PolicyDecision : Type 0 where
  pub allowed : Bool
  pub reason : PolicyReason

-- Times are counted in microseconds.
pub record ExecutionPolicy : Type 0 where
  pub allowed_tools : List Text
  pub blocked_tools : List Text
  pub allow_external_actions : Bool
  pub allow_environment_operations : Bool
  pub require_validation : Bool
  pub require_sandbox : Bool
  pub max_tool_invocations : ℕ
  pub tool_timeout : Option ℕ
  pub allowed_sandbox_tags : List Text
  pub audit_enabled : Bool

abbrev pub default_policy : ExecutionPolicy
default_policy = record {
  allowed_tools = [];
  blocked_tools = [];
  allow_external_actions = false;
  allow_environment_operations = false;
  require_validation = true;
  require_sandbox = true;
  max_tool_invocations = 3;
  tool_timeout = some 5_000_000;
  allowed_sandbox_tags = [];
  audit_enabled = true;
}

abbrev pub deny : PolicyReason → PolicyDecision
deny r = record { allowed = false; reason = r }

abbrev pub check_tags : List Text → List Text → PolicyDecision
check_tags requested permitted =
    let missing = minus requested permitted in
    if not (is_empty permitted) && not (is_empty missing)
    then deny (tags_outside (sorted_set missing))
    else record { allowed = true; reason = invocation_allowed }

unfoldable pub evaluate_invocation : ExecutionPolicy → ToolInvocation → ℕ → PolicyDecision
evaluate_invocation p i index =
    if is_empty i.tool_name
    then deny empty_name
    else if not p.allow_external_actions
    then deny external_disabled
    else if p.require_sandbox && not i.sandboxed
    then deny not_sandboxed
    else if i.invocation_kind == environment_operation && not p.allow_environment_operations
    then deny environment_disabled
    else if leb p.max_tool_invocations index
    then deny limit_exceeded
    else if elem i.tool_name p.blocked_tools
    then deny tool_blocked
    else if not (elem i.tool_name p.allowed_tools)
    then deny tool_not_allowlisted
    else check_tags i.sandbox_tags p.allowed_sandbox_tags

-- What an allowed invocation has met.
pub record IsPermitted (p : ExecutionPolicy) (i : ToolInvocation) (index : ℕ) : Type 0 where
  pub named : is_empty i.tool_name ≡ false
  pub opted_in : p.allow_external_actions ≡ true
  pub within_sandbox : p.require_sandbox ≡ true → i.sandboxed ≡ true
  pub environment_allowed :
      i.invocation_kind ≡ environment_operation → p.allow_environment_operations ≡ true
  pub within_limit : index < p.max_tool_invocations
  pub not_blocked : elem i.tool_name p.blocked_tools ≡ false
  pub allowlisted : elem i.tool_name p.allowed_tools ≡ true
  pub tags_permitted :
      is_empty p.allowed_sandbox_tags ≡ false → minus i.sandbox_tags p.allowed_sandbox_tags ≡ []

is_empty-nil {ℓ} : {A : Type ℓ} (xs : List A) → is_empty xs ≡ true → xs ≡ []
is_empty-nil [] h = refl
is_empty-nil (x ∷ xs) h = cc

-- An invocation is allowed exactly when it meets every rule of the policy: it has a name, external
-- actions are enabled, it is sandboxed where that is required, environment operations are enabled
-- where it is one, its index is below the limit, and the tool is allowlisted and not blocked, with
-- no sandbox tag outside the policy's tags where the policy names any.
pub evaluate_invocation-IsPermitted :
    (p : ExecutionPolicy) (i : ToolInvocation) (index : ℕ)
    → ((evaluate_invocation p i index).allowed ≡ true) ↔ IsPermitted p i index
unfolding evaluate_invocation
evaluate_invocation-IsPermitted p i index =
    let missing = minus i.sandbox_tags p.allowed_sandbox_tags in
    (
      (λ h.
          ground
            (arith, is_empty-nil missing, kind_beq_iff i.invocation_kind environment_operation)),
      (λ h. ground (arith, kind_beq_iff i.invocation_kind environment_operation)),
    )
