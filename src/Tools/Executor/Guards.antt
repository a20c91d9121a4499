-- ===== src/Tools/Executor/Guards.antt =====
-- What stands between an invocation and a handler (tools/tool_executor.py).
use prima_next.Base.{
  ℕ, ◌≡◌, refl, ◌≢◌, true, Option, none, some, List, [], ◌∷◌, minus, is_empty, arith, Bool-cases,
  inl, inr,
}
use prima_next.Base.Text.{text_eq}
use prima_next.Tools.Invocation.{ToolInvocation, blocked}
use prima_next.Tools.Policy.{
  ExecutionPolicy, default_policy, evaluate_invocation, IsPermitted,
  evaluate_invocation-IsPermitted,
}
use prima_next.Tools.Registry.{
  RegisteredTool, ToolRegistry, route, AuditEntry, invocation_received, policy_decision,
}
use prima_next.Tools.Validator.{validate}
use prima_next.Tools.Validator.Soundness.{AllPlain, validate-AllPlain}
use prima_next.Tools.Executor.{sanitized, execute_tool, execute_routed, execute}

-- What holds where an invocation reached a handler.
pub record IsGuarded (r : ToolRegistry) (p : ExecutionPolicy) (i : ToolInvocation) (index : ℕ)
    (t : RegisteredTool) : Type 0 where
  pub permitted : IsPermitted p i index
  pub routed : route r i ≡ some t
  pub tags_supported : is_empty (minus i.sandbox_tags t.sandbox_tags) ≡ true
  pub validated : (validate i t.schema).is_valid ≡ true

tool_reached :
    (p : ExecutionPolicy) (i : ToolInvocation) (audit : List AuditEntry) (t : RegisteredTool)
    → (execute_tool p i audit t).1 ≢ []
    → (is_empty (minus i.sandbox_tags t.sandbox_tags) ≡ true)
      × ((validate i t.schema).is_valid ≡ true)
      × ((execute_tool p i audit t).1 ≡ sanitized i (validate i t.schema) ∷ [])
unfolding execute_tool
tool_reached p i audit t h = ground arith

routed_reached :
    (p : ExecutionPolicy) (i : ToolInvocation) (audit : List AuditEntry) (o : Option RegisteredTool)
    → (execute_routed p i audit o).1 ≢ []
    → (t : RegisteredTool) × (o ≡ some t)
      × (is_empty (minus i.sandbox_tags t.sandbox_tags) ≡ true)
      × ((validate i t.schema).is_valid ≡ true)
      × ((execute_routed p i audit o).1 ≡ sanitized i (validate i t.schema) ∷ [])
routed_reached p i audit none h = absurd (h refl)
routed_reached p i audit (some t) h =
    let (tags, valid, calls) = tool_reached p i audit t h in (t, refl, tags, valid, calls)

abbrev first_audit : ExecutionPolicy → ToolInvocation → ℕ → List AuditEntry
first_audit p i index =
    invocation_received ∷ (policy_decision (evaluate_invocation p i index).reason ∷ [])

-- A handler runs only for an invocation that the policy permits, whose tool is registered for its
-- kind and supports its sandbox tags, and whose arguments are valid. It runs once, on the same
-- request with sanitized arguments, which have JSON's shape at every depth.
pub execute-IsGuarded :
    (r : ToolRegistry) (p : ExecutionPolicy) (i : ToolInvocation) (index : ℕ)
    → (execute r p i index).1 ≢ []
    → (t : RegisteredTool) × IsGuarded r p i index t
      × ((execute r p i index).1 ≡ sanitized i (validate i t.schema) ∷ [])
      × AllPlain (sanitized i (validate i t.schema)).arguments
unfolding execute
execute-IsGuarded r p i index h = elim (Bool-cases (evaluate_invocation p i index).allowed) [
  | inl granted ↦
      let reached : (execute_routed p i (first_audit p i index) (route r i)).1 ≢ [] =
        (rw (granted, execute) at h) in
      let (t, routed, tags, valid, calls) =
        routed_reached p i (first_audit p i index) (route r i) reached in
      (
        t,
        record {
          permitted = (evaluate_invocation-IsPermitted p i index).0 granted;
          routed = routed;
          tags_supported = tags;
          validated = valid;
        },
        rw granted calls,
        validate-AllPlain i t.schema,
      )
  | inr denied ↦ absurd (h (rw denied))
]

-- Under the default policy no handler ever runs: every invocation is blocked.
execute-default_policy :
    (r : ToolRegistry) (i : ToolInvocation) (index : ℕ)
    → let (result, calls) = execute r default_policy i index in
      (calls ≡ []) × (result.status ≡ blocked)
unfolding execute evaluate_invocation
execute-default_policy r i index = ground arith

abbrev pub OpensWith : List AuditEntry → AuditEntry → AuditEntry → Type 0
OpensWith (a ∷ (b ∷ xs)) x y = (a ≡ x) × (b ≡ y)
OpensWith _ x y = ⊥

tool_audit :
    (p : ExecutionPolicy) (i : ToolInvocation) (a b : AuditEntry) (t : RegisteredTool)
    → OpensWith (execute_tool p i (a ∷ (b ∷ [])) t).0.audit a b
unfolding execute_tool
tool_audit p i a b t = ground arith

routed_audit :
    (p : ExecutionPolicy) (i : ToolInvocation) (a b : AuditEntry) (o : Option RegisteredTool)
    → OpensWith (execute_routed p i (a ∷ (b ∷ [])) o).0.audit a b
routed_audit p i a b none = (refl, refl)
routed_audit p i a b (some t) = tool_audit p i a b t

-- Every result is audited: its trail opens with the receipt and with the policy's decision and its
-- reason, on every branch, also where the handler supplies the result.
execute-audit :
    (r : ToolRegistry) (p : ExecutionPolicy) (i : ToolInvocation) (index : ℕ)
    → OpensWith
        (execute r p i index).0.audit
        invocation_received
        (policy_decision (evaluate_invocation p i index).reason)
unfolding execute
execute-audit r p i index = ground (
  arith,
  routed_audit p i invocation_received (policy_decision (evaluate_invocation p i index).reason)
      (route r i),
)
