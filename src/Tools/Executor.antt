-- ===== src/Tools/Executor.antt =====
-- tools/tool_executor.py: policy, routing, sandbox tags, validation, then the handler. Beside the
-- result stands the list of the invocations that reached a handler.
pub mod Guards
use prima_next.Base.{
  ℕ, Bool, true, false, not, ◌&&◌, Option, none, some, List, [], ◌∷◌, ◌++◌, ltb, is_empty, minus,
  if◌then◌else◌,
}
use prima_next.Base.Names.{sorted_set}
use prima_next.Base.Text.{Text, codes, text_eq}
use prima_next.Tools.Invocation.{
  ToolInvocation, ToolExecutionStatus, new_invocation, success, validation_error, blocked,
  not_found, failed,
}
use prima_next.Tools.Policy.{ExecutionPolicy, PolicyDecision, evaluate_invocation}
use prima_next.Tools.Registry.{
  ToolError, refused_by_policy, not_registered, tags_unsupported, invalid_result, timed_out,
  invalid_arguments, message, AuditEntry, invocation_received, route_failed, validation_forced,
  execution_completed, execution_timeout, policy_decision, tags_rejected, validation_completed,
  execution_failed, ToolResult, Response, returns, returns_other, raises_timeout, raises, awaits,
  RegisteredTool, ToolRegistry, route,
}
use prima_next.Tools.Validator.{ToolValidationResult, validate}

abbrev pub Run : Type 0
Run = ToolResult × List ToolInvocation

abbrev pub result_of :
    ToolInvocation → ToolExecutionStatus → Option ToolError → List AuditEntry → ToolResult
result_of i s e audit = record {
  invocation_id = i.invocation_id;
  tool_name = i.tool_name;
  status = s;
  output = none;
  error = e;
  audit = audit;
}

-- Whether the time limit applies and is passed: `timeout and timeout > 0`.
abbrev pub exceeds : Option ℕ → ℕ → Bool
exceeds none n = false
exceeds (some limit) n = ltb 0 limit && ltb limit n

-- What the `await` under `wait_for` gives.
abbrev pub awaited : Option ℕ → Response → Response
awaited limit (awaits n r) = if exceeds limit n then raises_timeout else r
awaited limit r = r

-- The branches after the handler's call.
abbrev pub conclude : ToolInvocation → List AuditEntry → Response → ToolResult
conclude i audit (returns r) = record r { audit = (audit ++ (execution_completed ∷ [])) ++ r.audit }
conclude i audit returns_other =
    result_of i failed (some invalid_result) (audit ++ (execution_completed ∷ []))
conclude i audit raises_timeout =
    result_of i failed (some timed_out) (audit ++ (execution_timeout ∷ []))
conclude i audit (raises x) =
    result_of i failed (some (message x)) (audit ++ (execution_failed x ∷ []))
-- an awaitable that gives an awaitable is no `ToolResult`
conclude i audit (awaits n r) =
    result_of i failed (some invalid_result) (audit ++ (execution_completed ∷ []))

-- The invocation that is handed to the handler.
abbrev pub sanitized : ToolInvocation → ToolValidationResult → ToolInvocation
sanitized i v = new_invocation (record i { arguments = v.sanitized_arguments })

abbrev pub forced : ExecutionPolicy → List AuditEntry → List AuditEntry
forced p audit = if not p.require_validation then audit ++ (validation_forced ∷ []) else audit

run_handler :
    ExecutionPolicy → RegisteredTool → ToolInvocation → List AuditEntry → ToolInvocation → Run
run_handler p t i audit i' =
    (conclude i' (forced p audit) (awaited p.tool_timeout (t.handler i')), i' ∷ [])

-- After routing: the tool's own tags, then its schema.
unfoldable pub execute_tool :
    ExecutionPolicy → ToolInvocation → List AuditEntry → RegisteredTool → Run
unfolding run_handler
execute_tool p i audit t =
    let unsupported = minus i.sandbox_tags t.sandbox_tags in
    let v = validate i t.schema in
    let checked = audit ++ (validation_completed v.is_valid ∷ []) in
    if not (is_empty unsupported)
    then (
      result_of i blocked (some tags_unsupported)
          (audit ++ (tags_rejected (sorted_set unsupported) ∷ [])),
      [],
    )
    else if not v.is_valid
    then (result_of i validation_error (some (invalid_arguments v.errors)) checked, [])
    else run_handler p t i checked (sanitized i v)

abbrev pub execute_routed :
    ExecutionPolicy → ToolInvocation → List AuditEntry → Option RegisteredTool → Run
execute_routed p i audit none =
    (result_of i not_found (some not_registered) (audit ++ (route_failed ∷ [])), [])
execute_routed p i audit (some t) = execute_tool p i audit t

-- `ToolExecutor.execute`
unfoldable pub execute : ToolRegistry → ExecutionPolicy → ToolInvocation → ℕ → Run
unfolding execute_tool
execute r p i index =
    let d = evaluate_invocation p i index in
    let audit = invocation_received ∷ (policy_decision d.reason ∷ []) in
    if not d.allowed
    then (result_of i blocked (some (refused_by_policy d.reason)) audit, [])
    else execute_routed p i audit (route r i)
