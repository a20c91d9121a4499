-- ===== src/Action/Limits.antt =====
-- How many handlers one plan may run (action/action_executor.py).
use prima_next.Base.{
  ℕ, ◌+◌, ◌-◌, ◌≤◌, ◌≡◌, refl, subst, ap, sym, ◌∙◌, Option, none, some, List, [], ◌∷◌, length,
  length-append, arith,
}
use prima_next.Base.Text.{Text}
use prima_next.Tools.Executor.{execute as execute_tool}
use prima_next.Tools.Executor.Guards.{execute-IsGuarded}
use prima_next.Tools.Invocation.{ToolInvocation}
use prima_next.Tools.Policy.{ExecutionPolicy}
use prima_next.Tools.Registry.{ToolRegistry}
use prima_next.Action.{
  Plan, PlanAction, ExecutionResult, Progress, Pending, AuditRecord, run_invocations,
  record_actions, internal_steps, run_plan, finish, step_progress, record_step, execute,
  tool_invocations,
}

-- One invocation runs at most one handler, and none where its index has reached the limit.
tool_calls :
    (r : ToolRegistry) (p : ExecutionPolicy) (i : ToolInvocation) (index : ℕ)
    → length (execute_tool r p i index).1 ≤ p.max_tool_invocations - index
      × (length (execute_tool r p i index).1 ≤ 1)
tool_calls r p i index = go (execute_tool r p i index).1 refl
  where
    go :
        (calls : List ToolInvocation)
        → (execute_tool r p i index).1 ≡ calls
        → (length calls ≤ p.max_tool_invocations - index) × (length calls ≤ 1)
    go [] e = (omega arith, omega arith)
    go (c ∷ cs) e =
        let (t, guarded, once, plain) = execute-IsGuarded r p i index (λ none_ran. cc) in
        let single : length (c ∷ cs) ≡ 1 = ap length (sym e ∙ once) in
        (omega (arith, guarded.permitted.within_limit), omega arith)

run-calls :
    (r : ToolRegistry) (p : ExecutionPolicy) (index : ℕ) (is : List ToolInvocation) (g : Progress)
    → length (run_invocations r p index is g).calls
      ≤ length g.calls + (p.max_tool_invocations - index)
unfolding run_invocations
run-calls r p index [] g = omega arith
run-calls r p index (i ∷ is) g = omega (
  arith,
  run-calls r p (index + 1) is (step_progress r p index i g),
  length-append g.calls (execute_tool r p i index).1,
  tool_calls r p i index,
)

record-calls :
    (p : ExecutionPolicy) (acts : List PlanAction) (g : Progress)
    → (record_actions p acts g).calls ≡ g.calls
unfolding record_actions
record-calls p [] g = refl
record-calls p (a ∷ acts) g = record-calls p acts (record_step p a g)

internal-calls :
    (p : ExecutionPolicy) (plan : Plan) (g : Progress) → (internal_steps p plan g).calls ≡ g.calls
unfolding internal_steps
internal-calls p plan g = ground (arith, record-calls p plan.actions g)

plan-calls :
    (r : ToolRegistry) (p : ExecutionPolicy) (plan : Plan) (is : List ToolInvocation) (g : Progress)
    → length (run_plan r p plan is g).calls ≤ length g.calls + p.max_tool_invocations
plan-calls r p plan [] g = omega (arith, ap length (internal-calls p plan g))
plan-calls r p plan (i ∷ is) g = omega (arith, run-calls r p 0 (i ∷ is) g)

abbrev OptionCalls : ℕ → Option (ExecutionResult × List ToolInvocation) → Type 0
OptionCalls n none = Unit
OptionCalls n (some (x, calls)) = length calls ≤ n

finish-calls :
    (r : ToolRegistry) (p : ExecutionPolicy) (plan : Plan) (log : List AuditRecord) (o : Pending)
    → OptionCalls p.max_tool_invocations (finish r p plan log o)
finish-calls r p plan log none = tt
finish-calls r p plan log (some is) =
    omega (arith, plan-calls r p plan is (record { steps = []; log = log; calls = [] }))

-- However many tool invocations a plan asks for, at most `max_tool_invocations` handlers run.
pub execute-handler_calls :
    (fresh : ℕ → Text) (r : ToolRegistry) (p : ExecutionPolicy) (plan : Plan)
    (log : List AuditRecord) {x : ExecutionResult} {calls : List ToolInvocation}
    → execute fresh r p plan log ≡ some (x, calls)
    → length calls ≤ p.max_tool_invocations
unfolding execute
execute-handler_calls fresh r p plan log h =
    subst (OptionCalls p.max_tool_invocations) h
      (finish-calls r p plan _ (tool_invocations fresh plan))
