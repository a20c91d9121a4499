-- ===== src/Workflow/Engine/Cost.antt =====
-- What one execution may cost in controller calls (workflow/orchestration_engine.py).
use prima_next.Base.{
  ℕ, zero, suc, ◌+◌, ◌-◌, ◌*◌, ◌≤◌, ◌≡◌, Option, none, some, List, [], ◌∷◌, length, get_or, arith,
}
use prima_next.Workflow.Context.{ExecutionContext}
use prima_next.Workflow.Engine.{
  Engine, Round, onward, halt_cancelled, halt_failed, run_round, run_phases, run_route, route,
  execute, started, conclude,
}
use prima_next.Workflow.Engine.Calls.{RoundCalls, run_round-calls}
use prima_next.Workflow.Engine.Termination.{
  RoundFalls, run_round-falls, measure, potential, route_of,
}
use prima_next.Workflow.Phase.{WorkflowPhase}

-- The calls made in k rounds, each with its retries.
abbrev calls_in : Engine → ℕ → ℕ
calls_in e k = (e.max_retries + 1) * k

step_cost : (e : Engine) (m k : ℕ) → m ≤ k → calls_in e m + (e.max_retries + 1) ≤ calls_in e (suc k)
step_cost e m k h = grind arith

abbrev pub OptionCalls : ℕ → Option Round → Type 0
OptionCalls n none = Unit
OptionCalls n (some r) = RoundCalls n r

pub OptionCalls-mono : (m n : ℕ) (o : Option Round) → m ≤ n → OptionCalls m o → OptionCalls n o
OptionCalls-mono m n none h k = tt
OptionCalls-mono m n (some (onward c rest)) h k = omega arith
OptionCalls-mono m n (some (halt_cancelled c)) h k = omega arith
OptionCalls-mono m n (some (halt_failed x c)) h k = omega arith

continue-calls :
    (fuel : ℕ) (e : Engine) (n k : ℕ) (r : Round)
    → ((c : ExecutionContext) (rest : List WorkflowPhase)
        → OptionCalls (c.calls + calls_in e (measure e (c, rest))) (run_phases fuel e c rest))
    → RoundFalls e k r
    → RoundCalls (n + (e.max_retries + 1)) r
    → OptionCalls (n + calls_in e (suc k)) (elim r [
      | onward c' rest' ↦ run_phases fuel e c' rest'
      | halt_cancelled c' ↦ some (halt_cancelled c')
      | halt_failed x c' ↦ some (halt_failed x c')
    ])
continue-calls fuel e n k (onward c rest) ih f h =
    OptionCalls-mono (c.calls + calls_in e (measure e (c, rest))) (n + calls_in e (suc k))
      (run_phases fuel e c rest) (omega (arith, step_cost e (measure e (c, rest)) k f)) (ih c rest)
continue-calls fuel e n k (halt_cancelled c) ih f h = omega (arith, step_cost e 0 k)
continue-calls fuel e n k (halt_failed x c) ih f h = omega (arith, step_cost e 0 k)

run_phases-calls :
    (fuel : ℕ) (e : Engine) (c : ExecutionContext) (rest : List WorkflowPhase)
    → OptionCalls (c.calls + calls_in e (measure e (c, rest))) (run_phases fuel e c rest)
unfolding run_phases
run_phases-calls fuel e c [] = omega arith
run_phases-calls zero e c (p ∷ rest) = tt
run_phases-calls (suc fuel) e c (p ∷ rest) = OptionCalls-mono _ _ _ (omega arith) (
    continue-calls fuel e c.calls (length rest + potential e.budget c.metadata)
      (run_round e p c rest) (λ c' rest'. run_phases-calls fuel e c' rest')
      (run_round-falls e p c rest) (run_round-calls e p c rest))

run_route-calls :
    (fuel : ℕ) (e : Engine) (c : ExecutionContext) (phases : Option (List WorkflowPhase))
    → OptionCalls
        (c.calls + calls_in e (length (get_or phases []) + potential e.budget c.metadata))
        (run_route fuel e c phases)
unfolding run_route
run_route-calls fuel e c none = omega arith
run_route-calls fuel e c (some phases) = run_phases-calls fuel e c phases

pub concluded-calls :
    (n : ℕ) (o : Option Round) {c' : ExecutionContext}
    → OptionCalls n o
    → (elim o [ none ↦ none | some r ↦ some (conclude r) ]) ≡ some c'
    → c'.calls ≤ n
concluded-calls n none k s = cc
concluded-calls n (some (onward c rest)) k s = ground arith
concluded-calls n (some (halt_cancelled c)) k s = ground arith
concluded-calls n (some (halt_failed x c)) k s = ground arith

-- One execution calls the controllers at most `max_retries + 1` times for each phase of its route,
-- for each of five phases that a retrieval retry adds, and for each of nine that an intervention
-- adds, however the controllers fail or advise.
pub execute-calls :
    (fuel : ℕ) (e : Engine) (c : ExecutionContext) {c' : ExecutionContext}
    → execute fuel e c ≡ some c'
    → c'.calls
      ≤ c.calls
        + (e.max_retries + 1)
          * (length (route_of c)
              + (5 * (e.budget.max_retrieval_retries - c.metadata.retrieval_retry_count)
                  + 9
                    * (e.budget.max_reflection_interventions
                        - c.metadata.reflection_intervention_count)))
unfolding execute
execute-calls fuel e c s =
    concluded-calls _ (run_route fuel e (started c) (route c.metadata.route))
      (run_route-calls fuel e (started c) (route c.metadata.route)) s
