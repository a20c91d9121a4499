-- ===== src/Workflow/Engine/Cancellation.antt =====
-- What a cancellation during a controller call stops (workflow/orchestration_engine.py: `cancel` and
-- the test in the loop of `execute`).
use prima_next.Base.{
  ℕ, zero, suc, ◌+◌, ◌≤◌, ◌≡◌, inl, inr, true, Option, none, some, List, [], ◌∷◌, arith,
}
use prima_next.Workflow.Context.{ExecutionContext}
use prima_next.Workflow.Engine.{
  Engine, Round, onward, halt_cancelled, halt_failed, run_round, run_phases, run_route, route,
  execute, started,
}
use prima_next.Workflow.Engine.Calls.{RoundCalls, run_round-calls}
use prima_next.Workflow.Engine.Conclusion.{OptionQuiet, run_phases-quiet}
use prima_next.Workflow.Engine.Cost.{OptionCalls, concluded-calls}
use prima_next.Workflow.Phase.{WorkflowPhase, phase_eq}
use prima_next.Workflow.Engine.Requests.{Flag, RoundFlags, run_round-Flags}

quiet-calls :
    (c : ExecutionContext) (n : ℕ) (o : Option Round)
    → OptionQuiet c o
    → c.calls ≤ n
    → OptionCalls n o
quiet-calls c n none q h = tt
quiet-calls c n (some (onward c' rest)) q h = omega (arith, q.0, h)
quiet-calls c n (some (halt_cancelled c')) q h = omega (arith, q.0, h)
quiet-calls c n (some (halt_failed x c')) q h = absurd q

RoundCalls-mono : (m n : ℕ) (r : Round) → m ≤ n → RoundCalls m r → RoundCalls n r
RoundCalls-mono m n (onward c rest) h k = omega (arith, h, k)
RoundCalls-mono m n (halt_cancelled c) h k = omega (arith, h, k)
RoundCalls-mono m n (halt_failed x c) h k = omega (arith, h, k)

next-calls :
    (fuel : ℕ) (e : Engine) (k n : ℕ) (r : Round)
    → ((c : ExecutionContext) (rest : List WorkflowPhase)
        → Flag k c
        → c.calls ≤ n
        → OptionCalls n (run_phases fuel e c rest))
    → RoundFlags k r
    → RoundCalls n r
    → OptionCalls n (elim r [
      | onward c' rest' ↦ run_phases fuel e c' rest'
      | halt_cancelled c' ↦ some (halt_cancelled c')
      | halt_failed x c' ↦ some (halt_failed x c')
    ])
next-calls fuel e k n (onward c rest) ih f h = ih c rest f h
next-calls fuel e k n (halt_cancelled c) ih f h = h
next-calls fuel e k n (halt_failed x c) ih f h = h

run_phases-cancelled :
    (fuel : ℕ) (e : Engine) (k : ℕ) (c : ExecutionContext) (rest : List WorkflowPhase)
    → e.cancel_during k ≡ true
    → Flag k c
    → c.calls ≤ k + (e.max_retries + 1)
    → OptionCalls (k + (e.max_retries + 1)) (run_phases fuel e c rest)
unfolding run_phases
run_phases-cancelled fuel e k c [] h f n = n
run_phases-cancelled zero e k c (p ∷ rest) h f n = tt
run_phases-cancelled (suc fuel) e k c (p ∷ rest) h (inl early) n =
    next-calls fuel e k (k + (e.max_retries + 1)) (run_round e p c rest)
      (λ c' rest' f' n'. run_phases-cancelled fuel e k c' rest' h f' n')
      (run_round-Flags e k p c rest h (inl early))
      (RoundCalls-mono (c.calls + (e.max_retries + 1)) (k + (e.max_retries + 1))
        (run_round e p c rest) (omega (arith, early)) (run_round-calls e p c rest))
run_phases-cancelled (suc fuel) e k c (p ∷ rest) h (inr requested) n =
    quiet-calls c (k + (e.max_retries + 1)) (run_phases (suc fuel) e c (p ∷ rest))
      (run_phases-quiet (suc fuel) e c (p ∷ rest) requested) n

run_route-cancelled :
    (fuel : ℕ) (e : Engine) (k : ℕ) (c : ExecutionContext) (phases : Option (List WorkflowPhase))
    → e.cancel_during k ≡ true
    → c.calls ≤ k
    → OptionCalls (k + (e.max_retries + 1)) (run_route fuel e c phases)
unfolding run_route
run_route-cancelled fuel e k c none h n = omega (arith, n)
run_route-cancelled fuel e k c (some phases) h n =
    run_phases-cancelled fuel e k c phases h (inl n) (omega (arith, n))

-- A request to cancel that comes during a controller call lets the engine make at most the retries
-- of that phase: the calls at the end are those up to the one cancelled and `max_retries` more, so
-- without retries no controller is called any more, whatever the route still holds.
pub execute-cancelled :
    (fuel : ℕ) (e : Engine) (k : ℕ) (c : ExecutionContext) {c' : ExecutionContext}
    → e.cancel_during k ≡ true
    → c.calls ≤ k
    → execute fuel e c ≡ some c'
    → c'.calls ≤ k + (e.max_retries + 1)
unfolding execute
execute-cancelled fuel e k c h n s =
    concluded-calls (k + (e.max_retries + 1))
      (run_route fuel e (started c) (route c.metadata.route))
      (run_route-cancelled fuel e k (started c) (route c.metadata.route) h n) s
