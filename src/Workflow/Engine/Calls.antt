-- ===== src/Workflow/Engine/Calls.antt =====
-- How many controller calls `execute` makes (workflow/orchestration_engine.py).
use prima_next.Base.{ℕ, zero, suc, ◌+◌, ◌≤◌, ◌≡◌, List, Option-cases, inl, inr, arith}
use prima_next.Base.Text.{Text}
use prima_next.Workflow.Advice.{ReflectionAction, ReflectionAdvice}
use prima_next.Workflow.Context.{ExecutionContext, PhaseResult, Stage, request_cancel}
use prima_next.Workflow.Correction.{CorrectionBudget, review}
use prima_next.Workflow.Correction.Completion.{complete}
use prima_next.Workflow.Engine.{
  Engine, Outcome, returned, raised, task_cancelled, Attempt, stored, erred, interrupted, Work,
  Round, onward, halt_cancelled, halt_failed, PhaseEnd, finished, crashed, stopped, call, settle,
  attempt_once, fail_phase, retry_phase, execute_phase, gate_retry, apply_advice, close_attempts,
  count_generation, completed_phase, after_phase, end_phase, start_phase, run_round,
}
use prima_next.Workflow.Engine.Corrections.{correction_phases, correct, phase_advice, stage_of}
use prima_next.Workflow.Engine.Output.{Routed, routed, rejected, route_phase_output}
use prima_next.Workflow.Phase.{WorkflowPhase}

abbrev pub RoutedCalls : ℕ → Routed → Type 0
RoutedCalls n (routed c) = c.calls ≡ n
RoutedCalls n (rejected x) = Unit

pub route_phase_output-calls :
    (p : WorkflowPhase) (r : PhaseResult) (c : ExecutionContext)
    → RoutedCalls c.calls (route_phase_output p r c)
unfolding route_phase_output
route_phase_output-calls p r c = ground arith

abbrev AttemptCalls : ℕ → Attempt → Type 0
AttemptCalls n (stored c) = c.calls ≤ n
AttemptCalls n (erred x c) = c.calls ≤ n
AttemptCalls n (interrupted c) = c.calls ≤ n

settle-calls :
    (p : WorkflowPhase) (o : Outcome) (c : ExecutionContext) (n : ℕ)
    → c.calls ≤ n
    → AttemptCalls n (settle p o c)
unfolding request_cancel
settle-calls p (returned r) c n h = ground (arith, route_phase_output-calls p r c)
settle-calls p (raised x) c n h = h
settle-calls p task_cancelled c n h = h

call-calls :
    (e : Engine) (p : WorkflowPhase) (c : ExecutionContext) → (call e p c).1.calls ≤ c.calls + 1
unfolding call
call-calls e p c = ground arith

attempt_once-calls :
    (e : Engine) (p : WorkflowPhase) (c : ExecutionContext)
    → AttemptCalls (c.calls + 1) (attempt_once e p c)
unfolding attempt_once
attempt_once-calls e p c =
    settle-calls p (call e p c).0 (call e p c).1 (c.calls + 1) (call-calls e p c)

abbrev pub EndCalls : ℕ → PhaseEnd → Type 0
EndCalls n (finished c) = c.calls ≤ n
EndCalls n (crashed x c) = c.calls ≤ n
EndCalls n (stopped c) = c.calls ≤ n

EndCalls-mono : (m n : ℕ) (r : PhaseEnd) → m ≤ n → EndCalls m r → EndCalls n r
EndCalls-mono m n (finished c) h k = omega arith
EndCalls-mono m n (crashed x c) h k = omega arith
EndCalls-mono m n (stopped c) h k = omega arith

retry_step-calls :
    (n : ℕ) (e : Engine) (p : WorkflowPhase) (k : ℕ)
    → ((c : ExecutionContext) → EndCalls (c.calls + (n + 1)) (execute_phase n e p c))
    → (a : Attempt) → AttemptCalls k a
    → EndCalls (k + (n + 1)) (elim a [
      | stored c ↦ finished c
      | erred x c ↦ execute_phase n e p (retry_phase p x c)
      | interrupted c ↦ stopped c
    ])
unfolding retry_phase
retry_step-calls n e p k ih (stored c) h = omega arith
retry_step-calls n e p k ih (erred x c) h =
    EndCalls-mono (c.calls + (n + 1)) (k + (n + 1)) (execute_phase n e p (retry_phase p x c))
      (omega arith) (ih (retry_phase p x c))
retry_step-calls n e p k ih (interrupted c) h = omega arith

-- A phase with n retries makes at most n + 1 calls of its controller.
pub execute_phase-calls :
    (n : ℕ) (e : Engine) (p : WorkflowPhase) (c : ExecutionContext)
    → EndCalls (c.calls + (n + 1)) (execute_phase n e p c)
unfolding execute_phase fail_phase
execute_phase-calls zero e p c = ground (arith, attempt_once-calls e p c)
execute_phase-calls (suc n) e p c =
    EndCalls-mono (c.calls + 1 + (n + 1)) (c.calls + (suc n + 1)) _ (omega arith) (
      retry_step-calls n e p (c.calls + 1) (λ c'. execute_phase-calls n e p c') (attempt_once e p c)
        (attempt_once-calls e p c))

correct-calls :
    (k : ReflectionAction) (a : ReflectionAdvice) (s : Stage) (c : ExecutionContext) (q : Text)
    → (correct k a s c q).0.calls ≡ c.calls
unfolding correct
correct-calls k a s c q = ground arith

correction_phases-calls :
    (b : CorrectionBudget) (c : ExecutionContext) (a : ReflectionAdvice) (p : WorkflowPhase)
    → (correction_phases b c a p).0.calls ≡ c.calls
unfolding correction_phases review
correction_phases-calls b c a p =
    let (c', attempt) = review b c a (stage_of p) in
    ground (arith, correct-calls a.action a (stage_of p) c' attempt.after_query)

apply_advice-calls :
    (e : Engine) (p : WorkflowPhase) (w : Work) → (apply_advice e p w).0.calls ≡ w.0.calls
unfolding apply_advice
apply_advice-calls e p (c, rest) = elim (Option-cases (phase_advice c p)) [
  | inl absent ↦ rw absent
  | inr (a, present) ↦ rw present (correction_phases-calls e.budget c a p)
]

gate_retry-calls :
    (e : Engine) (p : WorkflowPhase) (w : Work) → (gate_retry e p w).0.calls ≡ w.0.calls
unfolding gate_retry
gate_retry-calls e p (c, rest) = ground arith

close_attempts-calls : (p : WorkflowPhase) (w : Work) → (close_attempts p w).0.calls ≡ w.0.calls
unfolding close_attempts complete
close_attempts-calls p (c, rest) = ground arith

generation-calls :
    (p : WorkflowPhase) (c : ExecutionContext) → (count_generation p c).calls ≡ c.calls
generation-calls p c = ground arith

pub after_phase-calls :
    (e : Engine) (p : WorkflowPhase) (c : ExecutionContext) (rest : List WorkflowPhase)
    → (after_phase e p c rest).0.calls ≡ c.calls
unfolding after_phase
after_phase-calls e p c rest =
    let w : Work = (count_generation p (completed_phase p c), rest) in
    omega (
      arith,
      close_attempts-calls p (apply_advice e p (gate_retry e p w)),
      apply_advice-calls e p (gate_retry e p w),
      gate_retry-calls e p w,
      generation-calls p (completed_phase p c),
    )

abbrev pub RoundCalls : ℕ → Round → Type 0
RoundCalls n (onward c rest) = c.calls ≤ n
RoundCalls n (halt_cancelled c) = c.calls ≤ n
RoundCalls n (halt_failed x c) = c.calls ≤ n

end_phase-calls :
    (e : Engine) (p : WorkflowPhase) (rest : List WorkflowPhase) (n : ℕ) (r : PhaseEnd)
    → EndCalls n r
    → RoundCalls n (end_phase e p rest r)
end_phase-calls e p rest n (finished c) h = omega (arith, after_phase-calls e p c rest)
end_phase-calls e p rest n (crashed x c) h = h
end_phase-calls e p rest n (stopped c) h = h

pub run_round-calls :
    (e : Engine) (p : WorkflowPhase) (c : ExecutionContext) (rest : List WorkflowPhase)
    → RoundCalls (c.calls + (e.max_retries + 1)) (run_round e p c rest)
unfolding run_round
run_round-calls e p c rest = ground (
  arith,
  end_phase-calls e p rest (c.calls + (e.max_retries + 1))
      (execute_phase e.max_retries e p (start_phase p c))
      (execute_phase-calls e.max_retries e p (start_phase p c)),
)
