-- ===== src/Workflow/Engine/Requests.antt =====
-- The request to cancel that comes during a controller call is on record after the call, whatever
-- the round does (workflow/orchestration_engine.py, workflow/execution_context.py: `request_cancel`).
use prima_next.Base.{
  ℕ, zero, suc, ◌+◌, ◌≤◌, ◌≡◌, ◌≢◌, ◌⊎◌, if-cases, false, inl, inr, refl, subst, sym, Bool, true,
  Option-cases, List, ◌∙◌, arith,
}
use prima_next.Base.Dict.{lookup}
use prima_next.Base.Text.{Text}
use prima_next.Workflow.Advice.{ReflectionAction, ReflectionAdvice}
use prima_next.Workflow.Context.{ExecutionContext, PhaseResult, Stage, request_cancel}
use prima_next.Workflow.Correction.{CorrectionBudget, review}
use prima_next.Workflow.Correction.Completion.{complete}
use prima_next.Workflow.Engine.{
  Engine, called, settle_routed, Outcome, returned, raised, task_cancelled, Attempt, stored, erred,
  interrupted, Work, Round, onward, PhaseEnd, finished, crashed, stopped, call, settle,
  attempt_once, fail_phase, retry_phase, execute_phase, gate_retry, apply_advice, close_attempts,
  count_generation, completed_phase, after_phase, end_phase, start_phase, run_round,
}
use prima_next.Workflow.Engine.Calls.{RoutedCalls, route_phase_output-calls, after_phase-calls}
use prima_next.Workflow.Engine.Corrections.{
  skip_phase, correction_phases, correct, phase_advice, stage_of,
}
use prima_next.Workflow.Engine.Output.{Routed, routed, rejected, route_phase_output}
use prima_next.Workflow.Phase.{WorkflowPhase, phase_eq}

-- The call of that number has not been made yet, or the request to cancel is on record.
abbrev pub Flag : ℕ → ExecutionContext → Type 0
Flag k c = (c.calls ≤ k) ⊎ (c.cancellation_requested ≡ true)

abbrev RoutedFlag : Bool → Routed → Type 0
RoutedFlag b (routed c) = c.cancellation_requested ≡ b
RoutedFlag b (rejected x) = Unit

route_phase_output-flag :
    (p : WorkflowPhase) (r : PhaseResult) (c : ExecutionContext)
    → RoutedFlag c.cancellation_requested (route_phase_output p r c)
unfolding route_phase_output
route_phase_output-flag p r c = ground arith

abbrev AttemptFlags : ℕ → Attempt → Type 0
AttemptFlags k (stored c) = Flag k c
AttemptFlags k (erred x c) = Flag k c
AttemptFlags k (interrupted c) = Flag k c

before : (n k : ℕ) → n ≤ k → n ≢ k → n + 1 ≤ k
before n k h d = omega (arith, h, d)

called-Flag :
    (e : Engine) (k : ℕ) (c : ExecutionContext)
    → e.cancel_during k ≡ true
    → Flag k c
    → Flag k (called e c)
called-Flag e k c h (inr f) =
    if-cases (Flag k) (e.cancel_during c.calls) (λ _. inr refl) (λ _. inr f)
called-Flag e k c h (inl f) =
    if-cases (Flag k) (e.cancel_during c.calls) (λ _. inr refl)
      (λ other. inl (
        before c.calls k f (λ same. absurd (
          differs (e.cancel_during c.calls) (subst (λ n. e.cancel_during n ≡ true) (sym same) h)
            other))))
  where
    differs : (b : Bool) → b ≡ true → b ≡ false → ⊥
    differs b x y = cc

call-Flag :
    (e : Engine) (p : WorkflowPhase) (k : ℕ) (c : ExecutionContext)
    → e.cancel_during k ≡ true
    → Flag k c
    → Flag k (call e p c).1
unfolding call
call-Flag e p k c h f = elim (Option-cases (lookup p e.controllers)) [
  | inl missing ↦ rw (missing, call) f
  | inr (g, found) ↦ rw (found, call) (called-Flag e k c h f)
]

routed-Flags :
    (k : ℕ) (c : ExecutionContext) (r : Routed)
    → RoutedCalls c.calls r
    → RoutedFlag c.cancellation_requested r
    → Flag k c
    → AttemptFlags k (settle_routed c r)
routed-Flags k c (routed c') n b f = ground (arith, n, b, f)
routed-Flags k c (rejected x) n b f = f

settle-Flags :
    (p : WorkflowPhase) (o : Outcome) (k : ℕ) (c : ExecutionContext)
    → Flag k c
    → AttemptFlags k (settle p o c)
unfolding request_cancel
settle-Flags p (returned r) k c f =
    routed-Flags k c (route_phase_output p r c) (route_phase_output-calls p r c)
      (route_phase_output-flag p r c) f
settle-Flags p (raised x) k c f = f
settle-Flags p task_cancelled k c f = inr refl

abbrev EndFlags : ℕ → PhaseEnd → Type 0
EndFlags k (finished c) = Flag k c
EndFlags k _ = Unit

module _ (e : Engine) (k : ℕ) (h : e.cancel_during k ≡ true) where
  attempt_once-Flags :
      (p : WorkflowPhase) (c : ExecutionContext) → Flag k c → AttemptFlags k (attempt_once e p c)
  unfolding attempt_once
  attempt_once-Flags p c f = settle-Flags p (call e p c).0 k (call e p c).1 (call-Flag e p k c h f)

  retry_step-Flags :
      (n : ℕ) (p : WorkflowPhase)
      → ((c : ExecutionContext) → Flag k c → EndFlags k (execute_phase n e p c))
      → (a : Attempt) → AttemptFlags k a
      → EndFlags k (elim a [
        | stored c ↦ finished c
        | erred x c ↦ execute_phase n e p (retry_phase p x c)
        | interrupted c ↦ stopped c
      ])
  unfolding retry_phase
  retry_step-Flags n p ih (stored c) f = f
  retry_step-Flags n p ih (erred x c) f = ih (retry_phase p x c) f
  retry_step-Flags n p ih (interrupted c) f = tt

  last_step-Flags :
      (p : WorkflowPhase) (a : Attempt)
      → AttemptFlags k a
      → EndFlags k (elim a [
        | stored c ↦ finished c
        | erred x c ↦ crashed x (fail_phase p x c)
        | interrupted c ↦ stopped c
      ])
  last_step-Flags p (stored c) f = f
  last_step-Flags p (erred x c) f = tt
  last_step-Flags p (interrupted c) f = tt

  execute_phase-Flags :
      (n : ℕ) (p : WorkflowPhase) (c : ExecutionContext)
      → Flag k c
      → EndFlags k (execute_phase n e p c)
  unfolding execute_phase
  execute_phase-Flags zero p c f = last_step-Flags p (attempt_once e p c) (attempt_once-Flags p c f)
  execute_phase-Flags (suc n) p c f =
      retry_step-Flags n p (λ c'. execute_phase-Flags n p c') (attempt_once e p c)
        (attempt_once-Flags p c f)

correct-flag :
    (k : ReflectionAction) (a : ReflectionAdvice) (s : Stage) (c : ExecutionContext) (q : Text)
    → (correct k a s c q).0.cancellation_requested ≡ c.cancellation_requested
unfolding correct
correct-flag k a s c q = ground arith

correction_phases-flag :
    (b : CorrectionBudget) (c : ExecutionContext) (a : ReflectionAdvice) (p : WorkflowPhase)
    → (correction_phases b c a p).0.cancellation_requested ≡ c.cancellation_requested
unfolding correction_phases review
correction_phases-flag b c a p =
    let (c', attempt) = review b c a (stage_of p) in
    ground (arith, correct-flag a.action a (stage_of p) c' attempt.after_query)

apply_advice-flag :
    (e : Engine) (p : WorkflowPhase) (w : Work)
    → (apply_advice e p w).0.cancellation_requested ≡ w.0.cancellation_requested
unfolding apply_advice
apply_advice-flag e p (c, rest) = elim (Option-cases (phase_advice c p)) [
  | inl absent ↦ rw absent refl
  | inr (a, present) ↦ rw present (correction_phases-flag e.budget c a p)
]

gate_retry-flag :
    (e : Engine) (p : WorkflowPhase) (w : Work)
    → (gate_retry e p w).0.cancellation_requested ≡ w.0.cancellation_requested
unfolding gate_retry
gate_retry-flag e p (c, rest) = ground arith

close_attempts-flag :
    (p : WorkflowPhase) (w : Work)
    → (close_attempts p w).0.cancellation_requested ≡ w.0.cancellation_requested
unfolding close_attempts complete
close_attempts-flag p (c, rest) = ground arith

generation-flag :
    (p : WorkflowPhase) (c : ExecutionContext)
    → (count_generation p c).cancellation_requested ≡ c.cancellation_requested
generation-flag p c = ground arith

after_phase-flag :
    (e : Engine) (p : WorkflowPhase) (c : ExecutionContext) (rest : List WorkflowPhase)
    → (after_phase e p c rest).0.cancellation_requested ≡ c.cancellation_requested
unfolding after_phase
after_phase-flag e p c rest =
    let w : Work = (count_generation p (completed_phase p c), rest) in
    close_attempts-flag p (apply_advice e p (gate_retry e p w))
    ∙ (apply_advice-flag e p (gate_retry e p w)
        ∙ (gate_retry-flag e p w ∙ generation-flag p (completed_phase p c)))

abbrev pub RoundFlags : ℕ → Round → Type 0
RoundFlags k (onward c rest) = Flag k c
RoundFlags k _ = Unit

end_phase-Flags :
    (e : Engine) (p : WorkflowPhase) (rest : List WorkflowPhase) (k : ℕ) (r : PhaseEnd)
    → EndFlags k r
    → RoundFlags k (end_phase e p rest r)
end_phase-Flags e p rest k (finished c) f =
    ground (arith, after_phase-calls e p c rest, after_phase-flag e p c rest, f)
end_phase-Flags e p rest k (crashed x c) f = tt
end_phase-Flags e p rest k (stopped c) f = tt

pub run_round-Flags :
    (e : Engine) (k : ℕ) (p : WorkflowPhase) (c : ExecutionContext) (rest : List WorkflowPhase)
    → e.cancel_during k ≡ true
    → Flag k c
    → RoundFlags k (run_round e p c rest)
unfolding run_round
run_round-Flags e k p c rest h f =
    if-cases (RoundFlags k) (skip_phase c p) (λ _. f)
      (λ _.
        if-cases (RoundFlags k) c.cancellation_requested (λ _. tt)
          (λ _.
            end_phase-Flags e p rest k (execute_phase e.max_retries e p (start_phase p c))
              (execute_phase-Flags e k h e.max_retries p (start_phase p c) f)))
