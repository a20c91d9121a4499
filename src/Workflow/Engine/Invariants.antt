-- ===== src/Workflow/Engine/Invariants.antt =====
-- An invariant rule for `execute` (workflow/orchestration_engine.py): what the frame, the counting
-- of generations, the gate, a correction and the closing of attempts keep holds at the end.
use prima_next.Base.{ℕ, zero, suc, ◌≡◌, refl, subst, Option, none, some, List, [], ◌∷◌, arith}
use prima_next.Workflow.Context.{ExecutionContext}
use prima_next.Workflow.Engine.{
  Engine, Work, Round, onward, halt_cancelled, halt_failed, PhaseEnd, finished, crashed, stopped,
  execute_phase, count_generation, gate_retry, apply_advice, close_attempts, after_phase, end_phase,
  start_phase, completed_phase, run_round, run_phases, run_route, route, execute, started, conclude,
}
use prima_next.Workflow.Engine.Frames.{Frame, EndFrames, execute_phase-Frames}
use prima_next.Workflow.Phase.{WorkflowPhase}

abbrev round_context : Round → ExecutionContext
round_context (onward c rest) = c
round_context (halt_cancelled c) = c
round_context (halt_failed x c) = c

abbrev from_some : Round → Option Round → ExecutionContext
from_some d none = round_context d
from_some d (some r) = round_context r

abbrev pub context_from : ExecutionContext → Option ExecutionContext → ExecutionContext
context_from d none = d
context_from d (some c) = c

module _ (e : Engine) (P : ExecutionContext → Type 0)
    (by_frame : (c c' : ExecutionContext) → Frame c c' → P c → P c')
    (by_generation : (p : WorkflowPhase) (c : ExecutionContext) → P c → P (count_generation p c))
    (by_gate : (p : WorkflowPhase) (w : Work) → P w.0 → P (gate_retry e p w).0)
    (by_advice : (p : WorkflowPhase) (w : Work) → P w.0 → P (apply_advice e p w).0)
    (by_close : (p : WorkflowPhase) (w : Work) → P w.0 → P (close_attempts p w).0) where
  after_phase-keeps :
      (p : WorkflowPhase) (c : ExecutionContext) (rest : List WorkflowPhase)
      → P c
      → P (after_phase e p c rest).0
  unfolding after_phase
  after_phase-keeps p c rest h = by_close p _ (
      by_advice p _ (
        by_gate p (count_generation p (completed_phase p c), rest)
          (by_generation p (completed_phase p c)
            (by_frame c (completed_phase p c) (refl, refl) h))))

  end_phase-keeps :
      (p : WorkflowPhase) (rest : List WorkflowPhase) (c : ExecutionContext) (r : PhaseEnd)
      → EndFrames c r
      → P c
      → P (round_context (end_phase e p rest r))
  end_phase-keeps p rest c (finished c') k h = after_phase-keeps p c' rest (by_frame c c' k h)
  end_phase-keeps p rest c (crashed x c') k h = by_frame c c' k h
  end_phase-keeps p rest c (stopped c') k h = by_frame c c' k h

  run_round-keeps :
      (p : WorkflowPhase) (c : ExecutionContext) (rest : List WorkflowPhase)
      → P c
      → P (round_context (run_round e p c rest))
  unfolding run_round
  run_round-keeps p c rest h = ground (
    arith,
    end_phase-keeps p rest (start_phase p c) (execute_phase e.max_retries e p (start_phase p c))
        (execute_phase-Frames e.max_retries e p (start_phase p c))
        (by_frame c (start_phase p c) (refl, refl) h),
  )

  round-keeps :
      (fuel : ℕ) (r : Round) {r' : Round}
      → ((c : ExecutionContext) (rest : List WorkflowPhase) (r'' : Round)
          → P c
          → run_phases fuel e c rest ≡ some r''
          → P (round_context r''))
      → P (round_context r)
      → (elim r [
        | onward c' rest' ↦ run_phases fuel e c' rest'
        | halt_cancelled c' ↦ some (halt_cancelled c')
        | halt_failed x c' ↦ some (halt_failed x c')
      ])
        ≡ some r'
      → P (round_context r')
  round-keeps fuel (onward c rest) {r'} ih h s = ih c rest r' h s
  round-keeps fuel (halt_cancelled c) ih h s = subst (λ o. P (from_some (halt_cancelled c) o)) s h
  round-keeps fuel (halt_failed x c) ih h s = subst (λ o. P (from_some (halt_failed x c) o)) s h

  run_phases-keeps :
      (fuel : ℕ) (c : ExecutionContext) (rest : List WorkflowPhase) {r : Round}
      → P c
      → run_phases fuel e c rest ≡ some r
      → P (round_context r)
  unfolding run_phases
  run_phases-keeps fuel c [] h s = subst (λ o. P (from_some (onward c []) o)) s h
  run_phases-keeps zero c (p ∷ rest) h s = cc
  run_phases-keeps (suc fuel) c (p ∷ rest) h s =
      round-keeps fuel (run_round e p c rest)
        (λ c' rest' r' h' s'. run_phases-keeps fuel c' rest' {r = r'} h' s')
        (run_round-keeps p c rest h) s

  conclude-keeps : (r : Round) → P (round_context r) → P (conclude r)
  conclude-keeps (onward c rest) h = by_frame c (conclude (onward c rest)) (refl, refl) h
  conclude-keeps (halt_cancelled c) h = by_frame c (conclude (halt_cancelled c)) (refl, refl) h
  conclude-keeps (halt_failed x c) h = by_frame c (conclude (halt_failed x c)) (refl, refl) h

  concluded-keeps :
      (o : Option Round) {c' : ExecutionContext}
      → ((r : Round) → o ≡ some r → P (round_context r))
      → (elim o [ none ↦ none | some r ↦ some (conclude r) ]) ≡ some c'
      → P c'
  concluded-keeps none k s = cc
  concluded-keeps (some r) k s =
      subst (λ o. P (context_from (conclude r) o)) s (conclude-keeps r (k r refl))

  run_route-keeps :
      (fuel : ℕ) (c : ExecutionContext) (phases : Option (List WorkflowPhase)) (r : Round)
      → P c
      → run_route fuel e c phases ≡ some r
      → P (round_context r)
  unfolding run_route
  run_route-keeps fuel c none r h s = subst (λ o. P (from_some (onward c []) o)) s h
  run_route-keeps fuel c (some phases) r h s = run_phases-keeps fuel c phases h s

  pub execute-keeps :
      (fuel : ℕ) (c : ExecutionContext) {c' : ExecutionContext}
      → P c
      → execute fuel e c ≡ some c'
      → P c'
  unfolding execute
  execute-keeps fuel c h s =
      concluded-keeps (run_route fuel e (started c) (route c.metadata.route))
        (λ r.
          run_route-keeps fuel (started c) (route c.metadata.route) r
            (by_frame c (started c) (refl, refl) h))
        s
