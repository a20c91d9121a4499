-- ===== src/Workflow/Engine/Termination.antt =====
-- The loop of workflow/orchestration_engine.py ends: each round drops a phase, and a round that
-- puts phases in front uses up a retry of the gate or an intervention.
use prima_next.Base.{
  ℕ, zero, suc, ◌+◌, ◌-◌, ◌*◌, ◌≤◌, ◌<◌, ◌≡◌, refl, true, false, Option, none, some, List, [], ◌∷◌,
  length, length-append, get_or, Option-cases, inl, inr, arith,
}
use prima_next.Base.Text.{Text, join_split}
use prima_next.Workflow.Advice.{ReflectionAction, ReflectionAdvice}
use prima_next.Workflow.Context.{ExecutionContext, Metadata, Stage}
use prima_next.Workflow.Correction.{
  CorrectionBudget, rejection_reason, consume_budget, review, current_query,
}
use prima_next.Workflow.Correction.Completion.{complete}
use prima_next.Workflow.Engine.{
  Engine, Work, Round, onward, halt_cancelled, halt_failed, PhaseEnd, finished, crashed, stopped,
  execute_phase, count_generation, gate_retry, apply_advice, close_attempts, after_phase, run_round,
  run_phases, run_route, route, execute, end_phase, start_phase, completed_phase, started, conclude,
}
use prima_next.Workflow.Engine.Corrections.{
  requests_retrieval_retry, correction_phases, correct, phase_advice, stage_of,
}
use prima_next.Workflow.Engine.Frames.{Frame, EndFrames, execute_phase-Frames}
use prima_next.Workflow.Phase.{WorkflowPhase}

-- How many phases may still be put in front of the route.
abbrev pub potential : CorrectionBudget → Metadata → ℕ
potential b m =
    5 * (b.max_retrieval_retries - m.retrieval_retry_count)
    + 9 * (b.max_reflection_interventions - m.reflection_intervention_count)

abbrev pub measure : Engine → Work → ℕ
measure e (c, rest) = length rest + potential e.budget c.metadata

-- Accepted advice finds an intervention left.
accepted_within :
    (b : CorrectionBudget) (m : Metadata) (a : ReflectionAdvice) (query candidate : Text)
    → rejection_reason b m a query candidate ≡ none
    → m.reflection_intervention_count < b.max_reflection_interventions
unfolding rejection_reason
accepted_within b m a query candidate h = ground arith

consume-interventions :
    (m : Metadata) (a : ReflectionAdvice) (candidate : Text)
    → (consume_budget m a candidate).reflection_intervention_count
      ≡ m.reflection_intervention_count + 1
unfolding consume_budget
consume-interventions m a candidate = ground arith

consume-retries :
    (m : Metadata) (a : ReflectionAdvice) (candidate : Text)
    → (consume_budget m a candidate).retrieval_retry_count ≡ m.retrieval_retry_count
unfolding consume_budget
consume-retries m a candidate = ground arith

-- A correction puts at most nine phases in front, and leaves the counters as `review` set them.
correct_bounds :
    (k : ReflectionAction) (a : ReflectionAdvice) (s : Stage) (c : ExecutionContext) (q : Text)
    → let (c', stages) = correct k a s c q in
      (length stages ≤ 9)
      × (c'.metadata.retrieval_retry_count ≡ c.metadata.retrieval_retry_count)
      × (c'.metadata.reflection_intervention_count ≡ c.metadata.reflection_intervention_count)
unfolding correct
correct_bounds k a s c q = ground arith

review-potential :
    (b : CorrectionBudget) (c : ExecutionContext) (a : ReflectionAdvice) (s : Stage)
    → let (c', attempt) = review b c a s in
      (attempt.accepted ≡ true → potential b c'.metadata + 9 ≡ potential b c.metadata)
      × (attempt.accepted ≡ false → c'.metadata ≡ c.metadata)
unfolding review
review-potential b c a s =
    let query = current_query c in
    let candidate = join_split a.suggested_query in
    ground (
      arith,
      accepted_within b c.metadata a query candidate,
      consume-interventions c.metadata a candidate,
      consume-retries c.metadata a candidate,
    )

correction_phases-measure :
    (b : CorrectionBudget) (c : ExecutionContext) (a : ReflectionAdvice) (p : WorkflowPhase)
    → let (c', stages) = correction_phases b c a p in
      length stages + potential b c'.metadata ≤ potential b c.metadata
unfolding correction_phases
correction_phases-measure b c a p =
    let (c', attempt) = review b c a (stage_of p) in
    ground (
      arith,
      review-potential b c a (stage_of p),
      correct_bounds a.action a (stage_of p) c' attempt.after_query,
    )

apply_advice-measure :
    (e : Engine) (p : WorkflowPhase) (w : Work) → measure e (apply_advice e p w) ≤ measure e w
unfolding apply_advice
apply_advice-measure e p (c, rest) = elim (Option-cases (phase_advice c p)) [
  | inl absent ↦ rw absent (omega arith)
  | inr (a, present) ↦ rw present (
      omega (
        arith,
        correction_phases-measure e.budget c a p,
        length-append (correction_phases e.budget c a p).1 rest,
      ))
]

gate_retry-measure :
    (e : Engine) (p : WorkflowPhase) (w : Work) → measure e (gate_retry e p w) ≤ measure e w
unfolding gate_retry requests_retrieval_retry
gate_retry-measure e p (c, rest) = ground arith

close_attempts-measure :
    (e : Engine) (p : WorkflowPhase) (w : Work) → measure e (close_attempts p w) ≤ measure e w
unfolding close_attempts complete
close_attempts-measure e p (c, rest) = ground arith

completed-measure :
    (e : Engine) (p : WorkflowPhase) (c : ExecutionContext) (rest : List WorkflowPhase)
    → measure e (count_generation p c, rest) ≡ measure e (c, rest)
completed-measure e p c rest = ground arith

after_phase-measure :
    (e : Engine) (p : WorkflowPhase) (c : ExecutionContext) (rest : List WorkflowPhase)
    → measure e (after_phase e p c rest) ≤ length rest + potential e.budget c.metadata
unfolding after_phase
after_phase-measure e p c rest =
    let done = completed_phase p c in
    let w : Work = (count_generation p done, rest) in
    let gated = gate_retry e p w in
    omega (
      arith,
      close_attempts-measure e p (apply_advice e p gated),
      apply_advice-measure e p gated,
      gate_retry-measure e p w,
      completed-measure e p done rest,
    )

Frame-potential :
    (b : CorrectionBudget) (c c' : ExecutionContext)
    → Frame c c'
    → potential b c'.metadata ≡ potential b c.metadata
Frame-potential b c c' h = rw h.0

-- A round goes on with a smaller measure than its phase and the rest had.
abbrev pub RoundFalls : Engine → ℕ → Round → Type 0
RoundFalls e k (onward c rest) = measure e (c, rest) ≤ k
RoundFalls e k (halt_cancelled c) = Unit
RoundFalls e k (halt_failed x c) = Unit

end_phase-falls :
    (e : Engine) (p : WorkflowPhase) (rest : List WorkflowPhase) (c : ExecutionContext)
    (r : PhaseEnd)
    → EndFrames c r
    → RoundFalls e (length rest + potential e.budget c.metadata) (end_phase e p rest r)
end_phase-falls e p rest c (finished c') h =
    omega (arith, after_phase-measure e p c' rest, Frame-potential e.budget c c' h)
end_phase-falls e p rest c (crashed x c') h = tt
end_phase-falls e p rest c (stopped c') h = tt

pub run_round-falls :
    (e : Engine) (p : WorkflowPhase) (c : ExecutionContext) (rest : List WorkflowPhase)
    → RoundFalls e (length rest + potential e.budget c.metadata) (run_round e p c rest)
unfolding run_round
run_round-falls e p c rest = ground (
  arith,
  end_phase-falls e p rest (start_phase p c) (execute_phase e.max_retries e p (start_phase p c))
      (execute_phase-Frames e.max_retries e p (start_phase p c)),
)

round_ends :
    (fuel : ℕ) (e : Engine) (k : ℕ) (r : Round)
    → ((c : ExecutionContext) (rest : List WorkflowPhase)
        → measure e (c, rest) ≤ fuel
        → (r' : Round) × (run_phases fuel e c rest ≡ some r'))
    → k ≤ fuel
    → RoundFalls e k r
    → (r' : Round) × ((elim r [
      | onward c' rest' ↦ run_phases fuel e c' rest'
      | halt_cancelled c' ↦ some (halt_cancelled c')
      | halt_failed x c' ↦ some (halt_failed x c')
    ])
        ≡ some r')
round_ends fuel e k (onward c rest) ih b h = ih c rest (omega arith)
round_ends fuel e k (halt_cancelled c) ih b h = (halt_cancelled c, refl)
round_ends fuel e k (halt_failed x c) ih b h = (halt_failed x c, refl)

run_phases-ends :
    (fuel : ℕ) (e : Engine) (c : ExecutionContext) (rest : List WorkflowPhase)
    → measure e (c, rest) ≤ fuel
    → (r : Round) × (run_phases fuel e c rest ≡ some r)
unfolding run_phases
run_phases-ends fuel e c [] h = (onward c [], refl)
run_phases-ends zero e c (p ∷ rest) h = absurd (omega arith)
run_phases-ends (suc fuel) e c (p ∷ rest) h =
    round_ends fuel e (length rest + potential e.budget c.metadata) (run_round e p c rest)
      (λ c' rest' h'. run_phases-ends fuel e c' rest' h') (omega arith) (run_round-falls e p c rest)

abbrev pub route_of : ExecutionContext → List WorkflowPhase
route_of c = get_or (route c.metadata.route) []

run_route-ends :
    (fuel : ℕ) (e : Engine) (c : ExecutionContext) (phases : Option (List WorkflowPhase))
    → length (get_or phases []) + potential e.budget c.metadata ≤ fuel
    → (r : Round) × (run_route fuel e c phases ≡ some r)
unfolding run_route
run_route-ends fuel e c none h = (_, refl)
run_route-ends fuel e c (some phases) h = run_phases-ends fuel e c phases h

-- A workflow execution ends, whatever the controllers return and whenever it is cancelled, within
-- as many rounds as the route has phases, five for each retrieval retry and nine for each
-- intervention that the budget leaves.
pub execute-terminates :
    (fuel : ℕ) (e : Engine) (c : ExecutionContext)
    → length (route_of c)
        + (5 * (e.budget.max_retrieval_retries - c.metadata.retrieval_retry_count)
            + 9
              * (e.budget.max_reflection_interventions - c.metadata.reflection_intervention_count))
      ≤ fuel
    → (c' : ExecutionContext) × (execute fuel e c ≡ some c')
unfolding execute
execute-terminates fuel e c h =
    let (r, ends) = run_route-ends fuel e (started c) (route c.metadata.route) h in
    (conclude r, rw (ends, execute))
