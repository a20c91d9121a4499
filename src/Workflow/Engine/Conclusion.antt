-- ===== src/Workflow/Engine/Conclusion.antt =====
-- How `execute` ends (workflow/orchestration_engine.py): its status, its last event, cancellation.
use prima_next.Base.{
  ℕ, zero, suc, ◌≡◌, refl, subst, ◌⊎◌, inl, inr, true, Bool-cases, Option, none, some, List, [],
  ◌∷◌, ◌++◌, arith,
}
use prima_next.Workflow.Context.{
  ExecutionContext, WorkflowEvent, WorkflowEventType, workflow_completed, workflow_cancelled,
  workflow_failed,
}
use prima_next.Workflow.Engine.{
  Engine, Round, onward, halt_cancelled, halt_failed, run_round, run_phases, run_route, route,
  execute, started, conclude,
}
use prima_next.Workflow.Engine.Corrections.{skip_phase}
use prima_next.Workflow.Engine.Invariants.{context_from}
use prima_next.Workflow.Phase.{WorkflowPhase, WorkflowStatus, completed, cancelled, failed}

abbrev pub last_event : List WorkflowEvent → Option WorkflowEvent
last_event [] = none
last_event (x ∷ []) = some x
last_event (x ∷ (y ∷ xs)) = last_event (y ∷ xs)

last_event-append :
    (xs : List WorkflowEvent) (x : WorkflowEvent) → last_event (xs ++ (x ∷ [])) ≡ some x
last_event-append [] x = refl
last_event-append (y ∷ []) x = refl
last_event-append (y ∷ (z ∷ xs)) x = last_event-append (z ∷ xs) x

-- The event that announces a final status.
abbrev pub IsAnnouncement : WorkflowStatus → WorkflowEventType → Type 0
IsAnnouncement s t =
    ((s ≡ completed) × (t ≡ workflow_completed))
    ⊎ (((s ≡ cancelled) × (t ≡ workflow_cancelled)) ⊎ ((s ≡ failed) × (t ≡ workflow_failed)))

abbrev pub Announced : Option WorkflowEvent → WorkflowStatus → Type 0
Announced none s = ⊥
Announced (some x) s = (x.status ≡ s) × IsAnnouncement s x.event_type

abbrev pub Ends : ExecutionContext → Type 0
Ends c = Announced (last_event c.events) c.workflow_state.status

conclude-Ends : (r : Round) → Ends (conclude r)
conclude-Ends (onward c rest) = rw last_event-append (refl, inl (refl, refl))
conclude-Ends (halt_cancelled c) = rw last_event-append (refl, inr (inl (refl, refl)))
conclude-Ends (halt_failed x c) = rw last_event-append (refl, inr (inr (refl, refl)))

concluded-Ends :
    (o : Option Round) {c' : ExecutionContext}
    → (elim o [ none ↦ none | some r ↦ some (conclude r) ]) ≡ some c'
    → Ends c'
concluded-Ends none s = cc
concluded-Ends (some r) s = subst (λ o. Ends (context_from (conclude r) o)) s (conclude-Ends r)

-- An execution never ends pending or running: it is completed, cancelled or failed, and the last
-- event published announces exactly that status.
pub execute-Ends :
    (fuel : ℕ) (e : Engine) (c : ExecutionContext) {c' : ExecutionContext}
    → execute fuel e c ≡ some c'
    → Ends c'
unfolding execute
execute-Ends fuel e c s = concluded-Ends (run_route fuel e (started c) (route c.metadata.route)) s

-- What a cancelled context keeps: no controller is called and no phase completes.
abbrev pub IsQuiet : ExecutionContext → Round → Type 0
IsQuiet c (onward c' rest) =
    (c'.calls ≡ c.calls) × (c'.workflow_state.completed_phases ≡ c.workflow_state.completed_phases)
IsQuiet c (halt_cancelled c') =
    (c'.calls ≡ c.calls) × (c'.workflow_state.completed_phases ≡ c.workflow_state.completed_phases)
IsQuiet c (halt_failed x c') = ⊥

abbrev pub OptionQuiet : ExecutionContext → Option Round → Type 0
OptionQuiet c none = Unit
OptionQuiet c (some r) = IsQuiet c r

run_round_cancelled :
    (e : Engine) (p : WorkflowPhase) (c : ExecutionContext) (rest : List WorkflowPhase)
    → c.cancellation_requested ≡ true
    → (run_round e p c rest ≡ onward c rest) ⊎ (run_round e p c rest ≡ halt_cancelled c)
unfolding run_round
run_round_cancelled e p c rest h = elim (Bool-cases (skip_phase c p)) [
  | inl skipped ↦ inl (rw skipped)
  | inr due ↦ inr (rw (due, h))
]

pub run_phases-quiet :
    (fuel : ℕ) (e : Engine) (c : ExecutionContext) (rest : List WorkflowPhase)
    → c.cancellation_requested ≡ true
    → OptionQuiet c (run_phases fuel e c rest)
unfolding run_phases
run_phases-quiet fuel e c [] h = (refl, refl)
run_phases-quiet zero e c (p ∷ rest) h = tt
run_phases-quiet (suc fuel) e c (p ∷ rest) h = elim (run_round_cancelled e p c rest h) [
  | inl skipped ↦ rw (skipped, run_phases, OptionQuiet) (run_phases-quiet fuel e c rest h)
  | inr halted ↦ rw (halted, run_phases, OptionQuiet) (refl, refl)
]

concluded-quiet :
    (c : ExecutionContext) (o : Option Round) {c' : ExecutionContext}
    → OptionQuiet c o
    → (elim o [ none ↦ none | some r ↦ some (conclude r) ]) ≡ some c'
    → (c'.calls ≡ c.calls)
      × (c'.workflow_state.completed_phases ≡ c.workflow_state.completed_phases)
concluded-quiet c none k s = cc
concluded-quiet c (some (onward c' rest)) k s = ground arith
concluded-quiet c (some (halt_cancelled c')) k s = ground arith
concluded-quiet c (some (halt_failed x c')) k s = absurd k

-- Where cancellation is requested before the start, no controller is called and no phase completes.
execute-cancelled_first :
    (fuel : ℕ) (e : Engine) (c : ExecutionContext) {c' : ExecutionContext}
    {phases : List WorkflowPhase}
    → c.cancellation_requested ≡ true
    → route c.metadata.route ≡ some phases
    → execute fuel e c ≡ some c'
    → (c'.calls ≡ c.calls)
      × (c'.workflow_state.completed_phases ≡ c.workflow_state.completed_phases)
unfolding execute run_route
execute-cancelled_first fuel e c {c'} {phases} h r s =
    concluded-quiet (started c) (run_phases fuel e (started c) phases)
      (run_phases-quiet fuel e (started c) phases h)
      (subst
        (λ o.
          (elim (run_route fuel e (started c) o) [ none ↦ none | some r ↦ some (conclude r) ])
          ≡ some c')
        r s)
