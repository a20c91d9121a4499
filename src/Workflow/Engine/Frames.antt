-- ===== src/Workflow/Engine/Frames.antt =====
-- What running a phase leaves alone: the correction attempts, and the metadata but for the mark of
-- a state commit.
use prima_next.Base.{zero, suc, ℕ, ◌≡◌, arith}
use prima_next.Workflow.Context.{PhaseResult, ExecutionContext, request_cancel}
use prima_next.Workflow.Engine.{
  Engine, Outcome, returned, raised, task_cancelled, Attempt, stored, erred, interrupted, PhaseEnd,
  finished, crashed, stopped, call, attempt_once, settle, fail_phase, retry_phase, execute_phase,
}
use prima_next.Workflow.Engine.Output.{Routed, routed, rejected, route_phase_output}
use prima_next.Workflow.Phase.{WorkflowPhase}

abbrev pub Frame : ExecutionContext → ExecutionContext → Type 0
Frame c c' =
    (c'.metadata ≡ record (c.metadata) { state_committed = c'.metadata.state_committed })
    × (c'.correction_attempts ≡ c.correction_attempts)

Frame-trans : (a b c : ExecutionContext) → Frame a b → Frame b c → Frame a c
Frame-trans a b c h k = ground arith

abbrev RoutedFrames : ExecutionContext → Routed → Type 0
RoutedFrames c (routed c') = Frame c c'
RoutedFrames c (rejected e) = Unit

route_phase_output-Frames :
    (p : WorkflowPhase) (r : PhaseResult) (c : ExecutionContext)
    → RoutedFrames c (route_phase_output p r c)
unfolding route_phase_output
route_phase_output-Frames p r c = ground arith

abbrev AttemptFrames : ExecutionContext → Attempt → Type 0
AttemptFrames c (stored c') = Frame c c'
AttemptFrames c (erred x c') = Frame c c'
AttemptFrames c (interrupted c') = Frame c c'

call-Frames : (e : Engine) (p : WorkflowPhase) (c : ExecutionContext) → Frame c (call e p c).1
unfolding call
call-Frames e p c = ground arith

settle-Frames :
    (p : WorkflowPhase) (o : Outcome) (c c' : ExecutionContext)
    → Frame c c'
    → AttemptFrames c (settle p o c')
unfolding request_cancel
settle-Frames p (returned r) c c' h = ground (arith, route_phase_output-Frames p r c')
settle-Frames p (raised x) c c' h = h
settle-Frames p task_cancelled c c' h = h

attempt_once-Frames :
    (e : Engine) (p : WorkflowPhase) (c : ExecutionContext) → AttemptFrames c (attempt_once e p c)
unfolding attempt_once
attempt_once-Frames e p c = settle-Frames p (call e p c).0 c (call e p c).1 (call-Frames e p c)

abbrev pub EndFrames : ExecutionContext → PhaseEnd → Type 0
EndFrames c (finished c') = Frame c c'
EndFrames c (crashed x c') = Frame c c'
EndFrames c (stopped c') = Frame c c'

EndFrames-trans :
    (a b : ExecutionContext) (r : PhaseEnd) → Frame a b → EndFrames b r → EndFrames a r
EndFrames-trans a b (finished c) h k = Frame-trans a b c h k
EndFrames-trans a b (crashed x c) h k = Frame-trans a b c h k
EndFrames-trans a b (stopped c) h k = Frame-trans a b c h k

retry_step-Frames :
    (n : ℕ) (e : Engine) (p : WorkflowPhase) (c : ExecutionContext)
    → ((c' : ExecutionContext) → EndFrames c' (execute_phase n e p c'))
    → (a : Attempt) → AttemptFrames c a
    → EndFrames c (elim a [
      | stored c' ↦ finished c'
      | erred x c' ↦ execute_phase n e p (retry_phase p x c')
      | interrupted c' ↦ stopped c'
    ])
unfolding retry_phase
retry_step-Frames n e p c ih (stored c') h = h
retry_step-Frames n e p c ih (erred x c') h =
    EndFrames-trans c (retry_phase p x c') (execute_phase n e p (retry_phase p x c')) h
      (ih (retry_phase p x c'))
retry_step-Frames n e p c ih (interrupted c') h = h

-- However often a phase is retried, the correction counters and attempts stay.
pub execute_phase-Frames :
    (n : ℕ) (e : Engine) (p : WorkflowPhase) (c : ExecutionContext)
    → EndFrames c (execute_phase n e p c)
unfolding execute_phase fail_phase
execute_phase-Frames zero e p c = ground (arith, attempt_once-Frames e p c)
execute_phase-Frames (suc n) e p c =
    retry_step-Frames n e p c (λ c'. execute_phase-Frames n e p c') (attempt_once e p c)
      (attempt_once-Frames e p c)
