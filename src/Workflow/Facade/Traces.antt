-- ===== src/Workflow/Facade/Traces.antt =====
-- What a request that was stopped or failed leaves behind (workflow/prima_workflow.py).
use prima_next.Base.{
  ℕ, ◌+◌, ◌≡◌, refl, inl, inr, true, false, ◌||◌, Option, none, some, List, [], ◌∷◌, subst,
  Option-cases, if-cases, elem, is_empty, not, ◌==◌, nat_eq, arith,
}
use prima_next.Base.Dict.{lookup, insert, lookup-insert}
use prima_next.Base.Text.{Text, codes, text_eq, text_beq_iff}
use prima_next.State.{CognitiveState, States, load, save, version_of, saved_state}
use prima_next.Workflow.Advice.{ReflectionAction, ask_user}
use prima_next.Workflow.Context.{
  ExecutionDecision, ask_for_clarification, retry_retrieval, shaped, Object, ExecutionContext,
  GenerationResult, generated, committed_state, failed,
}
use prima_next.Workflow.Engine.{Outcome, returned, raised}
use prima_next.Workflow.Engine.Corrections.{is_terminal, is_blocking, decision_of}
use prima_next.Workflow.Facade.{
  first_text, fixed_text, terminal_text, gate_text, shape_output, shape_result, commit_state,
  committed_result, MemoryServices, commit_memory, output_outcome,
}

-- The fixed text that a request is answered by, the correction's reason before the gate's.
abbrev pub IsStopText : Option ReflectionAction → Option ExecutionDecision → Text → Type 0
IsStopText (some ask_user) d t = t ≡ codes "Please clarify the request before I continue."
IsStopText (some ReflectionAction.abstain) d t = t ≡ codes "I cannot safely complete this request."
IsStopText _ (some ask_for_clarification) t =
    t ≡ codes "Please clarify the request before I continue."
IsStopText _ _ t = t ≡ codes "I cannot safely complete this request with the available evidence."

-- The output is that text, abstained, and nothing is remembered of it.
abbrev pub IsWithheld : ExecutionContext → Outcome → Type 0
IsWithheld c (returned r) =
    ((t : Text) × (r ≡ shaped (codes "abstained") (some t))
      × IsStopText c.metadata.correction_terminal_action (decision_of c.execution_decision) t)
    × ((m : MemoryServices) (repository : List Object)
        → (commit_memory m (record c { output = some r }) repository).1 ≡ repository)
IsWithheld c (raised e) = ⊥
IsWithheld c _ = ⊥

StopText : Option ReflectionAction → Option ExecutionDecision → Option Text → Type 0
StopText a d none = ⊥
StopText a d (some t) = IsStopText a d t

texts-stopped :
    (a : Option ReflectionAction) (d : Option ExecutionDecision)
    → (is_terminal a || is_blocking d) ≡ true
    → StopText a d (first_text (terminal_text a) (gate_text d))
unfolding terminal_text gate_text StopText
texts-stopped (some ask_user) d h = refl
texts-stopped (some ReflectionAction.abstain) d h = refl
texts-stopped _ (some ask_for_clarification) h = refl
texts-stopped _ (some ExecutionDecision.abstain) h = refl
texts-stopped _ (some retry_retrieval) h = refl
texts-stopped _ _ h = cc

-- Where a correction or the gate has ended the request, the output has the outcome abstained and the
-- fixed text of the reason, the correction's before the gate's, whatever was generated before, and
-- the memory keeps nothing of the turn.
pub shape_output-IsWithheld :
    (c : ExecutionContext)
    → (is_terminal c.metadata.correction_terminal_action
        || is_blocking (decision_of c.execution_decision))
      ≡ true
    → IsWithheld c (shape_output c)
unfolding shape_output commit_memory fixed_text StopText
shape_output-IsWithheld c h =
    let a = c.metadata.correction_terminal_action in
    let d = decision_of c.execution_decision in
    let stop = texts-stopped a d h in
    elim (Option-cases (first_text (terminal_text a) (gate_text d))) [
      | inl missing ↦ absurd (subst (StopText a d) missing stop)
      | inr (t, found) ↦
          rw (found, shape_output)
            ((t, refl, subst (StopText a d) found stop), λ m repository. refl)
    ]

texts-running :
    (a : Option ReflectionAction) (d : Option ExecutionDecision)
    → (is_terminal a || is_blocking d) ≡ false
    → first_text (terminal_text a) (gate_text d) ≡ none
unfolding terminal_text gate_text
texts-running a d h = ground arith

-- A context after the output phase, and what the two commits then leave as it was.
abbrev pub IsTraceless : ExecutionContext → Outcome → Type 0
IsTraceless c (returned r) =
    let c' = record c { output = some r } in
    (output_outcome (some r) ≡ codes "failed")
    × ((session : Text) (now : ℕ) (d : States)
        → commit_state session now c' d ≡ (returned (committed_state c.cognitive_state false), d))
    × ((m : MemoryServices) (repository : List Object)
        → (commit_memory m c' repository).1 ≡ repository)
IsTraceless c (raised e) = ⊥
IsTraceless c _ = ⊥

-- A failed generation in a request that nothing has stopped is reported as failed, commits no state
-- and adds nothing to the memory: session and repository are the ones before.
pub failed-IsTraceless :
    (c : ExecutionContext) (g : GenerationResult)
    → c.generation_result ≡ some (generated g)
    → g.outcome ≡ failed
    → (is_terminal c.metadata.correction_terminal_action
        || is_blocking (decision_of c.execution_decision))
      ≡ false
    → IsTraceless c (shape_output c)
unfolding shape_output shape_result commit_memory commit_state fixed_text
failed-IsTraceless c g e f h =
    rw
      (
        texts-running c.metadata.correction_terminal_action (decision_of c.execution_decision) h,
        e,
        f,
        shape_output,
      )
      (refl, (λ session now d. refl), λ m repository. refl)

abbrev pub IsFound : Text → ExecutionContext → States → Outcome × States → Type 0
IsFound session c d (returned (committed_state s true), d') =
    (s.version ≡ c.cognitive_state.version + 1)
    × (version_of (lookup session d) ≡ c.cognitive_state.version)
    × ((later : ℕ) → load session later d' ≡ s)
IsFound session c d (_, d') = d' ≡ d

saved-IsFound :
    (session : Text) (c : ExecutionContext) (s : CognitiveState) (d : States)
    → s.version ≡ c.cognitive_state.version + 1
    → version_of (lookup session d) ≡ c.cognitive_state.version
    → IsFound session c d (returned (committed_state s true), insert session s d)
unfolding load
saved-IsFound session c s d v u =
    (v, u, λ later. ground (arith, lookup-insert session session s d, text_beq_iff session session))

-- A commit that succeeds starts from the version that the session has, and is found by every later
-- load of the session, one version above; any other commit leaves the sessions as they were.
pub commit_state-IsFound :
    (session : Text) (now : ℕ) (c : ExecutionContext) (d : States)
    → IsFound session c d (commit_state session now c d)
unfolding commit_state save
commit_state-IsFound session now c d =
    let s = c.cognitive_state in
    let current = lookup session d in
    if-cases (IsFound session c d)
      (elem (output_outcome c.output) (codes "failed" ∷ codes "cancelled" ∷ [])) (λ met. refl)
      (λ due.
        if-cases (λ r. IsFound session c d (committed_result session r)) (is_empty session)
          (λ met. refl)
          (λ named.
            if-cases (λ r. IsFound session c d (committed_result session r))
              (not (version_of current == s.version)) (λ met. refl)
              (λ fresh.
                saved-IsFound session c (saved_state current s s.version now) d refl
                  (ground arith))))
