-- ===== src/Reasoning/Bounds.antt =====
-- What one evaluation of the evidence leaves of the budget (reasoning/controller.py).
use prima_next.Base.{
  ℕ, ◌+◌, ◌≤◌, ◌<◌, ◌≡◌, refl, Bool, Option, none, some, length, is_empty, max, leb, arith,
  if-cases,
}
use prima_next.Base.Text.{Text, text_eq}
use prima_next.Workflow.Advice.{ReflectionAdvice, ReflectionEvent, action_eq}
use prima_next.Reasoning.{
  SufficiencyStatus, sufficient, unanswerable, error, ambiguous, contradictory, need_more_evidence,
  SufficiencyDecision, EvidenceState, StopReason, stop_reason,
}
use prima_next.Reasoning.Controller.{
  ReasoningController, synthesize_answer, event_of, judge, consult, advised_query, Turn, stops,
  goes_on, after_advice, after_stop, need_for, evaluate_evidence,
}

-- The parts of the state that the budget limits are as they were.
abbrev pub Same : EvidenceState → EvidenceState → Type 0
Same s t =
    (t.request ≡ s.request)
    × (t.retrieval_calls ≡ s.retrieval_calls)
    × (t.attempted_queries ≡ s.attempted_queries)
    × (t.evidence_items ≡ s.evidence_items)
    × (t.reflection_interventions
        ≤ max s.reflection_interventions s.request.budget.max_reflection_interventions)

-- Both limits on further retrieval leave room.
abbrev pub HasRoom : EvidenceState → Type 0
HasRoom s =
    (s.retrieval_calls < s.request.budget.max_retrieval_calls)
    × (length s.attempted_queries < s.request.budget.max_hops)

-- What a round leaves, from the state after its retrieval.
abbrev pub Continues : EvidenceState → Turn → Type 0
Continues s (stops r) = Same s r.state
Continues s (goes_on q t) = Same s t × HasRoom s

synthesize_answer-Same :
    (k : ReasoningController) (s t : EvidenceState) (d : SufficiencyDecision) (reason : StopReason)
    → Same s t
    → Same s (synthesize_answer k t d reason).state
unfolding synthesize_answer
synthesize_answer-Same k s t d reason h = ground (arith, h)

judge-HasRoom :
    (s : EvidenceState) (a : Option ReflectionAdvice) (q : Text) → judge s a ≡ some q → HasRoom s
judge-HasRoom s none q h = ground arith
judge-HasRoom s (some a) q h = ground arith

-- What consulting the advisor leaves.
abbrev Consulted : EvidenceState → Option Text × EvidenceState → Type 0
Consulted s (none, t) = Same s t
Consulted s (some q, t) = Same s t × HasRoom s

judged :
    (s t : EvidenceState) (o : Option Text)
    → Same s t
    → ((q : Text) → o ≡ some q → HasRoom s)
    → Consulted s (o, t)
judged s t none h room = h
judged s t (some q) h room = (h, room q refl)

consult-Consulted :
    (event : Option ReflectionEvent)
    (advisor : Option (ReflectionEvent → EvidenceState → Text → Option ReflectionAdvice))
    (query : Text) (s : EvidenceState)
    → Consulted s (consult event advisor query s)
consult-Consulted (some event) (some advisor) query s =
    let t = record s { reflection_interventions = s.reflection_interventions + 1 } in
    if-cases (Consulted s)
      (leb s.request.budget.max_reflection_interventions s.reflection_interventions)
      (λ spent. (refl, refl, refl, refl, ground arith))
      (λ left.
        judged s t (judge t (advisor event t query)) (refl, refl, refl, refl, ground arith)
          (λ q h. judge-HasRoom t (advisor event t query) q h))
consult-Consulted (some event) none query s = (refl, refl, refl, refl, ground arith)
consult-Consulted none advisor query s = (refl, refl, refl, refl, ground arith)

after_advice-Continues :
    (k : ReasoningController) (d : SufficiencyDecision) (reason : StopReason) (s : EvidenceState)
    (c : Option Text × EvidenceState)
    → Consulted s c
    → Continues s (after_advice k d reason c)
after_advice-Continues k d reason s (none, t) h = synthesize_answer-Same k s t d reason h
after_advice-Continues k d reason s (some q, t) h =
    if-cases (Continues s) (is_empty q) (λ _. synthesize_answer-Same k s t d reason h.0) (λ _. h)

stop_reason-HasRoom :
    (elapsed : ℕ) (s : EvidenceState) (status : SufficiencyStatus) (next : Option Text)
    → stop_reason elapsed s status next ≡ none
    → HasRoom s
unfolding stop_reason
stop_reason-HasRoom elapsed s need_more_evidence next h = ground arith
stop_reason-HasRoom elapsed s sufficient next h = ground arith
stop_reason-HasRoom elapsed s ambiguous next h = ground arith
stop_reason-HasRoom elapsed s contradictory next h = ground arith
stop_reason-HasRoom elapsed s unanswerable next h = ground arith
stop_reason-HasRoom elapsed s error next h = ground arith

after_stop-Continues :
    (k : ReasoningController) (d : SufficiencyDecision) (query : Text) (s : EvidenceState)
    (need : Option Text) (o : Option StopReason)
    → (o ≡ none → HasRoom s)
    → Continues s (after_stop k d query s need o)
unfolding advised_query
after_stop-Continues k d query s need (some reason) room =
    after_advice-Continues k d reason s (consult (event_of reason) k.advisor query s)
      (consult-Consulted (event_of reason) k.advisor query s)
after_stop-Continues k d query s none none room =
    synthesize_answer-Same k s s d _ (refl, refl, refl, refl, ground arith)
after_stop-Continues k d query s (some q) none room =
    ((refl, refl, refl, refl, ground arith), room refl)

pub evaluate-Continues :
    (k : ReasoningController) (once : Bool) (query : Text) (s : EvidenceState)
    → Continues s (evaluate_evidence k once query s)
unfolding evaluate_evidence
evaluate-Continues k once query s =
    let d = k.verify s in
    let need = need_for k s d.status in
    if-cases (Continues s) once
      (λ _. synthesize_answer-Same k s s d _ (refl, refl, refl, refl, ground arith))
      (λ _.
        after_stop-Continues k d query s need
          (stop_reason (k.elapsed s.retrieval_calls) s d.status need)
          (stop_reason-HasRoom (k.elapsed s.retrieval_calls) s d.status need))
