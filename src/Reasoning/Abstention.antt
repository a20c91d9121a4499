-- ===== src/Reasoning/Abstention.antt =====
-- When no answer is made (reasoning/controller.py).
use prima_next.Base.{
  ℕ, zero, suc, ◌+◌, ◌≡◌, refl, ◌∙◌, ◌⊎◌, inl, inr, Bool, false, Option, none, some, [], ◌∷◌, ◌++◌,
  is_empty, leb, if-cases, subst,
}
use prima_next.Base.Text.{Text}
use prima_next.Workflow.Advice.{ReflectionAdvice, ReflectionEvent}
use prima_next.Reasoning.{
  adaptive_route, ReasoningRequest, SufficiencyDecision, EvidenceState, new_evidence, task_route,
  StopReason, failed, stop_reason, integrate,
}
use prima_next.Reasoning.Controller.{
  ReasoningController, ReasoningResult, Retrieval, responds, fails, abstention, synthesize_answer,
  event_of, consult, advised_query, Turn, stops, goes_on, after_advice, after_stop, need_for,
  evaluate_evidence, after_retrieval, turn, search_loop, answer,
}

-- A result made without the synthesizer: an abstention that names its reason, or a failed
-- retrieval.
pub record IsSilent (r : ReasoningResult) : Type 0 where
  pub no_calls : r.state.llm_calls ≡ 0
  pub says : (r.answer ≡ abstention r.reason) ⊎ (r.reason ≡ failed)

abbrev Quiet : Turn → Type 0
Quiet (stops r) = IsSilent r
Quiet (goes_on q s) = s.llm_calls ≡ 0

synthesize_answer-IsSilent :
    (k : ReasoningController) (s : EvidenceState) (d : SufficiencyDecision) (reason : StopReason)
    → d.answerable ≡ false
    → s.llm_calls ≡ 0
    → IsSilent (synthesize_answer k s d reason)
unfolding synthesize_answer
synthesize_answer-IsSilent k s d reason never n =
    rw never (record { no_calls = n; says = inl refl })

consult-llm_calls :
    (event : Option ReflectionEvent)
    (advisor : Option (ReflectionEvent → EvidenceState → Text → Option ReflectionAdvice))
    (query : Text) (s : EvidenceState)
    → (consult event advisor query s).1.llm_calls ≡ s.llm_calls
consult-llm_calls (some event) (some advisor) query s =
    if-cases (λ (c : Option Text × EvidenceState). c.1.llm_calls ≡ s.llm_calls)
      (leb s.request.budget.max_reflection_interventions s.reflection_interventions) (λ _. refl)
      (λ _. refl)
consult-llm_calls (some event) none query s = refl
consult-llm_calls none advisor query s = refl

after_advice-Quiet :
    (k : ReasoningController) (d : SufficiencyDecision) (reason : StopReason)
    (c : Option Text × EvidenceState)
    → d.answerable ≡ false
    → c.1.llm_calls ≡ 0
    → Quiet (after_advice k d reason c)
after_advice-Quiet k d reason (none, s) never n = synthesize_answer-IsSilent k s d reason never n
after_advice-Quiet k d reason (some q, s) never n =
    if-cases Quiet (is_empty q) (λ _. synthesize_answer-IsSilent k s d reason never n) (λ _. n)

after_stop-Quiet :
    (k : ReasoningController) (d : SufficiencyDecision) (query : Text) (s : EvidenceState)
    (need : Option Text) (o : Option StopReason)
    → d.answerable ≡ false
    → s.llm_calls ≡ 0
    → Quiet (after_stop k d query s need o)
unfolding advised_query
after_stop-Quiet k d query s need (some reason) never n =
    after_advice-Quiet k d reason (consult (event_of reason) k.advisor query s) never
      (consult-llm_calls (event_of reason) k.advisor query s ∙ n)
after_stop-Quiet k d query s none none never n = synthesize_answer-IsSilent k s d _ never n
after_stop-Quiet k d query s (some q) none never n = n

-- The verifier never finds the evidence sufficient for an answer.
module _ (k : ReasoningController)
    (never : (s : EvidenceState) → (k.verify s).answerable ≡ false) where
  evaluate-Quiet :
      (once : Bool) (query : Text) (s : EvidenceState)
      → s.llm_calls ≡ 0
      → Quiet (evaluate_evidence k once query s)
  unfolding evaluate_evidence
  evaluate-Quiet once query s n =
      let d = k.verify s in
      let need = need_for k s d.status in
      if-cases Quiet once (λ _. synthesize_answer-IsSilent k s d _ (never s) n)
        (λ _.
          after_stop-Quiet k d query s need
            (stop_reason (k.elapsed s.retrieval_calls) s d.status need) (never s) n)

  after_retrieval-Quiet :
      (once : Bool) (hop : ℕ) (query : Text) (s : EvidenceState) (o : Retrieval)
      → s.llm_calls ≡ 0
      → Quiet (after_retrieval k once hop query s o)
  unfolding integrate
  after_retrieval-Quiet once hop query s (fails e) n = record { no_calls = n; says = inr refl }
  after_retrieval-Quiet once hop query s (responds r) n =
      let s' = integrate hop query r (record s { retrieval_calls = s.retrieval_calls + 1 }) in
      evaluate-Quiet once query
        (record s' { attempted_queries = s'.attempted_queries ++ (query ∷ []) }) n

  -- What holds of the loop's result, if there is one.
  abbrev AllSilent : Option ReasoningResult → Type 0
  AllSilent none = Unit
  AllSilent (some r) = IsSilent r

  after_turn-AllSilent :
      (fuel : ℕ) (once : Bool) (hop : ℕ) (t : Turn)
      → Quiet t
      → ((q : Text) (s : EvidenceState)
          → s.llm_calls ≡ 0
          → AllSilent (search_loop fuel k once (hop + 1) q s))
      → AllSilent
          (elim t [ stops r ↦ some r | goes_on q s ↦ search_loop fuel k once (hop + 1) q s ])
  after_turn-AllSilent fuel once hop (stops r) h onward = h
  after_turn-AllSilent fuel once hop (goes_on q s) h onward = onward q s h

  search_loop-AllSilent :
      (fuel : ℕ) (once : Bool) (hop : ℕ) (query : Text) (s : EvidenceState)
      → s.llm_calls ≡ 0
      → AllSilent (search_loop fuel k once hop query s)
  unfolding search_loop turn
  search_loop-AllSilent zero once hop query s n = tt
  search_loop-AllSilent (suc fuel) once hop query s n =
      after_turn-AllSilent fuel once hop (turn k once hop query s)
        (after_retrieval-Quiet once hop query s (k.retrieve s query) n)
        (λ q t m. search_loop-AllSilent fuel once (hop + 1) q t m)

-- A question that needs evidence, of which the verifier never finds enough: no language model is
-- called, and the answer is the abstention with its stop reason, or the report of a failed retrieval,
-- whatever is retrieved and advised.
pub answer-IsSilent :
    (fuel : ℕ) (k : ReasoningController) (r : ReasoningRequest) {x : ReasoningResult}
    → ((s : EvidenceState) → (k.verify s).answerable ≡ false)
    → task_route r.mode r.question ≡ adaptive_route
    → answer fuel k r ≡ some x
    → IsSilent x
unfolding answer
answer-IsSilent fuel k r never route found =
    subst (AllSilent k never) found
      (rw route (search_loop-AllSilent k never fuel false 0 r.question (new_evidence r) refl))
