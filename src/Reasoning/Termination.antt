-- ===== src/Reasoning/Termination.antt =====
-- The loop of `ReasoningController.answer` (reasoning/controller.py) ends, and within its budget.
use prima_next.Base.{
  ℕ, zero, suc, ◌+◌, ◌≤◌, ◌<◌, ◌≡◌, refl, Bool, true, false, Option, some, [], ◌∷◌, ◌++◌, length,
  length-append, max, arith,
}
use prima_next.Base.Text.{Text, text_eq}
use prima_next.Workflow.Advice.{action_eq}
use prima_next.Reasoning.{
  ReasoningBudget, Route, bypass_route, single_route, adaptive_route, clarify_route,
  ReasoningRequest, EvidenceState, new_evidence, task_route, RetrievalResponse, integrate,
}
use prima_next.Reasoning.Bounds.{Continues, evaluate-Continues}
use prima_next.Reasoning.Controller.{
  ReasoningController, ReasoningResult, Retrieval, responds, fails, Turn, stops, goes_on,
  evaluate_evidence, after_retrieval, turn, search_loop, answer_on, answer,
}

-- A state that the next round takes, and a state within the budget of its request. One retrieval
-- always takes place.
record IsReady (b : ReasoningBudget) (s : EvidenceState) : Type 0 where
  budget : s.request.budget ≡ b
  calls : s.retrieval_calls + 1 ≤ max 1 b.max_retrieval_calls
  hops : length s.attempted_queries + 1 ≤ max 1 b.max_hops
  interventions : s.reflection_interventions ≤ b.max_reflection_interventions

pub record IsWithin (b : ReasoningBudget) (s : EvidenceState) : Type 0 where
  pub calls : s.retrieval_calls ≤ max 1 b.max_retrieval_calls
  pub hops : length s.attempted_queries ≤ max 1 b.max_hops
  pub interventions : s.reflection_interventions ≤ b.max_reflection_interventions

-- What a whole round leaves, with the queries tried before it.
abbrev Progresses : ReasoningBudget → ℕ → Turn → Type 0
Progresses b tried (stops r) = IsWithin b r.state
Progresses b tried (goes_on q t) =
    IsReady b t
    × (length t.attempted_queries ≡ tried + 1)
    × (length t.attempted_queries < b.max_hops)

continued :
    (b : ReasoningBudget) (tried : ℕ) (s : EvidenceState) (t : Turn)
    → IsWithin b s
    → s.request.budget ≡ b
    → length s.attempted_queries ≡ tried + 1
    → Continues s t
    → Progresses b tried t
continued b tried s (stops r) w e n h = record {
  calls = ground (arith, w.calls, h);
  hops = ground (arith, w.hops, h);
  interventions = ground (arith, w.interventions, h);
}
continued b tried s (goes_on q t) w e n h = (
  record {
    budget = ground (arith, h);
    calls = ground (arith, h);
    hops = ground (arith, h);
    interventions = ground (arith, w.interventions, h);
  },
  ground (arith, h),
  ground (arith, h),
)

integrate-keeps :
    (hop : ℕ) (query : Text) (r : RetrievalResponse) (s : EvidenceState)
    → let t = integrate hop query r s in
      (t.request ≡ s.request)
      × (t.retrieval_calls ≡ s.retrieval_calls)
      × (t.attempted_queries ≡ s.attempted_queries)
      × (t.reflection_interventions ≡ s.reflection_interventions)
unfolding integrate
integrate-keeps hop query r s = (refl, refl, refl, refl)

after_retrieval-Progresses :
    (k : ReasoningController) (once : Bool) (hop : ℕ) (query : Text) (b : ReasoningBudget)
    (s : EvidenceState) (o : Retrieval)
    → IsReady b s
    → Progresses b (length s.attempted_queries) (after_retrieval k once hop query s o)
after_retrieval-Progresses k once hop query b s (fails e) h = record {
  calls = ground (arith, h.calls);
  hops = ground (arith, h.hops);
  interventions = h.interventions;
}
after_retrieval-Progresses k once hop query b s (responds r) h =
    let s' = integrate hop query r (record s { retrieval_calls = s.retrieval_calls + 1 }) in
    let t = record s' { attempted_queries = s'.attempted_queries ++ (query ∷ []) } in
    let kept = integrate-keeps hop query r (record s { retrieval_calls = s.retrieval_calls + 1 }) in
    let longer = length-append s'.attempted_queries (query ∷ []) in
    let w : IsWithin b t = record {
      calls = ground (arith, kept, h.calls);
      hops = ground (arith, kept, longer, h.hops);
      interventions = ground (arith, kept, h.interventions);
    } in
    continued b (length s.attempted_queries) t (evaluate_evidence k once query t) w
      (ground (arith, kept, h.budget)) (ground (arith, kept, longer))
      (evaluate-Continues k once query t)

-- The loop after a round.
abbrev Ends : ReasoningBudget → Option ReasoningResult → Type 0
Ends b o = (r : ReasoningResult) × (o ≡ some r) × IsWithin b r.state

after_turn :
    (fuel : ℕ) (k : ReasoningController) (once : Bool) (hop : ℕ) (b : ReasoningBudget) (tried : ℕ)
    (t : Turn)
    → Progresses b tried t
    → ((q : Text) (s : EvidenceState)
        → IsReady b s
        → length s.attempted_queries ≡ tried + 1
        → length s.attempted_queries < b.max_hops
        → Ends b (search_loop fuel k once (hop + 1) q s))
    → Ends b (elim t [ stops r ↦ some r | goes_on q s ↦ search_loop fuel k once (hop + 1) q s ])
after_turn fuel k once hop b tried (stops r) h onward = (r, refl, h)
after_turn fuel k once hop b tried (goes_on q s) h onward = onward q s h.0 h.1 h.2

search_loop-Ends :
    (fuel : ℕ) (k : ReasoningController) (once : Bool) (hop : ℕ) (query : Text)
    (b : ReasoningBudget) (s : EvidenceState)
    → IsReady b s
    → max (length s.attempted_queries + 1) b.max_hops ≤ fuel + length s.attempted_queries
    → Ends b (search_loop fuel k once hop query s)
unfolding search_loop turn
search_loop-Ends zero k once hop query b s h enough = absurd (ground (arith, enough))
search_loop-Ends (suc fuel) k once hop query b s h enough =
    after_turn fuel k once hop b (length s.attempted_queries) (turn k once hop query s)
      (after_retrieval-Progresses k once hop query b s (k.retrieve s query) h)
      (λ q t ready longer room.
        search_loop-Ends fuel k once (hop + 1) q b t ready (ground (arith, enough, longer, room)))

new_evidence-IsReady : (r : ReasoningRequest) → IsReady r.budget (new_evidence r)
new_evidence-IsReady r = record {
  budget = refl;
  calls = ground arith;
  hops = ground arith;
  interventions = ground arith;
}

route-Ends :
    (fuel : ℕ) (k : ReasoningController) (r : ReasoningRequest) (route : Route)
    → max 1 r.budget.max_hops ≤ fuel
    → Ends r.budget (answer_on fuel k r route)
route-Ends fuel k r clarify_route h =
    (_, refl, record { calls = ground arith; hops = ground arith; interventions = ground arith })
route-Ends fuel k r bypass_route h =
    (_, refl, record { calls = ground arith; hops = ground arith; interventions = ground arith })
route-Ends fuel k r single_route h =
    search_loop-Ends fuel k true 0 r.question r.budget (new_evidence r) (new_evidence-IsReady r)
      (ground (arith, h))
route-Ends fuel k r adaptive_route h =
    search_loop-Ends fuel k false 0 r.question r.budget (new_evidence r) (new_evidence-IsReady r)
      (ground (arith, h))

-- Reasoning about a request ends within `max_hops` rounds, or one where that is 0, whatever the
-- retriever, the verifier, the generator of needs and the advisor answer: it retrieves at most
-- `max_retrieval_calls` times, or once where that is 0, tries at most `max_hops` queries, or one, and
-- asks for advice at most `max_reflection_interventions` times.
pub answer-IsWithin :
    (fuel : ℕ) (k : ReasoningController) (r : ReasoningRequest)
    → max 1 r.budget.max_hops ≤ fuel
    → (x : ReasoningResult) × (answer fuel k r ≡ some x) × IsWithin r.budget x.state
unfolding answer
answer-IsWithin fuel k r h = route-Ends fuel k r (task_route r.mode r.question) h
