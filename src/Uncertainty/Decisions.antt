-- ===== src/Uncertainty/Decisions.antt =====
-- When the execution gate takes each of its decisions (uncertainty/execution_gate.py).
use prima_next.Base.{ℕ, ◌≤◌, ◌<◌, ◌≡◌, ◌⊎◌, Bool, true, false, List, [], ◌∷◌, All, arith}
use prima_next.Workflow.Advice.{Score}
use prima_next.Workflow.Context.{
  ExecutionDecision, continue, reflect, retry_retrieval, ask_for_clarification, abstain,
}
use prima_next.Uncertainty.{
  ConfidenceSignal, OverallConfidence, UncertaintyGatePolicy, is_retrieval, retrieval_uncertainty,
  evaluate,
}

abbrev pub BoundedBy : Score → ConfidenceSignal → Type 0
BoundedBy k s = is_retrieval s.source ≡ true → s.uncertainty ≤ k

All-bounded_mono :
    (a b : Score) (ss : List ConfidenceSignal) → a ≤ b → All (BoundedBy a) ss → All (BoundedBy b) ss
All-bounded_mono a b [] h k = tt
All-bounded_mono a b (s ∷ ss) h k = ((λ r. omega (arith, k.0 r)), All-bounded_mono a b ss h k.1)

retrieval-bounds : (ss : List ConfidenceSignal) → All (BoundedBy (retrieval_uncertainty ss)) ss
unfolding retrieval_uncertainty
retrieval-bounds [] = tt
retrieval-bounds (s ∷ ss) = (
  (λ r. ground arith),
  All-bounded_mono (retrieval_uncertainty ss) (retrieval_uncertainty (s ∷ ss)) ss (ground arith)
      (retrieval-bounds ss),
)

-- Execution is cleared only if the risk is below the denial threshold, no clarification is required
-- and none is called for by the scores, the uncertainty is below the reflection threshold, and every
-- retrieval signal lies below the retry threshold, unless the retries are spent.
evaluate-continue :
    (p : UncertaintyGatePolicy) (u : OverallConfidence) (risk : Score) (n : ℕ) (required : Bool)
    → (evaluate p u risk n required).decision ≡ continue
    → (risk < p.deny_world_risk)
      × (required ≡ false)
      × ((u.uncertainty < p.clarification_uncertainty)
          ⊎ (p.clarification_confidence < u.confidence))
      × (u.uncertainty < p.reflect_uncertainty)
      × ((p.max_retrieval_retries ≤ n)
          ⊎ ((retrieval_uncertainty u.signals < p.retry_retrieval_uncertainty)
              × All (BoundedBy (retrieval_uncertainty u.signals)) u.signals))
unfolding evaluate
evaluate-continue p u risk n required h = ground (arith, retrieval-bounds u.signals)

-- The gate retries retrieval only while retries are left, so a run of the gate with the counter at
-- the limit never asks for another.
evaluate-retry :
    (p : UncertaintyGatePolicy) (u : OverallConfidence) (risk : Score) (n : ℕ) (required : Bool)
    → (evaluate p u risk n required).decision ≡ retry_retrieval
    → (n < p.max_retrieval_retries)
      × (p.retry_retrieval_uncertainty ≤ retrieval_uncertainty u.signals)
unfolding evaluate
evaluate-retry p u risk n required h = ground arith

-- How strictly a decision holds execution back.
abbrev pub severity : ExecutionDecision → ℕ
severity continue = 0
severity reflect = 1
severity retry_retrieval = 2
severity ask_for_clarification = 3
severity abstain = 4

-- With the retries spent or not, a higher risk, a higher uncertainty, a higher greatest uncertainty
-- of the retrieval signals and a lower confidence never lead to a more permissive decision.
pub evaluate_monotone :
    (p : UncertaintyGatePolicy) (u v : OverallConfidence) (risk risk' : Score) (n : ℕ)
    (required : Bool)
    → risk ≤ risk'
    → u.uncertainty ≤ v.uncertainty
    → v.confidence ≤ u.confidence
    → retrieval_uncertainty u.signals ≤ retrieval_uncertainty v.signals
    → severity (evaluate p u risk n required).decision
      ≤ severity (evaluate p v risk' n required).decision
unfolding evaluate
evaluate_monotone p u v risk risk' n required r h k s = ground arith
