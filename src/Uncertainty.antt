-- ===== src/Uncertainty.antt =====
-- uncertainty/execution_gate.py and the parts of uncertainty/ and world/ that the gate reads.
-- Scores are counted in millionths of one.
pub mod Decisions
use prima_next.Base.{
  ℕ, ◌≤◌, ◌<◌, ◌≡◌, Bool, true, false, ◌&&◌, ◌||◌, Option, none, some, List, [], ◌∷◌, leb, ltb, max,
  min, all, if◌then◌else◌,
}
use prima_next.Workflow.Advice.{Score, one}
use prima_next.Workflow.Context.{
  ExecutionDecision, continue, reflect, retry_retrieval, ask_for_clarification, abstain,
}

pub data ConfidenceSource : Type 0 where
  retrieval reflection affect planner state policy : ConfidenceSource

pub record ConfidenceSignal : Type 0 where
  pub source : ConfidenceSource
  pub confidence : Score
  pub uncertainty : Score

-- `ConfidenceSignal.__post_init__`: scores are clamped into [0, 1].
abbrev pub clamp01 : Score → Score
clamp01 x = min one x

abbrev pub new_signal : ConfidenceSignal → ConfidenceSignal
new_signal s = record s { confidence = clamp01 s.confidence; uncertainty = clamp01 s.uncertainty }

pub record OverallConfidence : Type 0 where
  pub confidence : Score
  pub uncertainty : Score
  pub signals : List ConfidenceSignal

pub record UncertaintyGatePolicy : Type 0 where
  pub reflect_uncertainty : Score
  pub retry_retrieval_uncertainty : Score
  pub clarification_uncertainty : Score
  pub clarification_confidence : Score
  pub deny_world_risk : Score
  pub max_retrieval_retries : ℕ

abbrev pub default_gate_policy : UncertaintyGatePolicy
default_gate_policy = record {
  reflect_uncertainty = 550_000;
  retry_retrieval_uncertainty = 700_000;
  clarification_uncertainty = 850_000;
  clarification_confidence = 300_000;
  deny_world_risk = 750_000;
  max_retrieval_retries = 1;
}

-- `__post_init__`: none where it raises. Scores and counts are natural numbers here.
unfoldable pub new_policy : UncertaintyGatePolicy → Option UncertaintyGatePolicy
new_policy p =
    if leb p.reflect_uncertainty one
      && (leb p.retry_retrieval_uncertainty one
          && (leb p.clarification_uncertainty one
              && (leb p.clarification_confidence one && leb p.deny_world_risk one)))
    then some p
    else none

pub data GateRule : Type 0 where
  high_risk_denial clarification_threshold retrieval_retry_threshold : GateRule
  reflection_threshold confidence_clearance : GateRule

pub record ExecutionGateResult : Type 0 where
  pub decision : ExecutionDecision
  pub rule : GateRule
  pub thresholds : UncertaintyGatePolicy

abbrev pub is_retrieval : ConfidenceSource → Bool
is_retrieval retrieval = true
is_retrieval _ = false

-- `max(signal.uncertainty for retrieval signals, default=0.0)`
unfoldable pub retrieval_uncertainty : List ConfidenceSignal → Score
retrieval_uncertainty [] = 0
retrieval_uncertainty (s ∷ ss) =
    let rest = retrieval_uncertainty ss in
    if is_retrieval s.source then max s.uncertainty rest else rest

-- `UncertaintyGate.evaluate`
unfoldable pub evaluate :
    UncertaintyGatePolicy → OverallConfidence → Score → ℕ → Bool → ExecutionGateResult
evaluate p u risk retry_count clarification_required =
    if leb p.deny_world_risk risk
    then record { decision = abstain; rule = high_risk_denial; thresholds = p }
    else if clarification_required
        || (leb p.clarification_uncertainty u.uncertainty
            && leb u.confidence p.clarification_confidence)
    then record { decision = ask_for_clarification; rule = clarification_threshold; thresholds = p }
    else if leb p.retry_retrieval_uncertainty (retrieval_uncertainty u.signals)
        && ltb retry_count p.max_retrieval_retries
    then record { decision = retry_retrieval; rule = retrieval_retry_threshold; thresholds = p }
    else if leb p.reflect_uncertainty u.uncertainty
    then record { decision = reflect; rule = reflection_threshold; thresholds = p }
    else record { decision = continue; rule = confidence_clearance; thresholds = p }
