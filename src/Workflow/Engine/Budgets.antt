-- ===== src/Workflow/Engine/Budgets.antt =====
-- The limits of a `CorrectionBudget` (workflow/correction_loop.py) hold at the end of `execute`.
use prima_next.Base.{ℕ, ◌≤◌, ◌≡◌, List, count_by}
use prima_next.Base.Text.{Text}
use prima_next.Workflow.Context.{CorrectionAttempt, ExecutionContext}
use prima_next.Workflow.Correction.{CorrectionBudget}
use prima_next.Workflow.Engine.{Engine}

abbrev pub accepted_count : List CorrectionAttempt → ℕ
accepted_count = count_by (λ a. a.accepted)

-- The counters respect the budget, and the interventions are the accepted attempts.
pub record IsWithin (b : CorrectionBudget) (c : ExecutionContext) : Type 0 where
  pub gate_retries_capped : c.metadata.retrieval_retry_count ≤ b.max_retrieval_retries
  pub retries_capped : c.metadata.correction_retrieval_retries ≤ b.max_retrieval_retries
  pub replans_capped : c.metadata.correction_replans ≤ b.max_replans
  pub interventions_capped :
      c.metadata.reflection_intervention_count ≤ b.max_reflection_interventions
  pub interventions_recorded :
      c.metadata.reflection_intervention_count ≡ accepted_count c.correction_attempts
