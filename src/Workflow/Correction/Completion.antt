-- ===== src/Workflow/Correction/Completion.antt =====
-- `CorrectionLoop.complete` (workflow/correction_loop.py): after-snapshots of accepted attempts.
use prima_next.Base.{
  max, Bool, true, false, not, ◌||◌, Option, none, some, map, ◌==◌, if◌then◌else◌,
}
use prima_next.Base.Int.{sub_ℕ, pos_part}
use prima_next.Base.Text.{Text, text_eq}
use prima_next.Workflow.Advice.{Score}
use prima_next.Workflow.Context.{Object, CorrectionAttempt, ExecutionContext}
use prima_next.Workflow.Correction.{
  current_query, plan_snapshot, answer_snapshot, confidence_snapshot,
}

abbrev pub same_plan : Option Object → Option Object → Bool
same_plan none none = true
same_plan (some a) (some b) = a == b
same_plan _ _ = false

abbrev pub has_changed : CorrectionAttempt → Text → Option Object → Text → Bool
has_changed a query plan answer =
    not (a.before_query == query)
    || (not (same_plan a.before_plan plan) || not (a.before_answer == answer))

-- `max(0.0, delta, 0.25 if changed else 0.0)`
unfoldable pub complete_attempt :
    Text → Option Object → Text → Score → CorrectionAttempt → CorrectionAttempt
complete_attempt query plan answer confidence a =
    let delta = sub_ℕ confidence a.before_confidence in
    if a.accepted
    then record a {
      after_query = query;
      after_plan = plan;
      after_answer = answer;
      after_confidence = confidence;
      confidence_delta = delta;
      utility = max (pos_part delta) (if has_changed a query plan answer then 250_000 else 0);
    }
    else a

unfoldable pub complete : ExecutionContext → ExecutionContext
unfolding complete_attempt
complete c = record c {
  correction_attempts =
      map
        (complete_attempt (current_query c) (plan_snapshot c.plan)
          (answer_snapshot c.generation_result)
          (confidence_snapshot c.uncertainty c.reasoning_result))
        c.correction_attempts;
}
