-- ===== src/Tests/Corrections.antt =====
-- Reviews of advice, on a fresh request and after advice was accepted.
use prima_next.Base.{◌≡◌, refl, true, false, [], ◌∷◌}
use prima_next.Base.Text.{infix_of, lower}
use prima_next.Workflow.Advice.{ask_user, ReflectionAdvice, contains_evaluation_leakage}
use prima_next.Workflow.Context.{pre_execution, post_execution}
use prima_next.Workflow.Correction.{CorrectionBudget, default_budget, review}
use prima_next.Workflow.Correction.Acceptance.{
  review-IsAdmissible, review_once, review_all, signature_of, IsAdmissible,
}
use prima_next.Tests.Fixtures.{demo_context, regenerate_advice}

demo_accepted :
    (review default_budget demo_context regenerate_advice post_execution).1.accepted ≡ true
unfolding review contains_evaluation_leakage infix_of lower
demo_accepted = refl

review-IsAdmissible_example : IsAdmissible default_budget demo_context regenerate_advice
review-IsAdmissible_example =
    review-IsAdmissible default_budget demo_context regenerate_advice post_execution demo_accepted

-- Advice that its source holds with too little confidence.
abbrev faint_advice : ReflectionAdvice
faint_advice = record regenerate_advice { confidence = 500_000 }

-- Other advice, and the first proposal with more confidence.
abbrev ask_advice : ReflectionAdvice
ask_advice = record regenerate_advice { action = ask_user }

abbrev sure_advice : ReflectionAdvice
sure_advice = record regenerate_advice { confidence = 950_000 }

same_signature : signature_of sure_advice ≡ signature_of regenerate_advice
same_signature = refl

-- A budget that leaves room for every review.
abbrev wide_budget : CorrectionBudget
wide_budget = record default_budget { max_reflection_interventions = 5 }

wide_accepted : (review wide_budget demo_context regenerate_advice post_execution).1.accepted ≡ true
unfolding review contains_evaluation_leakage infix_of lower
wide_accepted = refl

review_once_example :
    (review wide_budget
      (review_all wide_budget
        (review wide_budget demo_context regenerate_advice post_execution).0
        ((ask_advice, post_execution) ∷ (faint_advice, pre_execution) ∷ []))
      sure_advice
      pre_execution).1.accepted
    ≡ false
review_once_example =
    review_once wide_budget demo_context regenerate_advice sure_advice post_execution pre_execution
      ((ask_advice, post_execution) ∷ (faint_advice, pre_execution) ∷ []) same_signature
      wide_accepted

-- The advice in between is accepted.
ask_accepted :
    (review wide_budget
      (review wide_budget demo_context regenerate_advice post_execution).0
      ask_advice
      post_execution).1.accepted
    ≡ true
unfolding review contains_evaluation_leakage infix_of lower
ask_accepted = refl

demo_rejected : (review default_budget demo_context faint_advice pre_execution).1.accepted ≡ false
unfolding review contains_evaluation_leakage infix_of lower
demo_rejected = refl
