-- ===== src/Workflow/Correction/Acceptance.antt =====
-- When `CorrectionLoop.review` accepts, and what it records (workflow/correction_loop.py).
use prima_next.Base.{
  ◌+◌, ◌≤◌, ◌<◌, ◌≡◌, ◌≢◌, sym, subst, true, false, none, List, [], ◌∷◌, ◌++◌, map, elem, length,
  is_empty, ◌==◌, ◌||◌, arith,
}
use prima_next.Base.Text.{Text, text_eq, text_beq_iff, lower, join_split}
use prima_next.Workflow.Advice.{
  ReflectionAction, ReflectionAdvice, no_action, action_eq, action_beq_iff, is_query_action,
  contains_evaluation_leakage, retry_transient_failure, replan, regenerate,
}
use prima_next.Workflow.Context.{ExecutionContext, Metadata, Stage}
use prima_next.Workflow.Correction.{
  CorrectionBudget, rejection_reason, consume_budget, review, current_query, signature,
  has_signature, retries_used,
}

-- What accepted advice has met.
pub record IsAdmissible (b : CorrectionBudget) (c : ExecutionContext) (a : ReflectionAdvice)
    : Type 0 where
  pub triggered : a.trigger ≡ true
  pub acts : a.action ≢ no_action
  pub clean : contains_evaluation_leakage a ≡ false
  pub confident : b.advice_confidence_threshold ≤ a.confidence
  pub fresh :
      has_signature (signature a (join_split a.suggested_query)) c.metadata.correction_signatures
      ≡ false
  pub intervention_left : c.metadata.reflection_intervention_count < b.max_reflection_interventions
  pub has_query : is_query_action a.action ≡ true → is_empty (join_split a.suggested_query) ≡ false
  pub other_query :
      is_query_action a.action ≡ true
      → elem
          (lower (join_split a.suggested_query))
          (lower (current_query c) ∷ map lower c.metadata.correction_queries)
        ≡ false
  pub retry_left :
      (is_query_action a.action || a.action == retry_transient_failure) ≡ true
      → retries_used c.metadata < b.max_retrieval_retries
  pub replan_left : a.action ≡ replan → c.metadata.correction_replans < b.max_replans
  pub generation_left : a.action ≡ regenerate → c.metadata.generation_count < b.max_generations

none-IsAdmissible :
    (b : CorrectionBudget) (c : ExecutionContext) (a : ReflectionAdvice)
    → rejection_reason b c.metadata a (current_query c) (join_split a.suggested_query) ≡ none
    → IsAdmissible b c a
unfolding rejection_reason
none-IsAdmissible b c a h = ground (arith)

-- Advice is accepted only if it asks for an action, leaks no evaluation data, is confident enough,
-- has not been accepted before, proposes a query, where it needs one, that is neither empty nor, up
-- to case, the current one or one tried before, and finds every budget that its action draws on
-- unspent.
pub review-IsAdmissible :
    (b : CorrectionBudget) (c : ExecutionContext) (a : ReflectionAdvice) (s : Stage)
    → (review b c a s).1.accepted ≡ true
    → IsAdmissible b c a
unfolding review
review-IsAdmissible b c a s h = ground (arith, none-IsAdmissible b c a)

-- A review that turns advice down appends one attempt, numbered from one, and changes nothing else:
-- the metadata, with its budgets, and the query are those from before.
review_rejected :
    (b : CorrectionBudget) (c : ExecutionContext) (a : ReflectionAdvice) (s : Stage)
    → (review b c a s).1.accepted ≡ false
    → let (c', attempt) = review b c a s in
      (c' ≡ record c { correction_attempts = c.correction_attempts ++ (attempt ∷ []) })
      × (attempt.attempt_index ≡ length c.correction_attempts + 1)
      × (attempt.after_query ≡ attempt.before_query)
unfolding review
review_rejected b c a s h = ground arith

has_signature_self :
    (s : ReflectionAction × Text) (ts : List (ReflectionAction × Text))
    → has_signature s (s ∷ ts) ≡ true
has_signature_self s ts = ground (arith, action_beq_iff s.0 s.0, text_beq_iff s.1 s.1)

repeated :
    (b : CorrectionBudget) (m : Metadata) (a : ReflectionAdvice) (q k : Text)
    → has_signature (signature a k) m.correction_signatures ≡ true
    → rejection_reason b m a q k ≢ none
unfolding rejection_reason
repeated b m a q k h = ground arith

consume-signatures :
    (m : Metadata) (a : ReflectionAdvice) (k : Text)
    → (consume_budget m a k).correction_signatures ≡ signature a k ∷ m.correction_signatures
unfolding consume_budget
consume-signatures m a k = ground arith

-- The context after reviews of several proposals, one after the other.
unfoldable pub review_all :
    CorrectionBudget → ExecutionContext → List (ReflectionAdvice × Stage) → ExecutionContext
unfolding review
review_all b c [] = c
review_all b c ((a, s) ∷ rest) = review_all b (review b c a s).0 rest

abbrev pub signature_of : ReflectionAdvice → ReflectionAction × Text
signature_of a = signature a (join_split a.suggested_query)

-- A review keeps every signature, and adds that of what it accepts.
review-keeps :
    (b : CorrectionBudget) (c : ExecutionContext) (a : ReflectionAdvice) (s : Stage)
    (t : ReflectionAction × Text)
    → has_signature t c.metadata.correction_signatures ≡ true
    → has_signature t (review b c a s).0.metadata.correction_signatures ≡ true
unfolding review
review-keeps b c a s t h =
    ground (arith, consume-signatures c.metadata a (join_split a.suggested_query))

review-adds :
    (b : CorrectionBudget) (c : ExecutionContext) (a : ReflectionAdvice) (s : Stage)
    → (review b c a s).1.accepted ≡ true
    → has_signature (signature_of a) (review b c a s).0.metadata.correction_signatures ≡ true
unfolding review
review-adds b c a s h = ground (
  arith,
  consume-signatures c.metadata a (join_split a.suggested_query),
  has_signature_self (signature_of a) c.metadata.correction_signatures,
)

review_all-keeps :
    (b : CorrectionBudget) (c : ExecutionContext) (rest : List (ReflectionAdvice × Stage))
    (t : ReflectionAction × Text)
    → has_signature t c.metadata.correction_signatures ≡ true
    → has_signature t (review_all b c rest).metadata.correction_signatures ≡ true
unfolding review_all
review_all-keeps b c [] t h = h
review_all-keeps b c ((a, s) ∷ rest) t h =
    review_all-keeps b (review b c a s).0 rest t (review-keeps b c a s t h)

review-repeated :
    (b : CorrectionBudget) (c : ExecutionContext) (a : ReflectionAdvice) (s : Stage)
    → has_signature (signature_of a) c.metadata.correction_signatures ≡ true
    → (review b c a s).1.accepted ≡ false
unfolding review
review-repeated b c a s h =
    ground (arith, repeated b c.metadata a (current_query c) (join_split a.suggested_query))

-- The same proposal is not accepted twice: once advice is accepted, advice with the same action and,
-- up to case and spacing, the same query is turned down at every later review, at either stage and
-- whatever else was reviewed in between.
pub review_once :
    (b : CorrectionBudget) (c : ExecutionContext) (a a' : ReflectionAdvice) (s s' : Stage)
    (between : List (ReflectionAdvice × Stage))
    → signature_of a' ≡ signature_of a
    → (review b c a s).1.accepted ≡ true
    → (review b (review_all b (review b c a s).0 between) a' s').1.accepted ≡ false
review_once b c a a' s s' between e h =
    let t =
      review_all-keeps b (review b c a s).0 between (signature_of a) (review-adds b c a s h) in
    review-repeated b (review_all b (review b c a s).0 between) a' s' (
      subst
        (λ k.
          has_signature k (review_all b (review b c a s).0 between).metadata.correction_signatures
          ≡ true)
        (sym e) t)
