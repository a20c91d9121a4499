-- ===== src/Workflow/Advice.antt =====
-- reasoning/reflection_advisor.py: typed correction advice. Scores are counted in millionths; the
-- mappings `provenance` and `metadata` stand as the texts that `str` makes of them.
use prima_next.Base.{
  ℕ, ◌≡◌, ◌↔◌, Bool, true, false, Option, List, [], ◌∷◌, ◌++◌, Eq, nat_eq, nat_beq, min, any, arith,
}
use prima_next.Base.Text.{Text, codes, lower, text_eq, infix_of}

pub data ReflectionEvent : Type 0 where
  low_confidence no_new_evidence duplicate_query contradictory_evidence : ReflectionEvent
  retrieval_failure plan_constraint_violation output_schema_failure : ReflectionEvent
  unsupported_claim tool_failure logical_inconsistency policy_violation : ReflectionEvent

pub data ReflectionAction : Type 0 where
  revise_query broaden_query pivot_entity replan retry_transient_failure : ReflectionAction
  regenerate ask_user abstain no_action : ReflectionAction

abbrev pub action_index : ReflectionAction → ℕ
action_index revise_query = 0
action_index broaden_query = 1
action_index pivot_entity = 2
action_index replan = 3
action_index retry_transient_failure = 4
action_index regenerate = 5
action_index ask_user = 6
action_index abstain = 7
action_index no_action = 8

abbrev pub action_beq : ReflectionAction → ReflectionAction → Bool
action_beq a b = nat_beq (action_index a) (action_index b)

pub action_beq_iff : (a b : ReflectionAction) → (action_beq a b ≡ true) ↔ (a ≡ b)
action_beq_iff a b = ground arith

instance abbrev pub action_eq : Eq ReflectionAction
action_eq = record { equal = action_beq; decides = action_beq_iff }

-- One million stands for 1.0.
abbrev pub Score : Type 0
Score = ℕ

abbrev pub one : Score
one = 1_000_000

pub record ReflectionAdvice : Type 0 where
  pub trigger : Bool
  pub action : ReflectionAction
  pub suggested_query : Text
  pub correction_proposal : Text
  pub confidence : Score
  pub provenance : Text
  pub reason_code : Text
  pub event : Option ReflectionEvent
  pub metadata : Text

-- `__post_init__`: the confidence is clamped into [0, 1].
abbrev pub normalise : ReflectionAdvice → ReflectionAdvice
normalise a = record a { confidence = min one a.confidence }

-- The tokens of gold and evaluation data.
abbrev pub leak_tokens : List Text
leak_tokens =
    codes "gold"
    ∷ codes "ground_truth"
    ∷ codes "ground truth"
    ∷ codes "expected_answer"
    ∷ codes "expected answer"
    ∷ codes "correct_answer"
    ∷ codes "supporting_fact"
    ∷ codes "evaluation result"
    ∷ codes "retrieval scoring"
    ∷ codes "rerank"
    ∷ []

abbrev pub space : Text
space = 32 ∷ []

unfoldable pub contains_evaluation_leakage : ReflectionAdvice → Bool
contains_evaluation_leakage a =
    let payload = lower (
      a.suggested_query
      ++ (space
          ++ (a.correction_proposal
              ++ (space
                  ++ (a.reason_code ++ (space ++ (a.provenance ++ (space ++ a.metadata)))))))) in
    any (λ token. infix_of token payload) leak_tokens

-- The actions of `_QUERY_ACTIONS`.
abbrev pub is_query_action : ReflectionAction → Bool
is_query_action revise_query = true
is_query_action broaden_query = true
is_query_action pivot_entity = true
is_query_action _ = false
