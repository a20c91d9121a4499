-- ===== src/Reflection.antt =====
-- reflection/reflection_acceptance.py: whether a reflected prediction may replace the original one,
-- and the counts of a run over samples whose true label is known
-- (evaluation/runners/dataset_runner.py). The lexical evidence for a label is an argument. Scores are
-- millionths, and a score below zero, which the margin drops, reads as zero.
pub mod Harm
use prima_next.Base.{
  ℕ, ◌+◌, ◌-◌, Bool, true, false, not, ◌&&◌, ◌||◌, ◌==◌, Option, none, some, List, [], ◌∷◌, length,
  filter_by, count_by, ltb, leb, get_or, if◌then◌else◌,
}
use prima_next.Base.Dict.{Dict, lookup}
use prima_next.Base.Text.{Text, codes, text_eq, lower, strip}

-- `_LABEL_ALIASES`
unfoldable pub label_aliases : Dict Text Text
label_aliases =
    (codes "sad", codes "sadness")
    ∷ (codes "joy_ecstasy", codes "joy")
    ∷ (codes "amazement_surprise", codes "surprise")
    ∷ (codes "interest_vigilance", codes "surprise")
    ∷ (codes "disgust_loathing", codes "disgust")
    ∷ (codes "senerity", codes "trust")
    ∷ (codes "serenity", codes "trust")
    ∷ (codes "admire", codes "trust")
    ∷ (codes "acceptance", codes "trust")
    ∷ (codes "positive", codes "joy")
    ∷ (codes "negative", codes "sadness")
    ∷ (codes "love", codes "joy")
    ∷ (codes "optimism", codes "anticipation")
    ∷ (codes "gratitude", codes "trust")
    ∷ (codes "approval", codes "trust")
    ∷ (codes "caring", codes "trust")
    ∷ (codes "excitement", codes "joy")
    ∷ (codes "grief", codes "sadness")
    ∷ (codes "nervousness", codes "fear")
    ∷ (codes "annoyance", codes "anger")
    ∷ (codes "disapproval", codes "disgust")
    ∷ (codes "realization", codes "surprise")
    ∷ (codes "curiosity", codes "surprise")
    ∷ []

unfoldable pub canonical_label : Text → Text
canonical_label label = let key = lower (strip label) in get_or (lookup key label_aliases) key

pub record ReflectionAcceptanceConfig : Type 0 where
  pub high_confidence_threshold : ℕ
  pub top_emotion_margin_threshold : ℕ
  pub trigger_confidence_ceiling : ℕ
  pub trigger_margin_ceiling : ℕ
  pub confidence_margin : ℕ

abbrev pub default_acceptance : ReflectionAcceptanceConfig
default_acceptance = record {
  high_confidence_threshold = 750_000;
  top_emotion_margin_threshold = 300_000;
  trigger_confidence_ceiling = 100_000;
  trigger_margin_ceiling = 100_000;
  confidence_margin = 50_000;
}

-- The arguments of `evaluate_reflection_acceptance`, the emotions by their scores.
pub record Candidate : Type 0 where
  pub query : Text
  pub original_prediction : Text
  pub candidate_prediction : Text
  pub prediction_confidence : ℕ
  pub emotions : List ℕ
  pub original_confidence : ℕ
  pub candidate_confidence : ℕ

pub record ReflectionAcceptanceDecision : Type 0 where
  pub reflection_triggered : Bool
  pub reflection_accepted : Bool
  pub selected_prediction : Text
  pub candidate_prediction : Text
  pub original_prediction : Text
  pub original_confidence : ℕ
  pub candidate_confidence : ℕ
  pub original_evidence_score : ℕ
  pub reflection_evidence_score : ℕ
  pub top_emotion_margin : ℕ
  pub suppression_reason : Option Text
  pub acceptance_reason : Option Text

-- `top_emotion_margin`: the positive scores, the greatest first.
abbrev pub insert_score : ℕ → List ℕ → List ℕ
insert_score a [] = a ∷ []
insert_score a (b ∷ bs) = let rest = insert_score a bs in if ltb a b then b ∷ rest else a ∷ b ∷ bs

abbrev pub descending : List ℕ → List ℕ
descending [] = []
descending (a ∷ bs) = insert_score a (descending bs)

abbrev pub lead : List ℕ → ℕ
lead [] = 0
lead (a ∷ []) = a
lead (a ∷ b ∷ _) = a - b

unfoldable pub top_emotion_margin : List ℕ → ℕ
top_emotion_margin emotions = lead (descending (filter_by (λ s. ltb 0 s) emotions))

-- The decision that keeps the original, which every branch starts from.
unfoldable pub retain : (Text → Text → ℕ) → Candidate → Text → ReflectionAcceptanceDecision
unfolding canonical_label top_emotion_margin
retain evidence c why =
    let original = canonical_label c.original_prediction in
    let candidate = canonical_label c.candidate_prediction in
    record {
      reflection_triggered = false;
      reflection_accepted = false;
      selected_prediction = original;
      candidate_prediction = candidate;
      original_prediction = original;
      original_confidence = c.original_confidence;
      candidate_confidence = c.candidate_confidence;
      original_evidence_score = evidence c.query original;
      reflection_evidence_score = evidence c.query candidate;
      top_emotion_margin = top_emotion_margin c.emotions;
      suppression_reason = some why;
      acceptance_reason = none;
    }

-- `evaluate_reflection_acceptance`
unfoldable pub evaluate :
    (Text → Text → ℕ) → ReflectionAcceptanceConfig → Candidate → ReflectionAcceptanceDecision
unfolding retain
evaluate evidence policy c =
    let original = canonical_label c.original_prediction in
    let candidate = canonical_label c.candidate_prediction in
    let margin = top_emotion_margin c.emotions in
    let original_evidence = evidence c.query original in
    let candidate_evidence = evidence c.query candidate in
    let ambiguous =
      leb c.prediction_confidence policy.trigger_confidence_ceiling
      || leb margin policy.trigger_margin_ceiling in
    let accepted =
      ltb (c.original_confidence + policy.confidence_margin) c.candidate_confidence
      && ltb original_evidence candidate_evidence in
    if original == candidate
    then retain evidence c (codes "candidate_matches_original")
    else if leb policy.high_confidence_threshold c.prediction_confidence
        && leb policy.top_emotion_margin_threshold margin
    then retain evidence c (codes "high_confidence_clear_margin")
    else if not ambiguous || not (leb original_evidence candidate_evidence)
    then retain evidence c (codes "insufficient_reflection_trigger_evidence")
    else record (retain evidence c (codes "do_no_harm_policy")) {
      reflection_triggered = true;
      reflection_accepted = accepted;
      selected_prediction = if accepted then candidate else original;
      suppression_reason = if accepted then none else some (codes "do_no_harm_policy");
      acceptance_reason =
          if accepted then some (codes "confidence_and_evidence_improved") else none;
    }

pub data Outcome : Type 0 where
  improvement harm neutral : Outcome

-- `classify_reflection_outcome`
unfoldable pub classify : Text → Text → Text → Bool → Outcome
unfolding canonical_label
classify before after truth triggered =
    let before_correct = canonical_label before == canonical_label truth in
    let after_correct = canonical_label after == canonical_label truth in
    if not triggered
    then neutral
    else if not before_correct && after_correct
    then improvement
    else if before_correct && not after_correct
    then harm
    else neutral

abbrev pub is_improvement : Outcome → Bool
is_improvement improvement = true
is_improvement _ = false

abbrev pub is_harm : Outcome → Bool
is_harm harm = true
is_harm _ = false

-- The fields of a record that the summary counts.
pub record GoldRecord : Type 0 where
  pub reflection_triggered : Bool
  pub reflection_accepted : Bool
  pub reflection_outcome : Outcome

-- The record of one sample: a candidate and the true label.
unfoldable pub gold_record :
    (Text → Text → ℕ) → ReflectionAcceptanceConfig → Candidate × Text → GoldRecord
unfolding evaluate classify
gold_record evidence policy (c, truth) =
    let d = evaluate evidence policy c in
    record {
      reflection_triggered = d.reflection_triggered;
      reflection_accepted = d.reflection_accepted;
      reflection_outcome =
          classify c.original_prediction d.selected_prediction truth d.reflection_triggered;
    }

pub record Recovery : Type 0 where
  pub total_samples : ℕ
  pub reflection_trigger_count : ℕ
  pub reflection_acceptance_count : ℕ
  pub improvement_count : ℕ
  pub harm_count : ℕ

-- `reflection_recovery_summary`, without the rates.
unfoldable pub summary : List GoldRecord → Recovery
summary records = record {
  total_samples = length records;
  reflection_trigger_count = count_by (λ (r : GoldRecord). r.reflection_triggered) records;
  reflection_acceptance_count = count_by (λ (r : GoldRecord). r.reflection_accepted) records;
  improvement_count = count_by (λ (r : GoldRecord). is_improvement r.reflection_outcome) records;
  harm_count = count_by (λ (r : GoldRecord). is_harm r.reflection_outcome) records;
}
