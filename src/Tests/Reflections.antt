-- ===== src/Tests/Reflections.antt =====
-- A reflection that is accepted and does harm.
use prima_next.Base.{ℕ, ◌≡◌, ◌==◌, refl, [], ◌∷◌, map, if◌then◌else◌}
use prima_next.Base.Text.{Text, codes, text_eq, lower, strip}
use prima_next.Reflection.{
  Candidate, default_acceptance, gold_record, summary, evaluate, retain, classify, canonical_label,
  label_aliases, top_emotion_margin,
}
use prima_next.Reflection.Harm.{summary-IsCounted, IsCounted}

-- Evidence for sadness only.
abbrev demo_evidence : Text → Text → ℕ
demo_evidence q label = if label == codes "sadness" then 1_000_000 else 0

abbrev demo_candidate : Candidate
demo_candidate = record {
  query = codes "gloomy";
  original_prediction = codes "Love ";
  candidate_prediction = codes "sad";
  prediction_confidence = 50_000;
  emotions = 300_000 ∷ 350_000 ∷ [];
  original_confidence = 50_000;
  candidate_confidence = 200_000;
}

demo_harm :
    (summary (
      map
        (gold_record demo_evidence default_acceptance)
        ((demo_candidate, codes "joy") ∷ []))).harm_count
    ≡ 1
unfolding summary gold_record evaluate retain classify canonical_label label_aliases
    top_emotion_margin lower strip
demo_harm = refl

summary-IsCounted_example : IsCounted (
    summary
      (map (gold_record demo_evidence default_acceptance) ((demo_candidate, codes "joy") ∷ [])))
summary-IsCounted_example =
    summary-IsCounted demo_evidence default_acceptance ((demo_candidate, codes "joy") ∷ [])
