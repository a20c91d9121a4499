-- ===== src/Reflection/Harm.antt =====
-- A reflection replaces a prediction only where that is warranted, and the counts of a run agree
-- (reflection/reflection_acceptance.py).
use prima_next.Base.{
  ℕ, ◌+◌, ◌<◌, ◌≤◌, ◌≡◌, ◌≢◌, ◌⊎◌, inl, inr, refl, sym, ap, subst, ◌∙◌, Bool, true, false, not,
  ◌&&◌, ◌||◌, ◌==◌, none, List, [], ◌∷◌, map, All, all, leb, get_or, Option-cases, if-cases, arith,
}
use prima_next.Base.Dict.{Dict, lookup}
use prima_next.Base.Keys.{lookup-Holds, Holds}
use prima_next.Base.Text.{Text, text_eq, text_beq_iff, lower, strip}
use prima_next.Base.Text.Canonical.{lower-strip_idem}
use prima_next.Reflection.{
  label_aliases, canonical_label, ReflectionAcceptanceConfig, Candidate,
  ReflectionAcceptanceDecision, top_emotion_margin, retain, evaluate, classify, neutral, GoldRecord,
  gold_record, is_improvement, is_harm, Recovery, summary,
}

all-fixed :
    (d : Dict Text Text)
    → all (λ p. canonical_label p.1 == p.1) d ≡ true
    → All (λ p. canonical_label p.1 ≡ p.1) d
all-fixed [] h = tt
all-fixed ((k, t) ∷ d) h =
    (ground (arith, text_beq_iff (canonical_label t) t), all-fixed d (ground arith))

-- What an alias stands for is no alias itself.
aliases-fixed : All (λ (p : Text × Text). canonical_label p.1 ≡ p.1) label_aliases
unfolding label_aliases canonical_label strip lower
aliases-fixed = all-fixed label_aliases refl

found-fixed : (k : Text) → Holds (λ a. canonical_label a ≡ a) (lookup k label_aliases)
found-fixed k = lookup-Holds (λ a. canonical_label a ≡ a) k label_aliases aliases-fixed

missing-fixed :
    (t : Text)
    → lookup (lower (strip t)) label_aliases ≡ none
    → canonical_label (lower (strip t)) ≡ lower (strip t)
unfolding canonical_label
missing-fixed t h = rw (lower-strip_idem t) (rw h refl)

canonical_label-lookup :
    (t : Text)
    → canonical_label t ≡ get_or (lookup (lower (strip t)) label_aliases) (lower (strip t))
unfolding canonical_label
canonical_label-lookup t = refl

same-fixed :
    (t a : Text)
    → canonical_label t ≡ a
    → canonical_label a ≡ a
    → canonical_label (canonical_label t) ≡ canonical_label t
same-fixed t a h k = ap canonical_label h ∙ (k ∙ sym h)

canonical_label_idem : (t : Text) → canonical_label (canonical_label t) ≡ canonical_label t
canonical_label_idem t =
    let key = lower (strip t) in
    elim (Option-cases (lookup key label_aliases)) [
      | inl missing ↦
          same-fixed t key (canonical_label-lookup t ∙ ap (λ o. get_or o key) missing)
            (missing-fixed t missing)
      | inr (a, found) ↦
          same-fixed t a (canonical_label-lookup t ∙ ap (λ o. get_or o key) found)
            (subst (Holds (λ b. canonical_label b ≡ b)) found (found-fixed key))
    ]

-- Either the original stays, or the candidate is another label that has more confidence, by the
-- margin, and more evidence, where the original was not certain.
abbrev pub IsHarmless :
    (Text → Text → ℕ)
    → ReflectionAcceptanceConfig
    → Candidate
    → ReflectionAcceptanceDecision
    → Type 0
IsHarmless evidence policy c d =
    let original = canonical_label c.original_prediction in
    let candidate = canonical_label c.candidate_prediction in
    ((d.reflection_accepted ≡ false) × (d.selected_prediction ≡ original))
    ⊎ ((d.reflection_accepted ≡ true)
        × (d.reflection_triggered ≡ true)
        × (d.selected_prediction ≡ candidate)
        × (original ≢ candidate)
        × (c.original_confidence + policy.confidence_margin < c.candidate_confidence)
        × (evidence c.query original < evidence c.query candidate)
        × ((c.prediction_confidence < policy.high_confidence_threshold)
            ⊎ (top_emotion_margin c.emotions < policy.top_emotion_margin_threshold)))

pub evaluate-IsHarmless :
    (evidence : Text → Text → ℕ) (policy : ReflectionAcceptanceConfig) (c : Candidate)
    → IsHarmless evidence policy c (evaluate evidence policy c)
unfolding evaluate retain
evaluate-IsHarmless evidence policy c =
    let original = canonical_label c.original_prediction in
    let candidate = canonical_label c.candidate_prediction in
    let P = IsHarmless evidence policy c in
    if-cases P (original == candidate) (λ _. inl (refl, refl))
      (λ other.
        if-cases P
          (leb policy.high_confidence_threshold c.prediction_confidence
            && leb policy.top_emotion_margin_threshold (top_emotion_margin c.emotions))
          (λ _. inl (refl, refl))
          (λ unsure.
            if-cases P
              (not (
                  leb c.prediction_confidence policy.trigger_confidence_ceiling
                  || leb (top_emotion_margin c.emotions) policy.trigger_margin_ceiling)
                || not (leb (evidence c.query original) (evidence c.query candidate)))
              (λ _. inl (refl, refl))
              (λ triggered. ground (arith, text_beq_iff original candidate))))

-- What a record of a run says of its own outcome.
abbrev IsSound : GoldRecord → Type 0
IsSound r =
    ((not r.reflection_accepted || r.reflection_triggered) ≡ true)
    × ((not (is_improvement r.reflection_outcome) || r.reflection_accepted) ≡ true)
    × ((not (is_harm r.reflection_outcome) || r.reflection_accepted) ≡ true)

-- A prediction that stays is neither an improvement nor a harm.
classify-same :
    (before after truth : Text) (b : Bool)
    → canonical_label after ≡ canonical_label before
    → classify before after truth b ≡ neutral
unfolding classify
classify-same before after truth b h = ground (arith, h)

settled-IsSound :
    (evidence : Text → Text → ℕ) (policy : ReflectionAcceptanceConfig) (c : Candidate)
    (truth : Text) (d : ReflectionAcceptanceDecision)
    → IsHarmless evidence policy c d
    → IsSound (record {
      reflection_triggered = d.reflection_triggered;
      reflection_accepted = d.reflection_accepted;
      reflection_outcome =
          classify c.original_prediction d.selected_prediction truth d.reflection_triggered;
    })
settled-IsSound evidence policy c truth d (inl (refused, same)) =
    let still =
      classify-same c.original_prediction d.selected_prediction truth d.reflection_triggered
        (ap canonical_label same ∙ canonical_label_idem c.original_prediction) in
    rw still (ground (arith, refused), refl, refl)
settled-IsSound evidence policy c truth d (inr h) =
    (ground (arith, h.0, h.1), ground (arith, h.0), ground (arith, h.0))

gold_record-IsSound :
    (evidence : Text → Text → ℕ) (policy : ReflectionAcceptanceConfig) (s : Candidate × Text)
    → IsSound (gold_record evidence policy s)
unfolding gold_record
gold_record-IsSound evidence policy (c, truth) =
    settled-IsSound evidence policy c truth (evaluate evidence policy c)
      (evaluate-IsHarmless evidence policy c)

abbrev pub IsCounted : Recovery → Type 0
IsCounted y =
    (y.improvement_count + y.harm_count ≤ y.reflection_acceptance_count)
    × (y.reflection_acceptance_count ≤ y.reflection_trigger_count)
    × (y.reflection_trigger_count ≤ y.total_samples)

-- In a run over samples every improvement and every harm stems from an accepted reflection, and every
-- accepted one was triggered: improvements and harms together are no more than the accepted
-- reflections, those no more than the triggered ones, and those no more than the samples.
pub summary-IsCounted :
    (evidence : Text → Text → ℕ) (policy : ReflectionAcceptanceConfig)
    (samples : List (Candidate × Text))
    → IsCounted (summary (map (gold_record evidence policy) samples))
unfolding summary
summary-IsCounted evidence policy [] = (omega arith, omega arith, omega arith)
summary-IsCounted evidence policy (s ∷ samples) =
    let h = gold_record-IsSound evidence policy s in
    let ih = summary-IsCounted evidence policy samples in
    ground (arith, h.0, h.1, h.2, ih.0, ih.1, ih.2)
