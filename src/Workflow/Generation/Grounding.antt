-- ===== src/Workflow/Generation/Grounding.antt =====
-- The answers that `AnswerGenerationController.execute` returns, and when it calls the model
-- (workflow/answer_generation.py).
use prima_next.Base.{
  ◌⊎◌, inl, inr, ℕ, ◌+◌, ◌≡◌, ◌≢◌, refl, subst, inl, inr, true, false, Option, none, some, List, [],
  ◌∷◌, All, IsNodup, not, ◌&&◌, ◌==◌, if-cases, Option-cases, arith, if◌then◌else◌,
}
use prima_next.Base.Keys.{Holds}
use prima_next.Base.Text.{Text, text_eq, text_beq_iff, strip}
use prima_next.Llm.{GenerationConfig, FallbackPolicy, extractive, json_schema, mode_eq}
use prima_next.Reasoning.{EvidenceItem, SufficiencyStatus, sufficient}
use prima_next.Workflow.Context.{
  ExecutionContext, GenerationResult, AnswerResult, generated, answered,
}
use prima_next.Workflow.Engine.{Outcome, returned, raised, task_cancelled}
use prima_next.Workflow.Generation.{
  AnswerGenerator, ModelReply, text_reply, caught_error, uncaught_error, evidence_of, is_factual,
  fallback, fall_back, failed_call, read_result, read_reply, call_model, with_config, gated,
  evidence_gate, generate, config_of, unconfigured, gate_status, count_model_call,
}
use prima_next.Workflow.Generation.Parsing.{Parsed, parsed, declined, invalid, parse, label_map}
use prima_next.Workflow.Generation.Sources.{IsSource, IsRead, parse-IsRead, label_map-sources}

-- An answer cites sources of the evidence, each once. Unless it is the extract that a fallback
-- gives, the model was called, and the text is not the request again.
abbrev pub IsGrounded : ExecutionContext → GenerationResult → Type 0
IsGrounded c r =
    (r.outcome ≢ answered)
    ⊎ (All (IsSource (evidence_of c.reasoning_result)) r.selected_source_ids
        × IsNodup r.selected_source_ids
        × ((r.fallback_used ≡ true) ⊎ (r.text ≢ strip c.user_input)))

abbrev pub ReturnsGrounded : ExecutionContext → Outcome → Type 0
ReturnsGrounded c (returned (generated r)) = IsGrounded c r
ReturnsGrounded c (returned _) = ⊥
ReturnsGrounded c (raised e) = Unit
ReturnsGrounded c task_cancelled = ⊥

fall_back-IsGrounded :
    (c : ExecutionContext) (g : GenerationConfig) (e : Text) (p : FallbackPolicy)
    (is : List EvidenceItem)
    → evidence_of c.reasoning_result ≡ is
    → IsGrounded c (fall_back p is (failed_call g e))
fall_back-IsGrounded c g e extractive [] h = inl (λ a. cc)
fall_back-IsGrounded c g e extractive (i ∷ is) h =
    inr (rw h ((ground (arith, text_beq_iff i.source_id i.source_id), tt), (refl, tt), inl refl))
fall_back-IsGrounded c g e FallbackPolicy.abstain is h = inl (λ a. cc)
fall_back-IsGrounded c g e FallbackPolicy.fail is h = inl (λ a. cc)

fallback-IsGrounded :
    (c : ExecutionContext) (g : GenerationConfig) (e : Text)
    → IsGrounded c (fallback c.reasoning_result g e)
unfolding fallback
fallback-IsGrounded c g e =
    fall_back-IsGrounded c g e g.fallback_policy (evidence_of c.reasoning_result) refl

read_result-IsGrounded :
    (y : AnswerGenerator) (c : ExecutionContext) (g : GenerationConfig) (p : Parsed)
    → IsRead
        (IsSource (evidence_of c.reasoning_result))
        (label_map (evidence_of c.reasoning_result))
        (label_map-sources (evidence_of c.reasoning_result))
        c.user_input
        p
    → IsGrounded c (read_result y c g p)
unfolding read_result
read_result-IsGrounded y c g (parsed a ss) h = inr (h.0.0, h.0.1, inr h.1)
read_result-IsGrounded y c g declined h = inl (λ o. cc)
read_result-IsGrounded y c g (invalid e) h = fallback-IsGrounded c g e

read_reply-ReturnsGrounded :
    (y : AnswerGenerator) (c : ExecutionContext) (g : GenerationConfig) (m : ModelReply)
    → ReturnsGrounded c (read_reply y c g m)
unfolding read_reply
read_reply-ReturnsGrounded y c g (text_reply t) =
    let is = evidence_of c.reasoning_result in
    read_result-IsGrounded y c g
      (parse y.loads (strip t) c.user_input (label_map is) (is_factual c))
      (parse-IsRead (IsSource is) (label_map is) (label_map-sources is) y.loads (strip t)
        c.user_input (is_factual c))
read_reply-ReturnsGrounded y c g (caught_error e) = fallback-IsGrounded c g e
read_reply-ReturnsGrounded y c g (uncaught_error e) = tt

-- A result of the gate, which stands before the call, is no answer and the model was not called.
abbrev pub IsHeld : GenerationResult → Type 0
IsHeld r = (r.outcome ≢ answered) × (r.llm_called ≡ false)

gate_status-IsHeld :
    (s : SufficiencyStatus) (p : Text) (g : GenerationConfig) (es : List Text)
    → Holds IsHeld (gate_status s p g es)
gate_status-IsHeld SufficiencyStatus.error p g es = (λ h. cc, refl)
gate_status-IsHeld sufficient p g es = tt
gate_status-IsHeld _ p g es = (λ h. cc, refl)

gated-IsHeld :
    (y : AnswerGenerator) (g : GenerationConfig) (c : ExecutionContext) → Holds IsHeld (gated y g c)
unfolding gated evidence_gate
gated-IsHeld y g c =
    if-cases (Holds IsHeld) (is_factual c) (λ met. held c.reasoning_result) (λ other. tt)
  where
    held : (o : Option AnswerResult) → Holds IsHeld (evidence_gate y.provider_name g o)
    held none = tt
    held (some a) = gate_status-IsHeld a.status y.provider_name g a.errors

-- Every run of `execute` is either held back before the call of the model, or calls it once.
generate_rule {ℓ} :
    (n : ℕ) (y : AnswerGenerator) (c : ExecutionContext) (P : Outcome × ExecutionContext → Type ℓ)
    → ((r : GenerationResult) → IsHeld r → P (returned (generated r), c))
    → ((g : GenerationConfig) → gated y g c ≡ none → P (call_model n y c g))
    → P (generate n y c)
unfolding generate with_config
generate_rule n y c P held calls = elim (Option-cases (config_of y c)) [
  | inl missing ↦ rw (missing, generate) (held (unconfigured y.provider_name) (λ h. cc, refl))
  | inr (g, found) ↦
      rw (found, generate)
        (if-cases P (is_factual c && not (g.structured_output == json_schema))
          (λ met. held _ (λ h. cc, refl))
          (λ other. elim (Option-cases (gated y g c)) [
            | inl open_gate ↦ rw open_gate (calls g open_gate)
            | inr (r, closed) ↦
                rw closed (held r (subst (Holds IsHeld) closed (gated-IsHeld y g c)))
          ]))
]

-- An answer cites only sources of the evidence that the request found, each once. Unless it is the
-- extract that a fallback gives, its text is not the request again.
pub generate-IsGrounded :
    (n : ℕ) (y : AnswerGenerator) (c : ExecutionContext) → ReturnsGrounded c (generate n y c).0
unfolding call_model read_reply
generate-IsGrounded n y c =
    generate_rule n y c (λ o. ReturnsGrounded c o.0) (λ r h. inl h.0)
      (λ g h. read_reply-ReturnsGrounded y c g (y.chat n _ g (is_factual c)))

-- The calls of the model that an outcome stands for.
abbrev pub CountsCalls : ExecutionContext → Outcome × ExecutionContext → Type 0
CountsCalls c (returned (generated r), c') =
    c'.metadata.model_call_count ≡ c.metadata.model_call_count + (if r.llm_called then 1 else 0)
CountsCalls c (returned _, c') = ⊥
CountsCalls c (raised e, c') = c'.metadata.model_call_count ≡ c.metadata.model_call_count + 1
CountsCalls c (task_cancelled, c') = ⊥

fall_back-called :
    (g : GenerationConfig) (e : Text) (p : FallbackPolicy) (is : List EvidenceItem)
    → (fall_back p is (failed_call g e)).llm_called ≡ true
fall_back-called g e extractive [] = refl
fall_back-called g e extractive (i ∷ is) = refl
fall_back-called g e FallbackPolicy.abstain is = refl
fall_back-called g e FallbackPolicy.fail is = refl

read_result-called :
    (y : AnswerGenerator) (c : ExecutionContext) (g : GenerationConfig) (p : Parsed)
    → (read_result y c g p).llm_called ≡ true
unfolding read_result fallback
read_result-called y c g (parsed a ss) = refl
read_result-called y c g declined = refl
read_result-called y c g (invalid e) =
    fall_back-called g e g.fallback_policy (evidence_of c.reasoning_result)

read_reply-CountsCalls :
    (y : AnswerGenerator) (c : ExecutionContext) (g : GenerationConfig) (m : ModelReply)
    → CountsCalls c (read_reply y (count_model_call c) g m, count_model_call c)
unfolding read_reply fallback
read_reply-CountsCalls y c g (text_reply t) =
    rw (read_result-called y (count_model_call c) g _) refl
read_reply-CountsCalls y c g (caught_error e) =
    rw (fall_back-called g e g.fallback_policy (evidence_of c.reasoning_result)) refl
read_reply-CountsCalls y c g (uncaught_error e) = refl

-- The model is called at most once, and a result says of itself whether that happened.
generate-CountsCalls :
    (n : ℕ) (y : AnswerGenerator) (c : ExecutionContext) → CountsCalls c (generate n y c)
unfolding call_model
generate-CountsCalls n y c =
    generate_rule n y c (CountsCalls c) (λ r h. rw (h.1) (omega arith))
      (λ g h. read_reply-CountsCalls y c g (y.chat n (count_model_call c) g (is_factual c)))

-- The outcome is a result that is no answer, and the context is the one before.
abbrev pub IsSilent : ExecutionContext → Outcome × ExecutionContext → Type 0
IsSilent c (returned (generated r), c') = IsHeld r × (c' ≡ c)
IsSilent c (_, c') = ⊥

gate_status-closed :
    (s : SufficiencyStatus) (p : Text) (g : GenerationConfig) (es : List Text)
    → s ≢ sufficient
    → gate_status s p g es ≢ none
gate_status-closed s p g es h e = ground arith

-- A factual question for which the search has not found sufficient evidence gets no answer, and
-- the model is not called for it, whatever the configuration.
pub generate-IsSilent :
    (n : ℕ) (y : AnswerGenerator) (c : ExecutionContext) (a : AnswerResult)
    → is_factual c ≡ true
    → c.reasoning_result ≡ some a
    → a.status ≢ sufficient
    → IsSilent c (generate n y c)
unfolding gated evidence_gate
generate-IsSilent n y c a f e s =
    generate_rule n y c (IsSilent c) (λ r h. (h, refl)) (λ g h. absurd (closed g h))
  where
    closed : (g : GenerationConfig) → gated y g c ≡ none → ⊥
    closed g h = gate_status-closed a.status y.provider_name g a.errors s (rw (f, e, gated) at h)
