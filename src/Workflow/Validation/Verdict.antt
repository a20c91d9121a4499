-- ===== src/Workflow/Validation/Verdict.antt =====
-- When an output is valid (workflow/output_validation.py).
use prima_next.Base.{
  ◌≡◌, ◌≢◌, ◌↔◌, refl, true, false, Option, some, List, [], ◌∷◌, ◌++◌, is_empty, fresh_keys, arith,
}
use prima_next.Base.Text.{Text, codes, lower, text_eq, text_beq_iff, infix_of}
use prima_next.Workflow.Advice.{action_eq}
use prima_next.Workflow.Context.{PhaseResult, answered, failed, generated, ExecutionContext}
use prima_next.Workflow.Validation.{
  OutputValidationSignal, signal_eq, has_evidence, lacks_citation, generation_signals,
  action_signals, action_status, action_text, signals_of, validation_of, validate_output,
}

-- The generated answer gives no cause for correction.
abbrev pub IsSupported : ExecutionContext → Option PhaseResult → Type 0
IsSupported c (some (generated g)) =
    (g.outcome ≢ failed)
    × ¬ (
        (c.metadata.task_kind ≡ codes "factual_qa")
        × (g.outcome ≡ answered)
        × (has_evidence c.reasoning_result ≡ true)
        × (is_empty g.selected_source_ids ≡ true))
IsSupported c _ = Unit

-- Neither does the action result.
abbrev pub IsUneventful : Option PhaseResult → Type 0
IsUneventful r =
    (lower (action_status r) ≢ codes "failed")
    × (lower (action_status r) ≢ codes "partial")
    × (lower (action_status r) ≢ codes "blocked")
    × (infix_of (codes "policy violation") (lower (action_text r)) ≡ false)

generation_signals-nil :
    (c : ExecutionContext) (r : Option PhaseResult)
    → (is_empty (generation_signals c r) ≡ true) ↔ IsSupported c r
unfolding generation_signals lacks_citation
generation_signals-nil c (some (generated g)) =
    ground (arith, text_beq_iff c.metadata.task_kind (codes "factual_qa"))
generation_signals-nil c _ = (λ _. tt, λ _. refl)

action_signals-nil :
    (r : Option PhaseResult) → (is_empty (action_signals r) ≡ true) ↔ IsUneventful r
unfolding action_signals
action_signals-nil r =
    let s = lower (action_status r) in
    ground (
      arith,
      text_beq_iff s (codes "failed"),
      text_beq_iff s (codes "partial"),
      text_beq_iff s (codes "blocked"),
    )

fresh_keys-nil : (xs : List OutputValidationSignal) → is_empty (fresh_keys [] xs) ≡ is_empty xs
fresh_keys-nil [] = refl
fresh_keys-nil (x ∷ xs) = refl

is_empty-append :
    (xs ys : List OutputValidationSignal)
    → (is_empty (xs ++ ys) ≡ true) ↔ ((is_empty xs ≡ true) × (is_empty ys ≡ true))
is_empty-append [] ys = (λ h. (refl, h), λ h. h.1)
is_empty-append (x ∷ xs) ys = (λ h. cc, λ h. h.0)

validation_of-valid :
    (u : Text) (ss : List OutputValidationSignal) → (validation_of u ss).valid ≡ is_empty ss
validation_of-valid u [] = refl
validation_of-valid u (s ∷ ss) = refl

-- An output is valid exactly when generation has not failed, a factual answer for which evidence
-- was found cites some of it, and the action result neither reports a failed, partial or blocked
-- status nor speaks of a policy violation.
pub validate_output-valid :
    (c : ExecutionContext)
    → ((validate_output c).valid ≡ true)
      ↔ (IsSupported c c.generation_result × IsUneventful c.action_result)
unfolding validate_output signals_of
validate_output-valid c =
    let gs = generation_signals c c.generation_result in
    let as' = action_signals c.action_result in
    ground (
      arith,
      validation_of-valid c.user_input (signals_of c),
      fresh_keys-nil (gs ++ as'),
      is_empty-append gs as',
      generation_signals-nil c c.generation_result,
      action_signals-nil c.action_result,
    )
