-- ===== src/Tools/Validator/Soundness.antt =====
-- What a valid report of `ToolValidator.validate` means (tools/tool_validator.py).
use prima_next.Base.{
  ◌≡◌, refl, true, false, Option, none, some, List, [], ◌∷◌, ◌++◌, map, All, minus, is_empty, any,
  arith, Bool-cases, inl, inr,
}
use prima_next.Base.Dict.{Dict, lookup, insert}
use prima_next.Base.Names.{sorted_set, sorted_set-not_empty}
use prima_next.Base.Text.{Text, text_eq}
use prima_next.Base.Value.{Value, number, value_eq}
use prima_next.Tools.Invocation.{ToolInvocation}
use prima_next.Tools.Validator.{
  ToolParameterSpec, ParameterType, unexpected, type_map, matches_expected_type, value_length,
  below, shorter, is_zero_length, Checked, passed, refused, check_constraints, check_value,
  check_typed, wrong_type, missing, note, check_present, Report, check_spec, check_specs, keys,
  spec_names, validate,
}
use prima_next.Tools.Validator.Sanitize.{sanitize, is_plain, sanitize_sound}

-- What a present argument has met.
pub record IsAccepted (s : ToolParameterSpec) (v : Value) : Type 0 where
  pub typed :
      (t : ParameterType) × (type_map s.parameter_type ≡ some t)
      × (matches_expected_type v t ≡ true)
  pub listed : is_empty s.allowed_values ≡ false → any (value_eq v) s.allowed_values ≡ true
  pub at_least : below (number v) s.min_value ≡ false
  pub at_most : below s.max_value (number v) ≡ false
  pub filled : s.allow_empty ≡ false → is_zero_length (value_length v) ≡ false
  pub long_enough : shorter (value_length v) s.min_length ≡ false
  pub short_enough : shorter s.max_length (value_length v) ≡ false
  pub safe : (w : Value) × (sanitize v ≡ some w)

constraints_met :
    (s : ToolParameterSpec) (v : Value) (t : ParameterType) {w : Value}
    → type_map s.parameter_type ≡ some t
    → matches_expected_type v t ≡ true
    → check_constraints s v ≡ passed w
    → IsAccepted s v × (sanitize v ≡ some w)
unfolding check_constraints
constraints_met s v t known fits h = ground arith

typed_met :
    (s : ToolParameterSpec) (v : Value) (o : Option ParameterType) {w : Value}
    → type_map s.parameter_type ≡ o
    → check_typed s v o ≡ passed w
    → IsAccepted s v × (sanitize v ≡ some w)
typed_met s v none e h = cc
typed_met s v (some t) e h = elim (Bool-cases (matches_expected_type v t)) [
  | inl fits ↦ constraints_met s v t e fits (rw fits at h)
  | inr misfit ↦ let impossible : refused (wrong_type s.name) ≡ passed _ = (rw misfit at h) in cc
]

value_met :
    (s : ToolParameterSpec) (v : Value) {w : Value}
    → check_value s v ≡ passed w
    → IsAccepted s v × (sanitize v ≡ some w)
unfolding check_value
value_met s v h = typed_met s v (type_map s.parameter_type) refl h

-- What a report with no error says of one parameter.
abbrev pub IsMet : ToolParameterSpec → Option Value → Type 0
IsMet s none = s.required ≡ false
IsMet s (some v) = IsAccepted s v

abbrev pub AllPlain : Dict Text Value → Type 0
AllPlain [] = Unit
AllPlain ((k, v) ∷ d) = (is_plain v ≡ true) × AllPlain d

insert-AllPlain :
    (k : Text) (v : Value) (d : Dict Text Value)
    → is_plain v ≡ true
    → AllPlain d
    → AllPlain (insert k v d)
insert-AllPlain k v [] p h = (p, tt)
insert-AllPlain k v ((j, w) ∷ d) p h = ground (arith, insert-AllPlain k v d p h.1)

append-not_empty {ℓ} : {A : Type ℓ} (xs : List A) (x : A) → is_empty (xs ++ (x ∷ [])) ≡ false
append-not_empty [] x = refl
append-not_empty (y ∷ xs) x = refl

noted :
    (s : ToolParameterSpec) (r : Report) (v : Value) (k : Checked)
    → check_value s v ≡ k
    → is_empty (note s r k).0 ≡ true
    → (is_empty r.0 ≡ true) × IsAccepted s v
noted s r v (passed w) e h = (h, (value_met s v e).0)
noted s r v (refused x) e h = cc (append-not_empty r.0 x)

present :
    (s : ToolParameterSpec) (r : Report) (o : Option Value)
    → is_empty (check_present s r o).0 ≡ true
    → (is_empty r.0 ≡ true) × IsMet s o
present s r none h = ground (arith, append-not_empty r.0 (missing s.name))
present s r (some v) h = noted s r v (check_value s v) refl h

-- A clean report was clean at the start, and every parameter of the schema is met.
specs-IsMet :
    (arguments : Dict Text Value) (schema : List ToolParameterSpec) (r : Report)
    → is_empty (check_specs arguments schema r).0 ≡ true
    → (is_empty r.0 ≡ true) × All (λ s. IsMet s (lookup s.name arguments)) schema
unfolding check_specs check_spec
specs-IsMet arguments [] r h = (h, tt)
specs-IsMet arguments (s ∷ schema) r h =
    let (clean, rest) = specs-IsMet arguments schema (check_spec arguments s r) h in
    let (before, met) = present s r (lookup s.name arguments) clean in (before, (met, rest))

noted-plain :
    (s : ToolParameterSpec) (r : Report) (v : Value) (k : Checked)
    → check_value s v ≡ k
    → AllPlain r.1
    → AllPlain (note s r k).1
noted-plain s r v (passed w) e h =
    insert-AllPlain s.name w r.1 (sanitize_sound v (value_met s v e).1) h
noted-plain s r v (refused x) e h = h

present-plain :
    (s : ToolParameterSpec) (r : Report) (o : Option Value)
    → AllPlain r.1
    → AllPlain (check_present s r o).1
present-plain s r none h = ground arith
present-plain s r (some v) h = noted-plain s r v (check_value s v) refl h

specs-plain :
    (arguments : Dict Text Value) (schema : List ToolParameterSpec) (r : Report)
    → AllPlain r.1
    → AllPlain (check_specs arguments schema r).1
unfolding check_specs check_spec
specs-plain arguments [] r h = h
specs-plain arguments (s ∷ schema) r h =
    specs-plain arguments schema (check_spec arguments s r)
      (present-plain s r (lookup s.name arguments) h)

no_extra : (xs : List Text) → is_empty (map unexpected (sorted_set xs)) ≡ true → xs ≡ []
no_extra [] h = refl
no_extra (a ∷ xs) h = ground (arith, sorted_set-not_empty a xs)

-- A valid report means that no argument is undeclared, that every required parameter is there, and
-- that every argument given has its declared type, is among the allowed values where some are
-- named, lies within the bounds on value and length, is not empty where that is forbidden, and can
-- be sanitized.
pub validate_sound :
    (i : ToolInvocation) (schema : List ToolParameterSpec)
    → (validate i schema).is_valid ≡ true
    → (minus (keys i.arguments) (spec_names schema) ≡ [])
      × All (λ s. IsMet s (lookup s.name i.arguments)) schema
unfolding validate
validate_sound i schema h =
    let (clean, met) = specs-IsMet i.arguments schema _ h in
    (no_extra (minus (keys i.arguments) (spec_names schema)) clean, met)

-- Valid or not, every argument that the report hands on has JSON's shape at every depth.
pub validate-AllPlain :
    (i : ToolInvocation) (schema : List ToolParameterSpec)
    → AllPlain (validate i schema).sanitized_arguments
unfolding validate
validate-AllPlain i schema = specs-plain i.arguments schema _ tt
