-- ===== src/Tools/Validator.antt =====
-- tools/tool_validator.py: declarative checks of a tool's arguments.
pub mod Sanitize
pub mod Soundness
use prima_next.Base.{
  ℕ, suc, Bool, true, false, not, ◌&&◌, ◌||◌, Option, none, some, List, [], ◌∷◌, ◌++◌, map, ltb,
  elem, minus, is_empty, is_none, any, ◌==◌, if◌then◌else◌, nat_eq,
}
use prima_next.Base.Dict.{Dict, lookup, insert}
use prima_next.Base.Int.{ℤ}
use prima_next.Base.Names.{sorted_set}
use prima_next.Base.Text.{Text, codes, text_eq}
use prima_next.Base.Value.{
  Value, bool, int, float, str, list, dict, number, ltb_ℤ, length_items, length_fields, value_eq,
}
use prima_next.Tools.Invocation.{ToolInvocation}
use Sanitize.{sanitize}

-- The keys of `TYPE_MAP`.
pub data ParameterType : Type 0 where
  str_type int_type float_type bool_type dict_type list_type : ParameterType

-- `TYPE_MAP.get(name)`
abbrev pub type_map : Text → Option ParameterType
type_map name =
    if name == codes "str"
    then some str_type
    else if name == codes "int"
    then some int_type
    else if name == codes "float"
    then some float_type
    else if name == codes "bool"
    then some bool_type
    else if name == codes "dict"
    then some dict_type
    else if name == codes "list"
    then some list_type
    else none

pub record ToolParameterSpec : Type 0 where
  pub name : Text
  pub parameter_type : Text
  pub required : Bool
  pub allowed_values : List Value
  pub min_value : Option ℤ
  pub max_value : Option ℤ
  pub min_length : Option ℕ
  pub max_length : Option ℕ
  pub allow_empty : Bool

-- The messages, by what they say of a parameter or of an unexpected argument.
pub data ValidationError : Type 0 where
  unexpected missing unsupported_type wrong_type not_allowed : Text → ValidationError
  below_minimum above_maximum empty_value too_short too_long unsafe_value : Text → ValidationError

abbrev pub matches_expected_type : Value → ParameterType → Bool
matches_expected_type (str s) str_type = true
matches_expected_type (int n) int_type = true
matches_expected_type (int n) float_type = true
matches_expected_type (float x) float_type = true
matches_expected_type (bool b) bool_type = true
matches_expected_type (dict fs) dict_type = true
matches_expected_type (list xs) list_type = true
matches_expected_type v t = false

abbrev pub length_text : Text → ℕ
length_text [] = 0
length_text (c ∷ s) = suc (length_text s)

-- `len(value)` where `isinstance(value, str | list | dict)`
abbrev pub value_length : Value → Option ℕ
value_length (str s) = some (length_text s)
value_length (list xs) = some (length_items xs)
value_length (dict fs) = some (length_fields fs)
value_length v = none

abbrev pub below : Option ℤ → Option ℤ → Bool
below (some x) (some bound) = ltb_ℤ x bound
below x bound = false

abbrev pub shorter : Option ℕ → Option ℕ → Bool
shorter (some n) (some bound) = ltb n bound
shorter n bound = false

abbrev pub is_zero_length : Option ℕ → Bool
is_zero_length (some n) = n == 0
is_zero_length none = false

pub data Checked : Type 0 where
  passed : Value → Checked
  refused : ValidationError → Checked

abbrev pub checked_safe : Text → Option Value → Checked
checked_safe name none = refused (unsafe_value name)
checked_safe name (some v) = passed v

-- The tests after the type test, in the order of the code.
unfoldable pub check_constraints : ToolParameterSpec → Value → Checked
check_constraints s v =
    if not (is_empty s.allowed_values) && not (any (value_eq v) s.allowed_values)
    then refused (not_allowed s.name)
    else if below (number v) s.min_value
    then refused (below_minimum s.name)
    else if below s.max_value (number v)
    then refused (above_maximum s.name)
    else if is_zero_length (value_length v) && not s.allow_empty
    then refused (empty_value s.name)
    else if shorter (value_length v) s.min_length
    then refused (too_short s.name)
    else if shorter s.max_length (value_length v)
    then refused (too_long s.name)
    else checked_safe s.name (sanitize v)

abbrev pub check_typed : ToolParameterSpec → Value → Option ParameterType → Checked
check_typed s v none = refused (unsupported_type s.name)
check_typed s v (some t) =
    if matches_expected_type v t then check_constraints s v else refused (wrong_type s.name)

unfoldable pub check_value : ToolParameterSpec → Value → Checked
check_value s v = check_typed s v (type_map s.parameter_type)

-- The accumulators of `validate`: errors, and sanitized arguments.
abbrev pub Report : Type 0
Report = List ValidationError × Dict Text Value

abbrev pub note : ToolParameterSpec → Report → Checked → Report
note s (errors, sanitized) (passed v) = (errors, insert s.name v sanitized)
note s (errors, sanitized) (refused x) = (errors ++ (x ∷ []), sanitized)

abbrev pub check_present : ToolParameterSpec → Report → Option Value → Report
check_present s r none = if s.required then (r.0 ++ (missing s.name ∷ []), r.1) else r
check_present s r (some v) = note s r (check_value s v)

-- One round of the loop over the schema.
unfoldable pub check_spec : Dict Text Value → ToolParameterSpec → Report → Report
check_spec arguments s r = check_present s r (lookup s.name arguments)

unfoldable pub check_specs : Dict Text Value → List ToolParameterSpec → Report → Report
check_specs arguments [] r = r
check_specs arguments (s ∷ schema) r = check_specs arguments schema (check_spec arguments s r)

abbrev pub keys : Dict Text Value → List Text
keys [] = []
keys ((k, v) ∷ d) = k ∷ keys d

abbrev pub spec_names : List ToolParameterSpec → List Text
spec_names [] = []
spec_names (s ∷ schema) = s.name ∷ spec_names schema

pub record ToolValidationResult : Type 0 where
  pub is_valid : Bool
  pub errors : List ValidationError
  pub sanitized_arguments : Dict Text Value

unfoldable pub validate : ToolInvocation → List ToolParameterSpec → ToolValidationResult
validate i schema =
    let extra = sorted_set (minus (keys i.arguments) (spec_names schema)) in
    let (errors, sanitized) = check_specs i.arguments schema (map unexpected extra, []) in
    record { is_valid = is_empty errors; errors = errors; sanitized_arguments = sanitized }
