-- ===== src/Tests/Tools.antt =====
-- A registered tool that adds to a number, and invocations of it.
use prima_next.Base.{◌≡◌, ◌≢◌, ◌↔◌, refl, true, some, [], ◌∷◌, All, minus, length, arith}
use prima_next.Base.Int.{pos}
use prima_next.Base.Dict.{lookup}
use prima_next.Base.Names.{sorted_set}
use prima_next.Base.Text.{codes, text_eq}
use prima_next.Base.Value.{Value, int, list, tuple, nil, cons}
use prima_next.Tools.Policy.{evaluate_invocation, evaluate_invocation-IsPermitted, IsPermitted}
use prima_next.Tools.Registry.{RegisteredTool, register, route}
use prima_next.Tools.Validator.{
  validate, check_specs, check_spec, check_value, check_constraints, keys, spec_names,
}
use prima_next.Tools.Validator.Sanitize.{sanitize}
use prima_next.Tools.Validator.Soundness.{validate_sound, AllPlain, IsMet}
use prima_next.Tools.Executor.{execute, sanitized}
use prima_next.Tools.Executor.Guards.{execute-IsGuarded, IsGuarded}
use prima_next.Tests.Fixtures.{adder, adder_spec, demo_registry, open_policy, add_two}

evaluate_invocation-IsPermitted_example :
    ((evaluate_invocation open_policy add_two 0).allowed ≡ true) ↔ IsPermitted open_policy add_two 0
evaluate_invocation-IsPermitted_example = evaluate_invocation-IsPermitted open_policy add_two 0

one_call : length (execute demo_registry open_policy add_two 0).1 ≡ 1
unfolding execute evaluate_invocation route validate check_specs check_spec check_value
    check_constraints sanitize sorted_set
one_call = refl

demo_calls : (execute demo_registry open_policy add_two 0).1 ≢ []
demo_calls h = ground (arith, one_call)

execute-IsGuarded_example :
    (t : RegisteredTool) × IsGuarded demo_registry open_policy add_two 0 t
    × ((execute demo_registry open_policy add_two 0).1
        ≡ sanitized add_two (validate add_two t.schema) ∷ [])
    × AllPlain (sanitized add_two (validate add_two t.schema)).arguments
execute-IsGuarded_example = execute-IsGuarded demo_registry open_policy add_two 0 demo_calls

demo_valid : (validate add_two (adder_spec ∷ [])).is_valid ≡ true
unfolding validate check_specs check_spec check_value check_constraints sanitize sorted_set
demo_valid = refl

validate_sound_example :
    (minus (keys add_two.arguments) (spec_names (adder_spec ∷ [])) ≡ [])
    × All (λ s. IsMet s (lookup s.name add_two.arguments)) (adder_spec ∷ [])
validate_sound_example = validate_sound add_two (adder_spec ∷ []) demo_valid

-- A tuple in a tuple, which the sanitizer makes lists.
abbrev nested : Value
nested = tuple (cons (tuple (cons (int (pos 1)) nil)) nil)

abbrev plain_nested : Value
plain_nested = list (cons (list (cons (int (pos 1)) nil)) nil)

demo_sanitized : sanitize nested ≡ some plain_nested
unfolding sanitize
demo_sanitized = refl

-- The registry with a second tool.
abbrev doubler : RegisteredTool
doubler = record adder { name = codes "doubler" }

demo_registered :
    register doubler demo_registry ≡ some ((codes "adder", adder) ∷ (codes "doubler", doubler) ∷ [])
unfolding register
demo_registered = refl

demo_routed : route demo_registry add_two ≡ some adder
unfolding route
demo_routed = refl
