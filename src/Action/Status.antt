-- ===== src/Action/Status.antt =====
-- What the aggregate status of an execution says of its steps (action/action_executor.py).
use prima_next.Base.{
  ℕ, ◌+◌, ◌≤◌, ◌<◌, ◌≡◌, refl, subst, Bool, true, false, Option, none, some, List, [], ◌∷◌, all,
  any, length, count_by, arith,
}
use prima_next.Base.Text.{Text, text_eq}
use prima_next.Tools.Invocation.{ToolInvocation}
use prima_next.Tools.Policy.{ExecutionPolicy}
use prima_next.Tools.Registry.{ToolRegistry}
use prima_next.Action.{
  Plan, ExecutionStepResult, ExecutionResult, success, blocked, failed, is_status, aggregate_status,
  count_status, summary, execute, finish, run_plan, Pending, AuditRecord, Progress,
  tool_invocations,
}

module _ {ℓ} {A : Type ℓ} (test : A → Bool) where
  any-count : (xs : List A) → any test xs ≡ true → 0 < count_by test xs
  any-count [] h = cc
  any-count (x ∷ xs) h = ground (arith, any-count xs)

  any-count_zero : (xs : List A) → any test xs ≡ false → count_by test xs ≡ 0
  any-count_zero [] h = refl
  any-count_zero (x ∷ xs) h = ground (arith, any-count_zero xs)

  count-le-length : (xs : List A) → count_by test xs ≤ length xs
  count-le-length [] = omega arith
  count-le-length (x ∷ xs) = ground (arith, count-le-length xs)

  all-count : (xs : List A) → all test xs ≡ true → count_by test xs ≡ length xs
  all-count [] h = refl
  all-count (x ∷ xs) h = ground (arith, all-count xs)

  all-count_lt : (xs : List A) → all test xs ≡ false → count_by test xs < length xs
  all-count_lt [] h = cc
  all-count_lt (x ∷ xs) h = ground (arith, all-count_lt xs, count-le-length xs)

-- The status of a result against its own counts.
pub record Agrees (x : ExecutionResult) : Type 0 where
  pub on_success : x.status ≡ success → (0 < x.step_count) × (x.successful_steps ≡ x.step_count)
  pub if_success : 0 < x.step_count → x.successful_steps ≡ x.step_count → x.status ≡ success
  pub on_failed : x.status ≡ failed → 0 < x.failed_steps
  pub if_failed : 0 < x.failed_steps → x.status ≡ failed
  pub on_blocked : x.status ≡ blocked → (x.failed_steps ≡ 0) × (0 < x.blocked_steps)
  pub if_blocked : x.failed_steps ≡ 0 → 0 < x.blocked_steps → x.status ≡ blocked

disjoint :
    (xs : List ExecutionStepResult)
    → count_status success xs + (count_status blocked xs + count_status failed xs) ≤ length xs
disjoint [] = omega arith
disjoint (x ∷ xs) = ground (arith, disjoint xs)

summary-Agrees :
    (p : ExecutionPolicy) (plan : Plan) (is : List ToolInvocation) (g : Progress)
    → Agrees (summary p plan is g)
unfolding aggregate_status
summary-Agrees p plan is g =
    let s = λ (t : ExecutionStepResult). is_status t.status success in
    let b = λ (t : ExecutionStepResult). is_status t.status blocked in
    let f = λ (t : ExecutionStepResult). is_status t.status failed in
    ground (
      arith,
      any-count f g.steps,
      any-count_zero f g.steps,
      any-count b g.steps,
      any-count_zero b g.steps,
      all-count s g.steps,
      all-count_lt s g.steps,
      disjoint g.steps,
    )

abbrev OptionAgrees : Option (ExecutionResult × List ToolInvocation) → Type 0
OptionAgrees none = Unit
OptionAgrees (some (x, calls)) = Agrees x

finish-Agrees :
    (r : ToolRegistry) (p : ExecutionPolicy) (plan : Plan) (log : List AuditRecord) (o : Pending)
    {x : ExecutionResult} {calls : List ToolInvocation}
    → finish r p plan log o ≡ some (x, calls)
    → Agrees x
finish-Agrees r p plan log none h = cc
finish-Agrees r p plan log (some is) h =
    subst OptionAgrees h (
      summary-Agrees p plan is
        (run_plan r p plan is (record { steps = []; log = log; calls = [] })))

-- The status of an execution agrees with its steps: success exactly where there is a step and every
-- step succeeded, failed exactly where some step failed, and blocked exactly where none failed and
-- some was blocked.
execute-Agrees :
    (fresh : ℕ → Text) (r : ToolRegistry) (p : ExecutionPolicy) (plan : Plan)
    (log : List AuditRecord) {x : ExecutionResult} {calls : List ToolInvocation}
    → execute fresh r p plan log ≡ some (x, calls)
    → Agrees x
unfolding execute
execute-Agrees fresh r p plan log h = finish-Agrees r p plan _ (tool_invocations fresh plan) h
