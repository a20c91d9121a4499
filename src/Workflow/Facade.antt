-- ===== src/Workflow/Facade.antt =====
-- workflow/prima_workflow.py: the controllers that shape the output and commit the state and the
-- memory. A note is its content, and the repository the list of the notes added.
pub mod Traces
pub mod Enqueueing
use prima_next.Base.{
  ℕ, ◌+◌, Bool, true, false, not, ◌&&◌, ◌||◌, ◌==◌, Option, none, some, List, [], ◌∷◌, ◌++◌, elem,
  is_none, ltb, get_or, if◌then◌else◌,
}
use prima_next.Base.Decimal.{decimal}
use prima_next.Base.Text.{Text, codes, text_eq}
use prima_next.State.{
  CognitiveState, StateError, empty_session, version_conflict, unsupported_section, States, Result,
  ok, err, load, save,
}
use prima_next.Workflow.Advice.{ReflectionAction, ask_user}
use prima_next.Workflow.Context.{
  Object, PhaseResult, loaded_state, generated, shaped, ingested, acted, committed_state,
  committed_memory, ExecutionContext, ExecutionDecision, ask_for_clarification, retry_retrieval,
  GenerationOutcome, answered, abstained, failed,
}
use prima_next.Workflow.Engine.{Outcome, returned, raised}
use prima_next.Workflow.Engine.Corrections.{decision_of}

abbrev pub outcome_value : GenerationOutcome → Text
outcome_value answered = codes "answered"
outcome_value abstained = codes "abstained"
outcome_value failed = codes "failed"

abbrev pub clarify_text : Text
clarify_text = codes "Please clarify the request before I continue."

-- Why a request is answered by a fixed text: none where it is not.
unfoldable pub terminal_text : Option ReflectionAction → Option Text
terminal_text (some ask_user) = some clarify_text
terminal_text (some ReflectionAction.abstain) =
    some (codes "I cannot safely complete this request.")
terminal_text _ = none

unfoldable pub gate_text : Option ExecutionDecision → Option Text
gate_text (some ask_for_clarification) = some clarify_text
gate_text (some ExecutionDecision.abstain) =
    some (codes "I cannot safely complete this request with the available evidence.")
gate_text (some retry_retrieval) =
    some (codes "I cannot safely complete this request with the available evidence.")
gate_text _ = none

abbrev pub first_text : Option Text → Option Text → Option Text
first_text none o = o
first_text (some t) o = some t

unfoldable pub fixed_text : ExecutionContext → Option Text
unfolding terminal_text gate_text
fixed_text c =
    first_text (terminal_text c.metadata.correction_terminal_action)
      (gate_text (decision_of c.execution_decision))

abbrev pub as_task : Text → ExecutionContext → Bool
as_task t c = c.metadata.task_kind == t

-- The result of a route without an answer.
unfoldable pub shape_action : ExecutionContext → Outcome
shape_action c =
    if as_task (codes "historical_replay") c
    then returned (shaped (codes "ingested") none)
    else if as_task (codes "emotion_classification") c && not (is_none c.affect_update)
    then returned (shaped (codes "classified") none)
    else if is_none c.action_result
    then raised
        (codes "Output shaping requires a generation, ingestion, classification, or action result.")
    else returned (shaped (codes "actioned") none)

unfoldable pub shape_ingestion : Option PhaseResult → ExecutionContext → Outcome
unfolding shape_action
shape_ingestion none c = shape_action c
shape_ingestion (some (ingested memory_id)) c = returned (shaped (codes "ingested") none)
shape_ingestion (some r) c = raised (codes "object has no attribute 'memory_id'")

unfoldable pub shape_result : Option PhaseResult → ExecutionContext → Outcome
unfolding shape_ingestion
shape_result none c = shape_ingestion c.ingestion_result c
shape_result (some (generated g)) c = returned (shaped (outcome_value g.outcome) (some g.text))
shape_result (some r) c = raised (codes "object has no attribute 'text'")

-- `OutputController.execute`
unfoldable pub shape_output : ExecutionContext → Outcome
unfolding fixed_text shape_result
shape_output c = elim (fixed_text c) [
  | some t ↦ returned (shaped (codes "abstained") (some t))
  | none ↦ shape_result c.generation_result c
]

-- `output.get("outcome", "failed")` and `output.get("text", "")`
abbrev pub output_outcome : Option PhaseResult → Text
output_outcome (some (shaped o t)) = o
output_outcome _ = codes "failed"

abbrev pub output_text : Option PhaseResult → Text
output_text (some (shaped o t)) = get_or t (codes "None")
output_text _ = []

-- The messages of the exceptions, the session printed without escapes.
abbrev pub error_text : Text → StateError → Text
error_text session empty_session = codes "session_id must not be empty"
error_text session (version_conflict expected actual) =
    codes "State version conflict for '"
    ++ (session
        ++ (codes "': expected "
            ++ (decimal expected ++ (codes ", found " ++ (decimal actual ++ codes ".")))))
error_text session (unsupported_section s) = codes "Unsupported state delta section: " ++ s

-- `StateLoadController.execute`, for the session and the time.
unfoldable pub load_state : Text → ℕ → States → Outcome
load_state session now d = returned (loaded_state (load session now d))

abbrev pub committed_result : Text → Result × States → Outcome × States
committed_result session (ok s, d) = (returned (committed_state s true), d)
committed_result session (err e, d) = (raised (error_text session e), d)

-- `StateCommitController.execute`
unfoldable pub commit_state : Text → ℕ → ExecutionContext → States → Outcome × States
commit_state session now c d =
    if elem (output_outcome c.output) (codes "failed" ∷ codes "cancelled" ∷ [])
    then (returned (committed_state c.cognitive_state false), d)
    else committed_result session (save session c.cognitive_state c.cognitive_state.version now d)

-- What the commit of memory asks of the other parts: whether the importance engine admits the
-- turn, how many tools an action result reports, and the text of a procedure.
pub record MemoryServices : Type 0 where
  pub decide : ExecutionContext → Bool × Object
  pub tool_count : Option PhaseResult → ℕ
  pub procedure_text : ExecutionContext → Object

abbrev pub is_success : Option PhaseResult → Bool
is_success (some (acted s t)) = s == codes "success"
is_success _ = false

abbrev refusal : Text → List Object → Outcome × List Object
refusal reason repository = (returned (committed_memory [] (some reason)), repository)

abbrev admitted : List Object → Object → List Object → Outcome × List Object
admitted notes admission repository =
    (returned (committed_memory notes (some admission)), repository ++ notes)

-- `_commit_procedure`
unfoldable pub commit_procedure :
    MemoryServices → ExecutionContext → List Object → Outcome × List Object
commit_procedure m c repository =
    if not (is_success c.action_result)
    then refusal (codes "not_successful") repository
    else if ltb (m.tool_count c.action_result) 1
    then refusal (codes "no_tool_execution") repository
    else admitted (m.procedure_text c ∷ []) (codes "verified_successful_procedures_only") repository

-- `MemoryCommitController.execute`
unfoldable pub commit_memory :
    MemoryServices → ExecutionContext → List Object → Outcome × List Object
unfolding commit_procedure
commit_memory m c repository =
    let outcome = output_outcome c.output in
    let (stored, log) = m.decide c in
    if elem outcome (codes "failed" ∷ codes "cancelled" ∷ codes "abstained" ∷ [])
    then refusal outcome repository
    else if as_task (codes "tool_request") c
    then commit_procedure m c repository
    else if not stored
    then refusal log repository
    else if as_task (codes "historical_replay") c
    then admitted (c.user_input ∷ []) log repository
    else admitted (c.user_input ∷ output_text c.output ∷ []) log repository
