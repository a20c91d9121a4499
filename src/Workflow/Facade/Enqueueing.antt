-- ===== src/Workflow/Facade/Enqueueing.antt =====
-- `MaintenanceEnqueueController` of workflow/prima_workflow.py: the admitted memories become events
-- of the background supervisor. The bus of the supervisor, to which nothing in the repository
-- subscribes, stores each event.
pub mod Order
mod Added
use prima_next.Base.{
  ℕ, Bool, true, false, not, ◌&&◌, Option, none, some, List, [], ◌∷◌, ◌++◌, map, length, is_empty,
  if◌then◌else◌,
}
use prima_next.Base.Dict.{Dict}
use prima_next.Base.Text.{Text, codes}
use prima_next.Events.Types
use prima_next.Events.{Event, Note, append}
use prima_next.Maintenance.{
  Supervisor, maintenance_event, enqueue, Enqueued, queued, duplicate, saturated, refused,
}
use prima_next.Workflow.Context.{Object, PhaseResult, ingested, ExecutionContext}

-- What the controller reads besides: the identifiers of notes, of the execution and of the events
-- (by the number of events stored), whether the repository has a note, and the plain values of an
-- admission record.
pub record EnqueueServices : Type 0 where
  pub note_id : Object → Text
  pub execution_id : Text
  pub event_id : ℕ → Text
  pub has_note : Text → Bool
  pub admission : Option Object → Dict Text Note

-- The notes to maintain: those created, and the one ingested where the repository has it.
abbrev pub ingested_ids : (Text → Bool) → Option PhaseResult → List Text
ingested_ids has_note (some (ingested k)) = if not (is_empty k) && has_note k then k ∷ [] else []
ingested_ids has_note _ = []

abbrev pub notes_of : EnqueueServices → ExecutionContext → List Text
notes_of v c = map v.note_id c.memory_notes_created ++ ingested_ids v.has_note c.ingestion_result

-- The identifiers queued so far, whether the loop was ended by an exception, and the supervisor.
pub record Enqueueing : Type 0 where
  pub queued_ids : List Text
  pub raised : Bool
  pub supervisor : Supervisor

abbrev pub raising : Supervisor → Enqueueing
raising s = record { queued_ids = []; raised = true; supervisor = s }

-- What an answer of `enqueue` adds to the rest of the loop.
abbrev pub after_enqueue : Enqueued → Text → Supervisor → Enqueueing → Enqueueing
after_enqueue queued k s rest = record rest { queued_ids = k ∷ rest.queued_ids }
after_enqueue duplicate k s rest = rest
after_enqueue saturated k s rest = rest
after_enqueue refused k s rest = rest
after_enqueue _ k s rest = raising s

-- The event of one note.
unfoldable pub admitted_event : EnqueueServices → Dict Text Note → Text → Supervisor → Option Event
admitted_event v payload m s =
    maintenance_event Types.memory_admitted (v.event_id (length s.store)) m (codes "prima_workflow")
      (some v.execution_id) none payload

abbrev pub stored : Event → Supervisor → Supervisor
stored event s = record s { store = append event s.store }

-- The loop over the notes.
unfoldable pub enqueue_notes :
    EnqueueServices → Dict Text Note → List Text → Supervisor → Enqueueing
unfolding enqueue
enqueue_notes v payload [] s = record { queued_ids = []; raised = false; supervisor = s }
enqueue_notes v payload (m ∷ ms) s = elim (admitted_event v payload m s) [
  | none ↦ raising s
  | some event ↦
      let (answer, s') = enqueue event (stored event s) in
      after_enqueue answer event.event_id s' (enqueue_notes v payload ms s')
]

abbrev pub reason : List Text → List Text → Supervisor → Text
reason (k ∷ ks) notes s = codes "queued"
reason [] notes s =
    if not s.enabled
    then codes "maintenance_disabled"
    else if is_empty notes
    then codes "no_admitted_memory"
    else codes "queue_saturated_or_duplicate"

-- The result, without the supervisor's diagnostics.
pub record EnqueueResult : Type 0 where
  pub queued_count : ℕ
  pub event_ids : List Text
  pub reason : Text

-- `execute`: none where it raises.
unfoldable pub enqueue_admitted :
    EnqueueServices → ExecutionContext → Supervisor → Option EnqueueResult × Supervisor
unfolding enqueue_notes
enqueue_admitted v c s =
    let notes = notes_of v c in
    let e = enqueue_notes v (v.admission c.memory_admission) notes s in
    if e.raised then (none, e.supervisor) else (
      some (record {
        queued_count = length e.queued_ids;
        event_ids = e.queued_ids;
        reason = reason e.queued_ids notes e.supervisor;
      }),
      e.supervisor,
    )
