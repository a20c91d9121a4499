-- ===== src/Maintenance/Failures.antt =====
-- The supervisor's state and the records of its failures
-- (memory/maintenance/background_supervisor.py, events/maintenance_events.py).
use prima_next.Base.{
  ℕ, Bool, true, false, not, Option, none, some, List, [], ◌∷◌, ◌++◌, is_empty, elem, filter_by,
  length, ltb, ◌==◌, nat_eq, if◌then◌else◌,
}
use prima_next.Base.Dict.{Dict, lookup}
use prima_next.Base.Decimal.{decimal}
use prima_next.Base.Text.{Text, codes, text_eq, strip}
use prima_next.Events.Types
use prima_next.Events.Types.{EventType, event_type_value, event_type_eq}
use prima_next.Events.{Event, Note, text_note, count_note, EventStore, append}

abbrev pub maintenance_event_types : List EventType
maintenance_event_types =
    Types.memory_admitted ∷ Types.memory_encoded ∷ Types.salience_scored ∷ Types.short_term_buffered
    ∷ Types.consolidation_requested ∷ Types.consolidation_completed ∷ Types.abstraction_requested
    ∷ Types.abstraction_completed ∷ Types.graph_index_updated ∷ Types.decay_applied
    ∷ Types.maintenance_failed ∷ []

pub data MaintenanceMode : Type 0 where
  disabled eventual flush_after_conversation flush_before_question : MaintenanceMode
  flush_before_finalization : MaintenanceMode

pub data MaintenanceBarrier : Type 0 where
  after_conversation before_question before_finalization : MaintenanceBarrier

pub record MaintenanceFailure : Type 0 where
  pub event_id : Text
  pub event_type : Text
  pub memory_id : Text
  pub attempts : ℕ
  pub error : Text

pub data Worker : Type 0 where
  -- no task, or one that is done
  stopped : Worker
  -- in `await self._queue.get()`
  waiting : Worker
  -- in `await result`, with the attempts counted so far
  handling : Event → ℕ → Worker

pub record Supervisor : Type 0 where
  pub max_queue_size : ℕ
  pub max_retries : ℕ
  pub enabled : Bool
  pub queue : List Event
  pub unfinished : ℕ
  pub worker : Worker
  pub completed_ids : List Text
  pub terminal_ids : List Text
  pub pending_ids : List Text
  pub retry_count : ℕ
  pub duplicate_count : ℕ
  pub rejected_count : ℕ
  pub failures : List MaintenanceFailure
  pub store : EventStore
  pub calls : ℕ
  -- the n-th `uuid4`, as a text
  pub uuid : ℕ → Text

-- The constructor; none where it raises.
unfoldable pub new_supervisor : ℕ → ℕ → Bool → (ℕ → Text) → Option Supervisor
new_supervisor size retries enabled uuid =
    if ltb size 1
    then none
    else some (record {
      max_queue_size = size;
      max_retries = retries;
      enabled = enabled;
      queue = [];
      unfinished = 0;
      worker = stopped;
      completed_ids = [];
      terminal_ids = [];
      pending_ids = [];
      retry_count = 0;
      duplicate_count = 0;
      rejected_count = 0;
      failures = [];
      store = [];
      calls = 0;
      uuid = uuid;
    })

-- `set.add` and `set.discard`
abbrev pub add_id : Text → List Text → List Text
add_id k ids = if elem k ids then ids else k ∷ ids

abbrev pub discard_id : Text → List Text → List Text
discard_id k ids = filter_by (λ i. not (i == k)) ids

-- `str(payload.get("memory_id", ""))`
abbrev pub note_text : Option Note → Text
note_text none = []
note_text (some (text_note t)) = t
note_text (some (count_note n)) = decimal n

abbrev pub memory_of : Event → Text
memory_of event = note_text (lookup (codes "memory_id") event.payload)

abbrev pub or_unknown : Text → Text
or_unknown t = if is_empty t then codes "unknown" else t

-- `maintenance_event`, with the identifier that the event is given; none where it raises.
unfoldable pub maintenance_event :
    EventType → Text → Text → Text → Option Text → Option Text → Dict Text Note → Option Event
maintenance_event event_type event_id memory_id source execution_id causation_id payload =
    if not (elem event_type maintenance_event_types)
    then none
    else if is_empty (strip memory_id)
    then none
    else some (record {
      event_type = event_type;
      source = source;
      payload =
          (codes "schema_version", text_note (codes "1.0"))
          ∷ (codes "memory_id", text_note memory_id)
          ∷ payload;
      event_id = event_id;
      topic = codes "memory_maintenance";
      execution_id = execution_id;
      correlation_id = some memory_id;
      causation_id = causation_id;
      metadata = [];
    })

abbrev pub store_failed : Option Event → Supervisor → Bool × Supervisor
store_failed none s = (true, s)
store_failed (some event) s = (false, record s { store = append event s.store })

abbrev pub note_failure : Event → ℕ → Text → Supervisor → Supervisor
note_failure event attempts error s = record s {
  terminal_ids = add_id event.event_id s.terminal_ids;
  failures =
      s.failures
      ++ (record {
        event_id = event.event_id;
        event_type = event_type_value event.event_type;
        memory_id = memory_of event;
        attempts = attempts;
        error = error;
      }
          ∷ []);
}

-- `_record_failure`, and whether it raises.
unfoldable pub record_failure : Event → ℕ → Text → Supervisor → Bool × Supervisor
record_failure event attempts error s =
    store_failed
      (maintenance_event Types.maintenance_failed (codes "event_" ++ s.uuid (length s.failures))
        (or_unknown (memory_of event)) (codes "background_maintenance_supervisor")
        event.execution_id (some event.event_id)
        ((codes "attempts", count_note attempts) ∷ (codes "error", text_note error) ∷ []))
      (note_failure event attempts error s)
