-- ===== src/Maintenance.antt =====
-- memory/maintenance/background_supervisor.py with events/maintenance_events.py: the worker for
-- memory maintenance. The worker is no task, waits for an event, or has one in hand whose handler
-- is awaited for the n-th time; other calls come between any two of its steps. The three sets of
-- identifiers are lists used as sets. `unfinished` is the queue's count for `join`, and `calls`
-- counts the handler's calls that came to an end.
pub mod Failures
pub mod Invariant
pub mod Handling
pub mod Working
pub mod Lifecycle
pub mod Flush
unfoldable pub use Failures.*
use prima_next.Base.{
  ℕ, zero, suc, ◌+◌, ◌-◌, Bool, true, false, not, ◌&&◌, ◌||◌, Option, none, some, List, [], ◌∷◌,
  ◌++◌, is_empty, elem, filter_by, length, leb, ltb, ◌==◌, nat_eq, get_or, if◌then◌else◌,
}
use prima_next.Base.Dict.{Dict, lookup, insert}
use prima_next.Base.Text.{Text, codes, text_eq, strip}
use prima_next.Events.Types
use prima_next.Events.Types.{EventType, event_type_value, event_type_eq}
use prima_next.Events.{Event, Note, text_note, count_note, EventStore, append}

pub data Enqueued : Type 0 where
  queued duplicate saturated refused : Enqueued
  -- the call raises
  unsupported unreported : Enqueued

abbrev pub known : Text → Supervisor → Bool
known k s = elem k s.completed_ids || elem k s.terminal_ids || elem k s.pending_ids

abbrev pub saturate : Event → Supervisor → Enqueued × Supervisor
saturate event s =
    let (raised, s') =
      record_failure event 0 (codes "maintenance_queue_full")
        (record s { rejected_count = s.rejected_count + 1 }) in
    (if raised then unreported else saturated, s')

unfoldable pub enqueue : Event → Supervisor → Enqueued × Supervisor
enqueue event s =
    if not (elem event.event_type maintenance_event_types)
    then (unsupported, s)
    else if not s.enabled
    then (refused, s)
    else if known event.event_id s
    then (duplicate, record s { duplicate_count = s.duplicate_count + 1 })
    else if leb s.max_queue_size (length s.queue)
    then saturate event s
    else (
      queued,
      record s {
        queue = s.queue ++ (event ∷ []);
        unfinished = s.unfinished + 1;
        pending_ids = add_id event.event_id s.pending_ids;
      },
    )

abbrev pub is_running : Worker → Bool
is_running stopped = false
is_running _ = true

unfoldable pub start : Supervisor → Supervisor
start s = if not s.enabled || is_running s.worker then s else record s { worker = waiting }

-- The waiting worker takes the first event.
abbrev pub take_first : List Event → Supervisor → Supervisor
take_first [] s = s
take_first (event ∷ rest) s = record s { queue = rest; worker = handling event 0 }

-- `_queue.task_done()`, and what the worker does next.
abbrev pub task_done : Worker → Supervisor → Supervisor
task_done w s = record s { unfinished = s.unfinished - 1; worker = w }

-- A call of the handler that fails for the n-th time: again, or a failure on record. A worker
-- whose report raises is done.
abbrev pub handler_failed : Event → ℕ → Text → Supervisor → Supervisor
handler_failed event n error s =
    if leb n s.max_retries
    then record s { retry_count = s.retry_count + 1; worker = handling event n }
    else (let (raised, s') =
          record_failure event n error
            (record s { pending_ids = discard_id event.event_id s.pending_ids }) in
        task_done (if raised then stopped else waiting) s')

-- One call of the handler in `_handle`, which returns or raises the exception of that text.
abbrev pub after_call : Event → ℕ → Option Text → Supervisor → Supervisor
after_call event n none s = task_done waiting (record s {
  completed_ids = add_id event.event_id s.completed_ids;
  pending_ids = discard_id event.event_id s.pending_ids;
})
after_call event n (some error) s = handler_failed event n error s

-- The worker goes on, with the answer of the handler it awaits.
abbrev pub work : Worker → Option Text → Supervisor → Supervisor
work stopped answer s = s
work waiting answer s = take_first s.queue s
work (handling event n) answer s =
    after_call event (n + 1) answer (record s { calls = s.calls + 1 })

-- `except asyncio.CancelledError` in `_run`: the event in hand goes back to the queue.
abbrev pub put_back : Event → Supervisor → Bool × Supervisor
put_back event s =
    if leb s.max_queue_size (length s.queue)
    then (let (raised, s') =
          record_failure event 0 (codes "maintenance_cancelled_queue_full")
            (record s { pending_ids = discard_id event.event_id s.pending_ids }) in
        (raised, task_done stopped s'))
    else (
      false,
      task_done stopped
          (record s { queue = s.queue ++ (event ∷ []); unfinished = s.unfinished + 1 }),
    )

-- `worker.cancel()` and `await worker`, and whether that raises.
abbrev pub cancel : Worker → Supervisor → Bool × Supervisor
cancel stopped s = (false, s)
cancel waiting s = (false, record s { worker = stopped })
cancel (handling event n) s = put_back event s

-- `_rebind_queue`: the waiting events in a fresh queue, whose count starts again.
abbrev pub rebind_queue : Supervisor → Supervisor
rebind_queue s = record s { unfinished = length s.queue }

-- `stop(graceful=False)`
unfoldable pub stop : Supervisor → Supervisor
stop s = let (raised, s') = cancel s.worker s in if raised then s' else rebind_queue s'

-- What `apply_barrier` answers: whether it flushes.
unfoldable pub barrier_flushes : Bool → MaintenanceMode → MaintenanceBarrier → Bool
barrier_flushes false mode barrier = false
barrier_flushes true eventual before_finalization = true
barrier_flushes true flush_after_conversation after_conversation = true
barrier_flushes true flush_before_question before_question = true
barrier_flushes true flush_before_finalization before_finalization = true
barrier_flushes true mode barrier = false

-- One step of the program as the supervisor sees it.
pub data Step : Type 0 where
  enqueue_step : Event → Step
  start_step : Step
  work_step : Option Text → Step
  stop_step : Step

unfoldable pub step : Step → Supervisor → Supervisor
step (enqueue_step event) s = (enqueue event s).1
step start_step s = start s
step (work_step answer) s = work s.worker answer s
step stop_step s = stop s

unfoldable pub run : List Step → Supervisor → Supervisor
run [] s = s
run (c ∷ cs) s = run cs (step c s)

-- The worker's next step, with the handler's answer to a call.
abbrev pub drain_step : (ℕ → Event → Option Text) → Worker → Supervisor → Supervisor
drain_step handler (handling event n) s = work (handling event n) (handler s.calls event) s
drain_step handler w s = work w none s

-- The worker's steps while `flush` waits for `join`.
unfoldable pub drain : (ℕ → Event → Option Text) → ℕ → Supervisor → Supervisor
drain handler zero s = s
drain handler (suc fuel) s = drain handler fuel (drain_step handler s.worker s)
