-- ===== src/Tests/Maintenance.antt =====
-- A supervisor of a small queue, with an event that fails for good.
use prima_next.Base.{ℕ, ◌+◌, ◌≡◌, refl, true, false, All, none, some, List, [], ◌∷◌, ◌++◌, elem}
use prima_next.Base.Text.{Text, codes, text_eq, strip}
use prima_next.Events.Types.{memory_admitted}
use prima_next.Events.{Event, text_note}
use prima_next.Maintenance.{
  Supervisor, new_supervisor, Step, enqueue_step, start_step, work_step, stop_step, run, step,
  enqueue, start, known, drain, waiting, stopped, stop, record_failure, maintenance_event,
}
use prima_next.Maintenance.Invariant.{IsConsistent, queued_as, in_hand, one_of}
use prima_next.Maintenance.Lifecycle.{run-IsConsistent, run-known, run-final, ended}
use prima_next.Workflow.Context.{ExecutionContext}
use prima_next.Workflow.Facade.Enqueueing.{EnqueueServices, enqueue_admitted, notes_of}
use prima_next.Workflow.Facade.Enqueueing.Order.{enqueue_admitted-IsEnqueued, IsEnqueued}
use prima_next.Tests.Fixtures.{demo_context}
use prima_next.Maintenance.Flush.{drain-ends, queue_steps, IsReportable}

abbrev demo_event : Event
demo_event = record {
  event_type = memory_admitted;
  source = codes "test";
  payload = (codes "memory_id", text_note (codes "m1")) ∷ [];
  event_id = codes "e1";
  topic = codes "memory_maintenance";
  execution_id = none;
  correlation_id = none;
  causation_id = none;
  metadata = [];
}

abbrev demo_uuid : ℕ → Text
demo_uuid n = n ∷ []

-- A queue for one event, and no retries.
abbrev demo_supervisor : Supervisor
demo_supervisor = record {
  max_queue_size = 1;
  max_retries = 0;
  enabled = true;
  queue = [];
  unfinished = 0;
  worker = stopped;
  completed_ids = [];
  terminal_ids = [];
  pending_ids = [];
  retry_count = 0;
  duplicate_count = 0;
  rejected_count = 0;
  failures = [];
  store = [];
  calls = 0;
  uuid = demo_uuid;
}

demo_created : new_supervisor 1 0 true demo_uuid ≡ some demo_supervisor
unfolding new_supervisor
demo_created = refl

-- The event is taken in, tried, cancelled and tried again.
abbrev demo_steps : List Step
demo_steps =
    enqueue_step demo_event
    ∷ start_step
    ∷ work_step none
    ∷ stop_step
    ∷ start_step
    ∷ work_step none
    ∷ work_step (some (codes "broken"))
    ∷ []

run-IsConsistent_example : IsConsistent (run demo_steps demo_supervisor)
run-IsConsistent_example = run-IsConsistent demo_steps 1 0 true demo_uuid demo_created

abbrev queued_supervisor : Supervisor
queued_supervisor = run (enqueue_step demo_event ∷ start_step ∷ []) demo_supervisor

demo_known : known (codes "e1") queued_supervisor ≡ true
unfolding run step enqueue start
demo_known = refl

queued-IsConsistent : IsConsistent queued_supervisor
queued-IsConsistent =
    run-IsConsistent (enqueue_step demo_event ∷ start_step ∷ []) 1 0 true demo_uuid demo_created

run-known_example :
    let t = run demo_steps queued_supervisor in
    queued_as (codes "e1") t.queue + in_hand (codes "e1") t.worker + one_of (ended (codes "e1") t)
    ≡ 1
run-known_example =
    run-known (codes "e1") demo_steps queued_supervisor queued-IsConsistent demo_known

failed-IsConsistent : IsConsistent (run demo_steps demo_supervisor)
failed-IsConsistent = run-IsConsistent demo_steps 1 0 true demo_uuid demo_created

demo_ended : ended (codes "e1") (run demo_steps demo_supervisor) ≡ true
unfolding run step enqueue start stop record_failure maintenance_event strip
demo_ended = refl

run-final_example :
    let t = run (enqueue_step demo_event ∷ []) (run demo_steps demo_supervisor) in
    (ended (codes "e1") t ≡ true)
    × (queued_as (codes "e1") t.queue + in_hand (codes "e1") t.worker ≡ 0)
run-final_example =
    run-final (codes "e1") (enqueue_step demo_event ∷ []) (run demo_steps demo_supervisor)
      failed-IsConsistent demo_ended

demo_waiting : queued_supervisor.worker ≡ waiting
unfolding run step enqueue start
demo_waiting = refl

demo-IsReportable : All IsReportable queued_supervisor.queue
unfolding run step enqueue start strip
demo-IsReportable = (refl, tt)

drain-ends_example :
    let t =
      drain
        (λ n e. some (codes "broken"))
        (queue_steps queued_supervisor.max_retries queued_supervisor.queue)
        queued_supervisor in
    (t.queue ≡ [])
    × (t.worker ≡ waiting)
    × (t.unfinished ≡ 0)
    × ((k : Text) → elem k t.pending_ids ≡ false)
drain-ends_example =
    drain-ends (λ n e. some (codes "broken")) queued_supervisor queued-IsConsistent demo_waiting
      demo-IsReportable

-- The commit of one note, after which the queue is full.
abbrev demo_services : EnqueueServices
demo_services = record {
  note_id = λ o. o;
  execution_id = codes "x1";
  event_id = λ n. codes "e" ++ demo_uuid n;
  has_note = λ k. true;
  admission = λ o. [];
}

abbrev committed_context : ExecutionContext
committed_context = record demo_context { memory_notes_created = codes "m1" ∷ codes "m2" ∷ [] }

demo_supervisor-IsConsistent : IsConsistent demo_supervisor
unfolding run
demo_supervisor-IsConsistent = run-IsConsistent [] 1 0 true demo_uuid demo_created

enqueue_admitted-IsEnqueued_example :
    IsEnqueued
      (notes_of demo_services committed_context)
      demo_supervisor
      (enqueue_admitted demo_services committed_context demo_supervisor)
enqueue_admitted-IsEnqueued_example =
    enqueue_admitted-IsEnqueued demo_services committed_context demo_supervisor
      demo_supervisor-IsConsistent
