-- ===== src/Maintenance/Flush.antt =====
-- `flush` comes to an end (memory/maintenance/background_supervisor.py): the worker's steps empty
-- the queue, however often the handler fails.
use prima_next.Base.{
  ℕ, zero, suc, ◌+◌, ◌-◌, ◌≤◌, ◌≡◌, refl, Bool, true, false, Option, none, some, List, [], ◌∷◌,
  is_empty, elem, leb, nat_eq, arith, if◌then◌else◌, if-cases, All,
}
use prima_next.Base.Text.{Text, text_eq, strip}
use prima_next.Events.Types.{event_type_eq}
use prima_next.Events.{Event, EventStore, append}
use prima_next.Maintenance.{
  Worker, stopped, waiting, handling, Supervisor, discard_id, note_failure, store_failed,
  or_unknown, memory_of, record_failure, maintenance_event, take_first, handler_failed, after_call,
  drain_step, drain,
}
use prima_next.Maintenance.Working.{work-IsConsistent}
use prima_next.Maintenance.Invariant.{IsConsistent, AttemptsWithin}

-- An event whose failure can be reported: its memory has a name, or none.
abbrev pub IsReportable : Event → Type 0
IsReportable event = is_empty (strip (or_unknown (memory_of event))) ≡ false

-- The steps that the events in the queue and the one in hand take at most.
abbrev pub queue_steps : ℕ → List Event → ℕ
queue_steps retries [] = 0
queue_steps retries (event ∷ queue) = retries + 2 + queue_steps retries queue

abbrev pub steps_left : ℕ → Worker → ℕ
steps_left retries (handling event n) = retries + 1 - n
steps_left retries w = 0

abbrev pub IsAlive : Worker → Type 0
IsAlive stopped = ⊥
IsAlive waiting = Unit
IsAlive (handling event n) = IsReportable event

-- What holds while `join` waits: the worker lives, what waits or is in hand can be reported, and
-- the fuel is enough.
record IsDraining (fuel retries : ℕ) (queue : List Event) (w : Worker) : Type 0 where
  reportable : All IsReportable queue
  alive : IsAlive w
  tried : AttemptsWithin retries w
  enough : queue_steps retries queue + steps_left retries w ≤ fuel

abbrev Drains : ℕ → Supervisor → Type 0
Drains fuel s = IsDraining fuel s.max_retries s.queue s.worker

take-Drains :
    (queue : List Event) (fuel : ℕ) (s : Supervisor)
    → s.worker ≡ waiting
    → s.queue ≡ queue
    → IsDraining (suc fuel) s.max_retries queue waiting
    → Drains fuel (take_first queue s)
take-Drains [] fuel s w q d =
    rw (w, q) (record { reportable = tt; alive = tt; tried = ground arith; enough = ground arith })
take-Drains (event ∷ rest) fuel s w q d = record {
  reportable = d.reportable.1;
  alive = d.reportable.0;
  tried = ground arith;
  enough = ground (arith, d.enough);
}

store_some :
    (b : Bool) (event : Event) (t : Supervisor)
    → b ≡ false
    → (store : EventStore) × (store_failed (if b then none else some event) t
        ≡ (false, record t { store = store }))
store_some true event t h = absurd (ground arith)
store_some false event t h = (append event t.store, refl)

-- The report of an event that can be reported does not raise.
record_failure-reports :
    (event : Event) (attempts : ℕ) (error : Text) (s : Supervisor)
    → IsReportable event
    → (store : EventStore) × (record_failure event attempts error s
        ≡ (false, record (note_failure event attempts error s) { store = store }))
unfolding record_failure maintenance_event
record_failure-reports event attempts error s h =
    store_some (is_empty (strip (or_unknown (memory_of event)))) _
      (note_failure event attempts error s) h

module _ (event : Event) (n fuel : ℕ) (s : Supervisor)
    (d : IsDraining (suc fuel) s.max_retries s.queue (handling event n)) where
  failed-Drains : (error : Text) → Drains fuel (handler_failed event (n + 1) error s)
  failed-Drains error =
      if-cases (Drains fuel) (leb (n + 1) s.max_retries)
        (λ again. record {
          reportable = d.reportable;
          alive = d.alive;
          tried = ground arith;
          enough = ground (arith, d.enough);
        })
        (λ last.
          let t = record s { pending_ids = discard_id event.event_id s.pending_ids } in
          let reports = record_failure-reports event (n + 1) error t d.alive in
          rw reports.1 (record {
            reportable = d.reportable;
            alive = tt;
            tried = ground arith;
            enough = ground (arith, d.enough);
          }))

  call-Drains : (answer : Option Text) → Drains fuel (after_call event (n + 1) answer s)
  call-Drains none = record {
    reportable = d.reportable;
    alive = tt;
    tried = ground arith;
    enough = ground (arith, d.enough);
  }
  call-Drains (some error) = failed-Drains error

drain_step-Drains :
    (handler : ℕ → Event → Option Text) (w : Worker) (fuel : ℕ) (s : Supervisor)
    → s.worker ≡ w
    → IsDraining (suc fuel) s.max_retries s.queue w
    → Drains fuel (drain_step handler w s)
drain_step-Drains handler stopped fuel s h d = absurd d.alive
drain_step-Drains handler waiting fuel s h d = take-Drains s.queue fuel s h refl d
drain_step-Drains handler (handling event n) fuel s h d =
    call-Drains event n fuel (record s { calls = s.calls + 1 }) d (handler s.calls event)

drain-Drains :
    (handler : ℕ → Event → Option Text) (fuel : ℕ) (s : Supervisor)
    → Drains fuel s
    → Drains 0 (drain handler fuel s)
unfolding drain
drain-Drains handler zero s d = d
drain-Drains handler (suc fuel) s d =
    drain-Drains handler fuel (drain_step handler s.worker s)
      (drain_step-Drains handler s.worker fuel s refl d)

drained :
    (retries : ℕ) (queue : List Event) (w : Worker)
    → IsDraining 0 retries queue w
    → (queue ≡ []) × (w ≡ waiting)
drained retries [] stopped d = absurd d.alive
drained retries [] waiting d = (refl, refl)
drained retries [] (handling event n) d = absurd (ground (arith, d.enough, d.tried))
drained retries (event ∷ queue) w d = absurd (ground (arith, d.enough))

drain_step-IsConsistent :
    (handler : ℕ → Event → Option Text) (w : Worker) (s : Supervisor)
    → IsConsistent s
    → s.worker ≡ w
    → IsConsistent (drain_step handler w s)
drain_step-IsConsistent handler stopped s c h = c
drain_step-IsConsistent handler waiting s c h = work-IsConsistent waiting none s c h
drain_step-IsConsistent handler (handling event n) s c h =
    work-IsConsistent (handling event n) (handler s.calls event) s c h

drain-IsConsistent :
    (handler : ℕ → Event → Option Text) (fuel : ℕ) (s : Supervisor)
    → IsConsistent s
    → IsConsistent (drain handler fuel s)
unfolding drain
drain-IsConsistent handler zero s c = c
drain-IsConsistent handler (suc fuel) s c =
    drain-IsConsistent handler fuel (drain_step handler s.worker s)
      (drain_step-IsConsistent handler s.worker s c refl)

-- `flush` of a consistent supervisor whose worker waits, when no event's memory is named by white
-- space alone: whatever the handler answers, `max_retries + 2` steps of the worker for each event in
-- the queue empty it, nothing is pending any more and the count that `join` waits for is 0.
pub drain-ends :
    (handler : ℕ → Event → Option Text) (s : Supervisor)
    → IsConsistent s
    → s.worker ≡ waiting
    → All IsReportable s.queue
    → let t = drain handler (queue_steps s.max_retries s.queue) s in
      (t.queue ≡ [])
      × (t.worker ≡ waiting)
      × (t.unfinished ≡ 0)
      × ((k : Text) → elem k t.pending_ids ≡ false)
drain-ends handler s c w reportable =
    let fuel = queue_steps s.max_retries s.queue in
    let t = drain handler fuel s in
    let ended = drained t.max_retries t.queue t.worker (
      drain-Drains handler fuel s (
        rw w (record {
          reportable = reportable;
          alive = tt;
          tried = ground arith;
          enough = ground arith;
        }))) in
    let kept = drain-IsConsistent handler fuel s c in
    (
      ended.0,
      ended.1,
      ground (arith, kept.counted, ended.0, ended.1),
      λ k. ground (arith, kept.held k, ended.0, ended.1),
    )
