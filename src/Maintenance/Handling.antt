-- ===== src/Maintenance/Handling.antt =====
-- What becomes of the event in the worker's hand keeps the supervisor's invariant: completion, a
-- retry, a failure on record, or the way back into the queue
-- (memory/maintenance/background_supervisor.py).
use prima_next.Base.{
  ℕ, ◌+◌, ◌-◌, ◌≡◌, Bool, true, false, Option, none, some, [], ◌∷◌, ◌++◌, length, length-append,
  leb, nat_eq, arith, if◌then◌else◌, if-cases,
}
use prima_next.Base.Text.{Text, codes, text_eq}
use prima_next.Events.{Event, EventStore, append}
use prima_next.Maintenance.{
  Worker, stopped, waiting, handling, Supervisor, add_id, discard_id, note_failure, store_failed,
  record_failure, task_done, after_call, put_back,
}
use prima_next.Maintenance.Invariant.{IsConsistent, elem-add_id, elem-discard_id, queued_as-append}

-- The worker with no event in hand.
abbrev idle : Bool → Worker
idle true = waiting
idle false = stopped

-- The invariant reads neither the stored events nor which way a worker is idle.
idle-IsConsistent :
    (s : Supervisor) (running : Bool) (store : EventStore)
    → IsConsistent (record s { worker = waiting })
    → IsConsistent (record s { worker = idle running; store = store })
idle-IsConsistent s true store c = record {
  bounded = c.bounded;
  counted = c.counted;
  held = c.held;
  pending_open = c.pending_open;
  one_end = c.one_end;
  tried = c.tried;
}
idle-IsConsistent s false store c = record {
  bounded = c.bounded;
  counted = c.counted;
  held = c.held;
  pending_open = c.pending_open;
  one_end = c.one_end;
  tried = c.tried;
}

-- The state that has the failure of the event in hand on record.
abbrev failed_state : Event → ℕ → ℕ → Text → Supervisor → Supervisor
failed_state event calls attempts error s =
    record (note_failure event attempts error
      (record s { pending_ids = discard_id event.event_id s.pending_ids; calls = calls })) {
        unfinished = s.unfinished - 1;
      }

-- The worker has an event in hand.
module _ (event : Event) (n : ℕ) (s : Supervisor) (c : IsConsistent s)
    (h : s.worker ≡ handling event n) where
  completed-IsConsistent : IsConsistent (
      task_done waiting (record s {
        completed_ids = add_id event.event_id s.completed_ids;
        pending_ids = discard_id event.event_id s.pending_ids;
        calls = s.calls + 1;
      }))
  completed-IsConsistent = record {
    bounded = c.bounded;
    counted = ground (arith, c.counted);
    held = λ k. ground (arith, elem-discard_id event.event_id k s.pending_ids, c.held k);
    pending_open = λ k. ground (
      arith,
      elem-discard_id event.event_id k s.pending_ids,
      elem-add_id event.event_id k s.completed_ids,
      c.pending_open k,
    );
    one_end = λ k. ground (
      arith,
      elem-add_id event.event_id k s.completed_ids,
      c.one_end k,
      c.held k,
      c.pending_open k,
    );
    tried = ground arith;
  }

  failed-IsConsistent :
      (calls attempts : ℕ) (error : Text)
      → IsConsistent (record (failed_state event calls attempts error s) { worker = waiting })
  failed-IsConsistent calls attempts error = record {
    bounded = c.bounded;
    counted = ground (arith, c.counted);
    held = λ k. ground (arith, elem-discard_id event.event_id k s.pending_ids, c.held k);
    pending_open = λ k. ground (
      arith,
      elem-discard_id event.event_id k s.pending_ids,
      elem-add_id event.event_id k s.terminal_ids,
      c.pending_open k,
    );
    one_end = λ k. ground (
      arith,
      elem-add_id event.event_id k s.terminal_ids,
      c.one_end k,
      c.held k,
      c.pending_open k,
    );
    tried = ground arith;
  }

  -- A report that follows a failure, raised or not.
  reported_failure-IsConsistent :
      (calls attempts : ℕ) (error : Text) (o : Option Event)
      → let (raised, s') = store_failed o (
          note_failure event attempts error
            (record s { pending_ids = discard_id event.event_id s.pending_ids; calls = calls })) in
        IsConsistent (task_done (if raised then stopped else waiting) s')
  reported_failure-IsConsistent calls attempts error none =
      let failed = failed_state event calls attempts error s in
      idle-IsConsistent failed false failed.store (failed-IsConsistent calls attempts error)
  reported_failure-IsConsistent calls attempts error (some e) =
      let failed = failed_state event calls attempts error s in
      idle-IsConsistent failed true (append e failed.store)
        (failed-IsConsistent calls attempts error)

  -- The same where the worker is cancelled.
  cancelled_failure-IsConsistent :
      (attempts : ℕ) (error : Text) (o : Option Event)
      → IsConsistent (
          task_done stopped
            (store_failed o (
              note_failure event attempts error
                (record s { pending_ids = discard_id event.event_id s.pending_ids }))).1)
  cancelled_failure-IsConsistent attempts error none =
      let failed = failed_state event s.calls attempts error s in
      idle-IsConsistent failed false failed.store (failed-IsConsistent s.calls attempts error)
  cancelled_failure-IsConsistent attempts error (some e) =
      let failed = failed_state event s.calls attempts error s in
      idle-IsConsistent failed false (append e failed.store)
        (failed-IsConsistent s.calls attempts error)

  retried-IsConsistent :
      leb (n + 1) s.max_retries ≡ true
      → IsConsistent (record s {
        retry_count = s.retry_count + 1;
        worker = handling event (n + 1);
        calls = s.calls + 1;
      })
  retried-IsConsistent again = record {
    bounded = c.bounded;
    counted = ground (arith, c.counted);
    held = λ k. ground (arith, c.held k);
    pending_open = c.pending_open;
    one_end = c.one_end;
    tried = ground arith;
  }

  pub after_call-IsConsistent :
      (answer : Option Text)
      → IsConsistent (after_call event (n + 1) answer (record s { calls = s.calls + 1 }))
  unfolding record_failure
  after_call-IsConsistent none = completed-IsConsistent
  after_call-IsConsistent (some error) =
      if-cases IsConsistent (leb (n + 1) s.max_retries) (λ again. retried-IsConsistent again)
        (λ _. reported_failure-IsConsistent (s.calls + 1) (n + 1) error _)

  -- The event in hand goes back to the queue, or fails where the queue is full again.
  returned-IsConsistent :
      leb s.max_queue_size (length s.queue) ≡ false
      → IsConsistent (record s {
        queue = s.queue ++ (event ∷ []);
        unfinished = s.unfinished + 1 - 1;
        worker = stopped;
      })
  returned-IsConsistent room = record {
    bounded = ground (arith, length-append s.queue (event ∷ []));
    counted = ground (arith, length-append s.queue (event ∷ []), c.counted);
    held = λ k. ground (arith, queued_as-append k s.queue (event ∷ []), c.held k);
    pending_open = c.pending_open;
    one_end = c.one_end;
    tried = ground arith;
  }

  pub put_back-IsConsistent : IsConsistent (put_back event s).1
  unfolding record_failure
  put_back-IsConsistent =
      if-cases (λ (r : Bool × Supervisor). IsConsistent r.1) (leb s.max_queue_size (length s.queue))
        (λ _. cancelled_failure-IsConsistent 0 (codes "maintenance_cancelled_queue_full") _)
        returned-IsConsistent
