-- ===== src/Maintenance/Lifecycle.antt =====
-- What holds in every state that a supervisor reaches
-- (memory/maintenance/background_supervisor.py).
use prima_next.Base.{
  ℕ, ◌+◌, ◌≡◌, refl, subst, Bool, true, not, ◌||◌, Option, none, some, List, [], ◌∷◌, elem, length,
  leb, ltb, nat_eq, arith, if-cases,
}
use prima_next.Base.Text.{Text, codes, text_eq}
use prima_next.Events.Types.{event_type_eq}
use prima_next.Events.{Event}
use prima_next.Maintenance.{
  Enqueued, maintenance_event_types, saturate, is_running, Worker, stopped, waiting, handling,
  Supervisor, new_supervisor, add_id, discard_id, note_failure, store_failed, record_failure, known,
  enqueue, start, take_first, after_call, work, cancel, stop, Step, enqueue_step, start_step,
  work_step, stop_step, step, run,
}
use prima_next.Maintenance.Invariant.{
  IsConsistent, queued_as, in_hand, one_of, elem-add_id, elem-discard_id,
}
use prima_next.Maintenance.Working.{step-IsConsistent}

-- A constructor that raises starts nothing.
abbrev Starts : Option Supervisor → Type 0
Starts none = Unit
Starts (some s) = IsConsistent s

new_supervisor-Starts :
    (size retries : ℕ) (enabled : Bool) (uuid : ℕ → Text)
    → Starts (new_supervisor size retries enabled uuid)
unfolding new_supervisor
new_supervisor-Starts size retries enabled uuid =
    if-cases Starts (ltb size 1) (λ _. tt)
      (λ _. record {
        bounded = ground arith;
        counted = refl;
        held = λ k. refl;
        pending_open = λ k. refl;
        one_end = λ k. refl;
        tried = ground arith;
      })

run-keeps : (steps : List Step) (s : Supervisor) → IsConsistent s → IsConsistent (run steps s)
unfolding run
run-keeps [] s c = c
run-keeps (a ∷ steps) s c = run-keeps steps (step a s) (step-IsConsistent a s c)

-- In every state that a new supervisor reaches, whatever calls, answers of the handler and
-- cancellations come in whatever order: the queue respects its capacity and its count of
-- unfinished work, every pending event waits or is in hand exactly once, no event is pending,
-- completed or failed at once, and none is tried more than one time beyond the retries.
pub run-IsConsistent :
    (steps : List Step) (size retries : ℕ) (enabled : Bool) (uuid : ℕ → Text) {s : Supervisor}
    → new_supervisor size retries enabled uuid ≡ some s
    → IsConsistent (run steps s)
run-IsConsistent steps size retries enabled uuid h =
    run-keeps steps _ (subst Starts h (new_supervisor-Starts size retries enabled uuid))

-- The identifiers that have come to an end, one way or the other.
abbrev pub ended : Text → Supervisor → Bool
ended k s = elem k s.completed_ids || elem k s.terminal_ids

-- From one state to another no identifier is forgotten, and none that ended begins again.
abbrev Keeps : Text → Supervisor → Supervisor → Type 0
Keeps k s t = (known k s ≡ true → known k t ≡ true) × (ended k s ≡ true → ended k t ≡ true)

store_failed-same :
    (o : Option Event) (s : Supervisor)
    → let t = (store_failed o s).1 in
      (t.completed_ids ≡ s.completed_ids)
      × (t.pending_ids ≡ s.pending_ids)
      × (t.terminal_ids ≡ s.terminal_ids)
store_failed-same none s = (refl, refl, refl)
store_failed-same (some e) s = (refl, refl, refl)

record_failure-same :
    (event : Event) (attempts : ℕ) (error : Text) (s : Supervisor)
    → let t = (record_failure event attempts error s).1 in
      (t.completed_ids ≡ s.completed_ids)
      × (t.pending_ids ≡ s.pending_ids)
      × (t.terminal_ids ≡ add_id event.event_id s.terminal_ids)
unfolding record_failure
record_failure-same event attempts error s =
    store_failed-same _ (note_failure event attempts error s)

-- A failure on record, after the event stops being pending.
record_failure-Keeps :
    (k : Text) (event : Event) (attempts : ℕ) (error : Text) (s : Supervisor)
    → let t =
        record_failure event attempts error
          (record s { pending_ids = discard_id event.event_id s.pending_ids }) in
      Keeps k s t.1
record_failure-Keeps k event attempts error s =
    let t = record s { pending_ids = discard_id event.event_id s.pending_ids } in
    let same = record_failure-same event attempts error t in
    let added = elem-add_id event.event_id k s.terminal_ids in
    let dropped = elem-discard_id event.event_id k s.pending_ids in
    (
      (λ h. rw (same.0, same.1, same.2) (ground (arith, added, dropped))),
      (λ h. rw (same.0, same.2) (ground (arith, added))),
    )

saturated-Keeps : (k : Text) (event : Event) (s : Supervisor) → Keeps k s (saturate event s).1
saturated-Keeps k event s =
    let t = record s { rejected_count = s.rejected_count + 1 } in
    let same = record_failure-same event 0 (codes "maintenance_queue_full") t in
    let added = elem-add_id event.event_id k s.terminal_ids in
    (
      (λ h. rw (same.0, same.1, same.2) (ground (arith, added))),
      (λ h. rw (same.0, same.2) (ground (arith, added))),
    )

enqueue-Keeps : (k : Text) (event : Event) (s : Supervisor) → Keeps k s (enqueue event s).1
unfolding enqueue
enqueue-Keeps k event s =
    let P = (λ (r : Enqueued × Supervisor). Keeps k s r.1) in
    if-cases P (not (elem event.event_type maintenance_event_types)) (λ _. (λ h. h, λ h. h))
      (λ _.
        if-cases P (not s.enabled) (λ _. (λ h. h, λ h. h))
          (λ _.
            if-cases P (known event.event_id s) (λ _. (λ h. h, λ h. h))
              (λ _.
                if-cases P (leb s.max_queue_size (length s.queue)) (λ _. saturated-Keeps k event s)
                  (λ _.
                    ((λ h. ground (arith, elem-add_id event.event_id k s.pending_ids)), λ h. h)))))

after_call-Keeps :
    (k : Text) (event : Event) (n : ℕ) (answer : Option Text) (s : Supervisor)
    → Keeps k s (after_call event n answer s)
after_call-Keeps k event n none s =
    let added = elem-add_id event.event_id k s.completed_ids in
    let dropped = elem-discard_id event.event_id k s.pending_ids in
    ((λ h. ground (arith, added, dropped)), (λ h. ground (arith, added)))
after_call-Keeps k event n (some error) s =
    if-cases (Keeps k s) (leb n s.max_retries) (λ _. (λ h. h, λ h. h))
      (λ _. record_failure-Keeps k event n error s)

take_first-Keeps : (k : Text) (queue : List Event) (s : Supervisor) → Keeps k s (take_first queue s)
take_first-Keeps k [] s = (λ h. h, λ h. h)
take_first-Keeps k (event ∷ rest) s = (λ h. h, λ h. h)

work-Keeps :
    (k : Text) (w : Worker) (answer : Option Text) (s : Supervisor) → Keeps k s (work w answer s)
work-Keeps k stopped answer s = (λ h. h, λ h. h)
work-Keeps k waiting answer s = take_first-Keeps k s.queue s
work-Keeps k (handling event n) answer s =
    after_call-Keeps k event (n + 1) answer (record s { calls = s.calls + 1 })

cancel-Keeps : (k : Text) (w : Worker) (s : Supervisor) → Keeps k s (cancel w s).1
cancel-Keeps k stopped s = (λ h. h, λ h. h)
cancel-Keeps k waiting s = (λ h. h, λ h. h)
cancel-Keeps k (handling event n) s =
    if-cases (λ (r : Bool × Supervisor). Keeps k s r.1) (leb s.max_queue_size (length s.queue))
      (λ _. record_failure-Keeps k event 0 (codes "maintenance_cancelled_queue_full") s)
      (λ _. (λ h. h, λ h. h))

step-Keeps : (k : Text) (a : Step) (s : Supervisor) → Keeps k s (step a s)
unfolding step start stop
step-Keeps k (enqueue_step event) s = enqueue-Keeps k event s
step-Keeps k start_step s =
    if-cases (Keeps k s) (not s.enabled || is_running s.worker) (λ _. (λ h. h, λ h. h))
      (λ _. (λ h. h, λ h. h))
step-Keeps k (work_step answer) s = work-Keeps k s.worker answer s
step-Keeps k stop_step s =
    if-cases (Keeps k s) (cancel s.worker s).0 (λ _. cancel-Keeps k s.worker s)
      (λ _. cancel-Keeps k s.worker s)

run-Keeps : (k : Text) (steps : List Step) (s : Supervisor) → Keeps k s (run steps s)
unfolding run
run-Keeps k [] s = (λ h. h, λ h. h)
run-Keeps k (a ∷ steps) s =
    let first = step-Keeps k a s in
    let onward = run-Keeps k steps (step a s) in
    (λ h. onward.0 (first.0 h), λ h. onward.1 (first.1 h))

-- From a consistent state, no event taken in is lost or doubled however the run goes on, also where
-- the worker is cancelled while the queue is full: an identifier that is pending, completed or on
-- record as failed has ended, with no event of that name waiting or in hand, or exactly one event of
-- that name waits or is in hand.
pub run-known :
    (k : Text) (steps : List Step) (s : Supervisor)
    → IsConsistent s
    → known k s ≡ true
    → let t = run steps s in queued_as k t.queue + in_hand k t.worker + one_of (ended k t) ≡ 1
run-known k steps s c h =
    let t = run-keeps steps s c in
    let later = (run-Keeps k steps s).0 h in ground (arith, t.held k, t.pending_open k)

-- From a consistent state, an event that is completed or on record as failed stays so, and no event
-- of its name ever waits in the queue or reaches the handler again.
pub run-final :
    (k : Text) (steps : List Step) (s : Supervisor)
    → IsConsistent s
    → ended k s ≡ true
    → let t = run steps s in (ended k t ≡ true) × (queued_as k t.queue + in_hand k t.worker ≡ 0)
run-final k steps s c h =
    let t = run-keeps steps s c in
    let later = (run-Keeps k steps s).1 h in (later, ground (arith, t.held k, t.pending_open k))
