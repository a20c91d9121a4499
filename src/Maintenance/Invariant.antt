-- ===== src/Maintenance/Invariant.antt =====
-- What holds of the supervisor between any two steps (memory/maintenance/background_supervisor.py).
use prima_next.Base.{
  ℕ, ◌+◌, ◌≤◌, ◌≡◌, Bool, true, false, not, ◌&&◌, ◌||◌, Option, none, some, List, [], ◌∷◌, ◌++◌,
  elem, count_by, length, length-append, leb, ◌==◌, nat_eq, arith, if-cases,
}
use prima_next.Base.Text.{Text, codes, text_eq, text_beq_iff}
use prima_next.Events.Types.{event_type_eq}
use prima_next.Events.{Event}
use prima_next.Maintenance.{
  Enqueued, maintenance_event_types, Worker, handling, Supervisor, add_id, discard_id, note_failure,
  store_failed, record_failure, known, enqueue,
}

abbrev pub one_of : Bool → ℕ
one_of true = 1
one_of false = 0

-- How often an identifier stands among the events that wait, and in the worker's hand.
abbrev pub queued_as : Text → List Event → ℕ
queued_as k queue = count_by (λ e. e.event_id == k) queue

abbrev pub in_hand : Text → Worker → ℕ
in_hand k (handling event n) = one_of (event.event_id == k)
in_hand k w = 0

abbrev pub hands : Worker → ℕ
hands (handling event n) = 1
hands w = 0

abbrev pub AttemptsWithin : ℕ → Worker → Type 0
AttemptsWithin retries (handling event n) = n ≤ retries
AttemptsWithin retries w = 0 ≤ retries

-- The queue respects its capacity and `join` counts the events that wait or are in hand; an
-- identifier is pending exactly when one event of that name waits or is in hand, and never two do;
-- no identifier is pending, completed or terminal at once; and an event in hand has been tried no
-- more often than retries are allowed.
pub record IsConsistent (s : Supervisor) : Type 0 where
  pub bounded : length s.queue ≤ s.max_queue_size
  pub counted : s.unfinished ≡ length s.queue + hands s.worker
  pub held : (k : Text) → queued_as k s.queue + in_hand k s.worker ≡ one_of (elem k s.pending_ids)
  pub pending_open :
      (k : Text)
      → (elem k s.pending_ids && (elem k s.completed_ids || elem k s.terminal_ids)) ≡ false
  pub one_end : (k : Text) → (elem k s.completed_ids && elem k s.terminal_ids) ≡ false
  pub tried : AttemptsWithin s.max_retries s.worker

pub elem-add_id : (k j : Text) (ids : List Text) → elem j (add_id k ids) ≡ (k == j || elem j ids)
elem-add_id k j ids = ground (arith, text_beq_iff k j)

pub elem-discard_id :
    (k j : Text) (ids : List Text) → elem j (discard_id k ids) ≡ (not (k == j) && elem j ids)
elem-discard_id k j [] = ground arith
elem-discard_id k j (i ∷ ids) =
    ground (arith, elem-discard_id k j ids, text_beq_iff k j, text_beq_iff i j, text_beq_iff i k)

pub queued_as-append :
    (k : Text) (xs ys : List Event) → queued_as k (xs ++ ys) ≡ queued_as k xs + queued_as k ys
queued_as-append k [] ys = ground arith
queued_as-append k (e ∷ xs) ys = ground (arith, queued_as-append k xs ys)

-- The invariant reads neither the stored events nor what a report raises.
pub reported-IsConsistent :
    (o : Option Event) (s : Supervisor) → IsConsistent s → IsConsistent (store_failed o s).1
reported-IsConsistent none s c = c
reported-IsConsistent (some e) s c = record {
  bounded = c.bounded;
  counted = c.counted;
  held = c.held;
  pending_open = c.pending_open;
  one_end = c.one_end;
  tried = c.tried;
}

-- A failure of an event that is neither pending nor completed.
record_failure-IsConsistent :
    (event : Event) (attempts : ℕ) (error : Text) (s : Supervisor)
    → IsConsistent s
    → elem event.event_id s.pending_ids ≡ false
    → elem event.event_id s.completed_ids ≡ false
    → IsConsistent (record_failure event attempts error s).1
unfolding record_failure
record_failure-IsConsistent event attempts error s c p q =
    reported-IsConsistent _ (note_failure event attempts error s) (record {
      bounded = c.bounded;
      counted = c.counted;
      held = c.held;
      pending_open = λ k. ground (
        arith,
        elem-add_id event.event_id k s.terminal_ids,
        c.pending_open k,
        text_beq_iff event.event_id k,
      );
      one_end = λ k. ground (
        arith,
        elem-add_id event.event_id k s.terminal_ids,
        c.one_end k,
        text_beq_iff event.event_id k,
      );
      tried = c.tried;
    })

-- A count that a call raises is not read either.
counted-IsConsistent :
    (s : Supervisor) (duplicates rejected : ℕ)
    → IsConsistent s
    → IsConsistent (record s { duplicate_count = duplicates; rejected_count = rejected })
counted-IsConsistent s duplicates rejected c = record {
  bounded = c.bounded;
  counted = c.counted;
  held = c.held;
  pending_open = c.pending_open;
  one_end = c.one_end;
  tried = c.tried;
}

queued-IsConsistent :
    (event : Event) (s : Supervisor)
    → IsConsistent s
    → known event.event_id s ≡ false
    → leb s.max_queue_size (length s.queue) ≡ false
    → IsConsistent (record s {
      queue = s.queue ++ (event ∷ []);
      unfinished = s.unfinished + 1;
      pending_ids = add_id event.event_id s.pending_ids;
    })
queued-IsConsistent event s c new room = record {
  bounded = ground (arith, length-append s.queue (event ∷ []));
  counted = ground (arith, length-append s.queue (event ∷ []), c.counted);
  held = λ k. ground (
    arith,
    queued_as-append k s.queue (event ∷ []),
    elem-add_id event.event_id k s.pending_ids,
    c.held k,
    text_beq_iff event.event_id k,
  );
  pending_open = λ k. ground (
    arith,
    elem-add_id event.event_id k s.pending_ids,
    c.pending_open k,
    text_beq_iff event.event_id k,
  );
  one_end = c.one_end;
  tried = c.tried;
}

pub enqueue-IsConsistent :
    (event : Event) (s : Supervisor) → IsConsistent s → IsConsistent (enqueue event s).1
unfolding enqueue
enqueue-IsConsistent event s c =
    let P = (λ (r : Enqueued × Supervisor). IsConsistent r.1) in
    if-cases P (not (elem event.event_type maintenance_event_types)) (λ _. c)
      (λ _.
        if-cases P (not s.enabled) (λ _. c)
          (λ _.
            if-cases P (known event.event_id s)
              (λ _. counted-IsConsistent s (s.duplicate_count + 1) s.rejected_count c)
              (λ new.
                if-cases P (leb s.max_queue_size (length s.queue))
                  (λ full.
                    record_failure-IsConsistent event 0 (codes "maintenance_queue_full")
                      (record s { rejected_count = s.rejected_count + 1 })
                      (counted-IsConsistent s s.duplicate_count (s.rejected_count + 1) c)
                      (ground arith) (ground arith))
                  (λ room. queued-IsConsistent event s c new room))))
