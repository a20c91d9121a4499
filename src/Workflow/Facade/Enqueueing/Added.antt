-- ===== src/Workflow/Facade/Enqueueing/Added.antt =====
-- What one call of the supervisor's `enqueue` adds to the queue and to its counts
-- (memory/maintenance/background_supervisor.py).
use prima_next.Base.{
  ℕ, ◌≡◌, ◌+◌, arith, if◌then◌else◌, refl, sym, ap, ◌∙◌, Bool, true, false, not, Option, none, some,
  List, [], ◌∷◌, ◌++◌, elem, length, leb, if-cases,
}
use prima_next.Base.Text.{Text, codes, text_eq}
use prima_next.Events.Types.{event_type_eq}
use prima_next.Events.{Event}
use prima_next.Maintenance.{
  Supervisor, Enqueued, queued, duplicate, saturated, refused, unreported, enqueue, known,
  maintenance_event_types, record_failure, store_failed, saturate,
}

-- The events that an answer of `enqueue` adds to the queue.
abbrev pub answered_events : Enqueued → Event → List Event
answered_events queued event = event ∷ []
answered_events _ event = []

pub append-[] : (xs : List Event) → xs ++ [] ≡ xs
append-[] [] = refl
append-[] (x ∷ xs) = ap (◌∷◌ x) (append-[] xs)

pub append-snoc :
    (xs : List Event) (x : Event) (ys : List Event) → (xs ++ (x ∷ [])) ++ ys ≡ xs ++ (x ∷ ys)
append-snoc [] x ys = refl
append-snoc (y ∷ xs) x ys = ap (◌∷◌ y) (append-snoc xs x ys)

-- The events that the supervisor has counted as duplicates or turned away.
abbrev pub turned_down : Supervisor → ℕ
turned_down s = s.duplicate_count + s.rejected_count

-- The queue, the counts and whether events are taken in at all.
abbrev IsAlike : Supervisor → Supervisor → Type 0
IsAlike s s' = (s'.queue ≡ s.queue) × (s'.enabled ≡ s.enabled) × (turned_down s' ≡ turned_down s)

store_failed-IsAlike : (o : Option Event) (s : Supervisor) → IsAlike s (store_failed o s).1
store_failed-IsAlike none s = (refl, refl, refl)
store_failed-IsAlike (some e) s = (refl, refl, refl)

record_failure-IsAlike :
    (event : Event) (error : Text) (s : Supervisor) → IsAlike s (record_failure event 0 error s).1
unfolding record_failure
record_failure-IsAlike event error s = store_failed-IsAlike _ _

-- What the counts say of an answer.
abbrev pub IsTold : Enqueued → Supervisor → Supervisor → Type 0
IsTold queued s s' = turned_down s' ≡ turned_down s
IsTold duplicate s s' = turned_down s' ≡ turned_down s + 1
IsTold saturated s s' = turned_down s' ≡ turned_down s + 1
IsTold refused s s' = s.enabled ≡ false
IsTold _ s s' = Unit

-- What one call of `enqueue` adds to the queue and to the counts.
unfoldable pub Adds : Event → Supervisor → Enqueued × Supervisor → Type 0
Adds event s (answer, s') =
    (s'.queue ≡ s.queue ++ answered_events answer event)
    × (s'.enabled ≡ s.enabled)
    × IsTold answer s s'

answered_events-none :
    (b : Bool) (event : Event) → answered_events (if b then unreported else saturated) event ≡ []
answered_events-none true event = refl
answered_events-none false event = refl

saturated-IsTold :
    (b : Bool) (s s' : Supervisor)
    → turned_down s' ≡ turned_down s + 1
    → IsTold (if b then unreported else saturated) s s'
saturated-IsTold true s s' h = tt
saturated-IsTold false s s' h = h

saturate-Adds : (event : Event) (s : Supervisor) → Adds event s (saturate event s)
unfolding Adds
saturate-Adds event s =
    let t = record s { rejected_count = s.rejected_count + 1 } in
    let r = record_failure event 0 (codes "maintenance_queue_full") t in
    let (q, e, n) = record_failure-IsAlike event (codes "maintenance_queue_full") t in
    (
      q ∙ sym (ap (◌++◌ s.queue) (answered_events-none r.0 event) ∙ append-[] s.queue),
      e,
      saturated-IsTold r.0 s r.1 (omega (arith, n)),
    )

pub enqueue-Adds : (event : Event) (s : Supervisor) → Adds event s (enqueue event s)
unfolding Adds enqueue
enqueue-Adds event s =
    let P = Adds event s in
    let same = sym (append-[] s.queue) in
    if-cases P (not (elem event.event_type maintenance_event_types)) (λ _. (same, refl, tt))
      (λ _.
        if-cases P (not s.enabled) (λ off. (same, refl, ground arith))
          (λ _.
            if-cases P (known event.event_id s) (λ _. (same, refl, omega arith))
              (λ _.
                if-cases P (leb s.max_queue_size (length s.queue)) (λ _. saturate-Adds event s)
                  (λ _. (refl, refl, refl)))))
