-- ===== src/Workflow/Facade/Enqueueing/Order.antt =====
-- What the enqueueing of maintenance events leaves in the supervisor's queue
-- (workflow/prima_workflow.py, memory/maintenance/background_supervisor.py).
use prima_next.Base.{
  ◌≡◌, ◌+◌, arith, suc, refl, sym, subst, ap, ◌∙◌, true, false, Option, none, some, List, [], ◌∷◌,
  ◌++◌, map, is_empty, length, if-cases, Option-cases, inl, inr,
}
use prima_next.Base.Dict.{Dict}
use prima_next.Base.Text.{Text, strip, text_eq}
use prima_next.Events.Types.{event_type_eq, memory_admitted}
use prima_next.Events.{Event, Note}
use prima_next.Maintenance.{
  Supervisor, Enqueued, queued, duplicate, saturated, refused, unsupported, unreported, enqueue,
  maintenance_event,
}
use prima_next.Maintenance.Invariant.{IsConsistent, enqueue-IsConsistent, reported-IsConsistent}
use prima_next.Workflow.Context.{ExecutionContext}
use prima_next.Workflow.Facade.Enqueueing.{
  EnqueueServices, Enqueueing, enqueue_notes, stored, admitted_event, after_enqueue,
  enqueue_admitted, EnqueueResult, notes_of,
}
use prima_next.Workflow.Facade.Enqueueing.Added.{
  append-[], append-snoc, turned_down, Adds, enqueue-Adds,
}

-- The event that announces the admission of a note.
abbrev pub Announces : Text → Event → Type 0
Announces m event = (event.event_type ≡ memory_admitted) × (event.correlation_id ≡ some m)

-- The events announce notes of the list, in its order and each note at most once.
pub data InOrder : List Text → List Event → Type 0 where
  done : {ms : List Text} → InOrder ms []
  passed : {m : Text} {ms : List Text} {es : List Event} → InOrder ms es → InOrder (m ∷ ms) es
  put :
      {m : Text} {ms : List Text} {event : Event} {es : List Event}
      → Announces m event
      → InOrder ms es
      → InOrder (m ∷ ms) (event ∷ es)

abbrev AnnouncesOption : Text → Option Event → Type 0
AnnouncesOption m none = Unit
AnnouncesOption m (some event) = Announces m event

maintenance_event-Announces :
    (k m source : Text) (x y : Option Text) (payload : Dict Text Note)
    → AnnouncesOption m (maintenance_event memory_admitted k m source x y payload)
unfolding maintenance_event
maintenance_event-Announces k m source x y payload =
    if-cases (AnnouncesOption m) (is_empty (strip m)) (λ _. tt) (λ _. (refl, refl))

-- The queue grows at its end by the events that the loop reports, which announce the notes, and
-- every other note is counted.
abbrev IsQueued : List Text → Supervisor → Enqueueing → Type 0
IsQueued ms s e =
    (es : List Event) × (e.supervisor.queue ≡ s.queue ++ es)
    × (e.queued_ids ≡ map (λ (event : Event). event.event_id) es)
    × InOrder ms es
    × (s.enabled ≡ true
        → e.raised ≡ false
        → length es + turned_down e.supervisor ≡ turned_down s + length ms)
    × IsConsistent e.supervisor

-- A note without an event.
unqueued-IsQueued :
    (m : Text) (ms : List Text) (s s' : Supervisor) (rest : Enqueueing)
    → s'.queue ≡ s.queue ++ []
    → s'.enabled ≡ s.enabled
    → (s.enabled ≡ true → turned_down s' ≡ turned_down s + 1)
    → IsQueued ms s' rest
    → IsQueued (m ∷ ms) s rest
unqueued-IsQueued m ms s s' rest a b n (es, q, k, o, l, c) = (
  es,
  q ∙ ap (λ q. q ++ es) (a ∙ append-[] s.queue),
  k,
  passed o,
  (λ on r. omega (arith, l (b ∙ on) r, n on)),
  c,
)

after_enqueue-IsQueued :
    (m : Text) (ms : List Text) (event : Event) (answer : Enqueued) (s s' : Supervisor)
    (rest : Enqueueing)
    → Announces m event
    → Adds event s (answer, s')
    → IsConsistent s'
    → IsQueued ms s' rest
    → IsQueued (m ∷ ms) s (after_enqueue answer event.event_id s' rest)
unfolding Adds
after_enqueue-IsQueued m ms event queued s s' rest n (a, b, k) c (es, q, i, o, l, d) = (
  event ∷ es,
  q ∙ (ap (λ q. q ++ es) a ∙ append-snoc s.queue event es),
  ap (◌∷◌ event.event_id) i,
  put n o,
  (λ on r. omega (arith, l (b ∙ on) r, k)),
  d,
)
after_enqueue-IsQueued m ms event duplicate s s' rest n (a, b, k) c h =
    unqueued-IsQueued m ms s s' rest a b (λ _. k) h
after_enqueue-IsQueued m ms event saturated s s' rest n (a, b, k) c h =
    unqueued-IsQueued m ms s s' rest a b (λ _. k) h
after_enqueue-IsQueued m ms event refused s s' rest n (a, b, k) c h =
    unqueued-IsQueued m ms s s' rest a b (λ on. cc) h
after_enqueue-IsQueued m ms event unsupported s s' rest n (a, b, k) c h =
    ([], a, refl, done, (λ on r. cc), c)
after_enqueue-IsQueued m ms event unreported s s' rest n (a, b, k) c h =
    ([], a, refl, done, (λ on r. cc), c)

enqueue_notes-IsQueued :
    (v : EnqueueServices) (payload : Dict Text Note) (ms : List Text) (s : Supervisor)
    → IsConsistent s
    → IsQueued ms s (enqueue_notes v payload ms s)
unfolding enqueue_notes Adds admitted_event
enqueue_notes-IsQueued v payload [] s c =
    ([], sym (append-[] s.queue), refl, done, (λ on r. omega arith), c)
enqueue_notes-IsQueued v payload (m ∷ ms) s c = elim (Option-cases (admitted_event v payload m s)) [
  | inl missing ↦
      rw (missing, enqueue_notes) ([], sym (append-[] s.queue), refl, done, (λ on r. cc), c)
  | inr (event, found) ↦
      let t = stored event s in
      let r = enqueue event t in
      let d = enqueue-IsConsistent event t (reported-IsConsistent (some event) s c) in
      let n = subst (AnnouncesOption m) found (maintenance_event-Announces _ m _ _ _ payload) in
      rw (found, enqueue_notes)
        (after_enqueue-IsQueued m ms event r.0 t r.1 (enqueue_notes v payload ms r.1) n
          (enqueue-Adds event t) d (enqueue_notes-IsQueued v payload ms r.1 d))
]

-- The queue after the controller, by what it returns.
abbrev pub IsEnqueued : List Text → Supervisor → Option EnqueueResult × Supervisor → Type 0
IsEnqueued notes s (some r, s') =
    (es : List Event) × (s'.queue ≡ s.queue ++ es)
    × (r.event_ids ≡ map (λ (event : Event). event.event_id) es)
    × (r.queued_count ≡ length es)
    × InOrder notes es
    × (s.enabled ≡ true → r.queued_count + turned_down s' ≡ turned_down s + length notes)
    × IsConsistent s'
IsEnqueued notes s (none, s') =
    (es : List Event) × (s'.queue ≡ s.queue ++ es) × InOrder notes es × IsConsistent s'

length-map : (es : List Event) → length (map (λ (event : Event). event.event_id) es) ≡ length es
length-map [] = refl
length-map (e ∷ es) = ap suc (length-map es)

-- Over a consistent supervisor, the controller puts its events behind those that wait, each
-- announcing the admission of one note, in the order of the notes and at most one for each, and
-- reports exactly the identifiers of these events and their number; where maintenance is enabled,
-- every other note is counted by the supervisor as a duplicate or as turned away. The supervisor
-- stays consistent, its queue within its capacity. An exception in the loop leaves a consistent
-- supervisor too, whose queue has grown in the same way.
pub enqueue_admitted-IsEnqueued :
    (v : EnqueueServices) (c : ExecutionContext) (s : Supervisor)
    → IsConsistent s
    → IsEnqueued (notes_of v c) s (enqueue_admitted v c s)
unfolding enqueue_admitted
enqueue_admitted-IsEnqueued v c s h =
    let notes = notes_of v c in
    let e = enqueue_notes v (v.admission c.memory_admission) notes s in
    let (es, q, k, o, l, d) = enqueue_notes-IsQueued v (v.admission c.memory_admission) notes s h in
    if-cases (IsEnqueued notes s) e.raised (λ met. (es, q, o, d))
      (λ other.
        let n = ap length k ∙ length-map es in
        (es, q, k, n, o, (λ on. omega (arith, l on other, n)), d))
