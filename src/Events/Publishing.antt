-- ===== src/Events/Publishing.antt =====
-- Who `EventBus.publish` calls (events/event_bus.py), and the registry it reads
-- (events/subscribers.py).
use prima_next.Base.{
  ℕ, ◌+◌, ◌≡◌, refl, ap, true, false, not, Option, Option-cases, inl, inr, none, some, is_none,
  List, [], ◌∷◌, ◌++◌, is_empty, filter_by, count_by, length, map, ◌==◌, nat_eq, arith,
  if◌then◌else◌,
}
use prima_next.Base.Text.{Text, text_eq}
use prima_next.Events.Types.{event_type_eq}
use prima_next.Events.{
  Event, append, Subscriber, EventBus, subscribe, unsubscribe, matching, deliver, publish,
}

-- The exceptions that the handlers of a list of subscribers raise on an event, in order.
abbrev with_error : Option Text → List Text → List Text
with_error none errors = errors
with_error (some error) errors = error ∷ errors

abbrev pub failures : Event → List Subscriber → List Text
failures event [] = []
failures event (s ∷ subscribers) = with_error (s.handler event) (failures event subscribers)

-- The subscribers up to the first whose handler raises, that one included.
abbrev pub until_failure : Event → List Subscriber → List Subscriber
until_failure event [] = []
until_failure event (s ∷ subscribers) =
    let rest = until_failure event subscribers in
    if is_none (s.handler event) then s ∷ rest else s ∷ []

abbrev pub names : List Subscriber → List ℕ
names = map (λ s. s.identity)

deliver-all :
    (event : Event) (subscribers : List Subscriber)
    → let r = deliver false event subscribers in
      (r.called ≡ names subscribers)
      × (r.errors ≡ failures event subscribers)
      × (r.delivered_count + length r.errors ≡ length subscribers)
      × (r.raised ≡ false)
unfolding deliver
deliver-all event [] = (refl, refl, refl, refl)
deliver-all event (s ∷ subscribers) = elim (Option-cases (s.handler event)) [
  | inl h ↦ rw h (ground (arith, deliver-all event subscribers))
  | inr (error, h) ↦ rw h (ground (arith, deliver-all event subscribers))
]

deliver-first :
    (event : Event) (subscribers : List Subscriber)
    → let r = deliver true event subscribers in
      (r.called ≡ names (until_failure event subscribers))
      × (r.raised ≡ not (is_empty (failures event subscribers)))
unfolding deliver
deliver-first event [] = (refl, refl)
deliver-first event (s ∷ subscribers) = elim (Option-cases (s.handler event)) [
  | inl h ↦ rw h (ground (arith, deliver-first event subscribers))
  | inr (error, h) ↦ rw h (refl, refl)
]

-- Publishing on a bus that collects exceptions stores the event, calls every matching subscriber
-- once and in the order of subscription whatever the others raise, reports the exceptions in that
-- order, and counts each subscriber called either as a delivery or as an error.
pub publish-collects :
    (event : Event) (bus : EventBus)
    → bus.raise_subscriber_errors ≡ false
    → let (r, after) = publish event bus in
      let called = matching event bus.subscribers in
      (after.store ≡ bus.store ++ (event ∷ []))
      × (after.subscribers ≡ bus.subscribers)
      × (r.called ≡ names called)
      × (r.errors ≡ failures event called)
      × (r.delivered_count + length r.errors ≡ length called)
      × (r.raised ≡ false)
unfolding publish append
publish-collects event bus h =
    let all = deliver-all event (matching event bus.subscribers) in
    rw h (refl, refl, all.0, all.1, all.2, all.3)

-- Publishing on a bus that raises exceptions stores the event all the same, calls the matching
-- subscribers up to the first that fails and no later one, and raises exactly when some matching
-- subscriber fails.
pub publish-raises :
    (event : Event) (bus : EventBus)
    → bus.raise_subscriber_errors ≡ true
    → let (r, after) = publish event bus in
      let called = matching event bus.subscribers in
      (after.store ≡ bus.store ++ (event ∷ []))
      × (r.called ≡ names (until_failure event called))
      × (r.raised ≡ not (is_empty (failures event called)))
unfolding publish append
publish-raises event bus h =
    let first = deliver-first event (matching event bus.subscribers) in
    rw h (refl, first.0, first.1)

-- How many subscribers have an identity.
abbrev known_as : ℕ → List Subscriber → ℕ
known_as i subscribers = count_by (λ s. s.identity == i) subscribers

removed-new :
    (s : Subscriber) (subscribers : List Subscriber)
    → known_as s.identity subscribers ≡ 0
    → filter_by (λ t. not (t.identity == s.identity)) (subscribers ++ (s ∷ [])) ≡ subscribers
removed-new s [] h = ground arith
removed-new s (t ∷ subscribers) h = ground (arith, removed-new s subscribers)

-- Unsubscribing a subscriber that was not registered before takes back its subscription: the bus
-- is the one from before, so no event reaches it and every other subscriber keeps its place.
unsubscribe-subscribe :
    (s : Subscriber) (bus : EventBus)
    → known_as s.identity bus.subscribers ≡ 0
    → unsubscribe s (subscribe s bus) ≡ bus
unfolding unsubscribe subscribe
unsubscribe-subscribe s bus h =
    ap (λ subscribers. record bus { subscribers = subscribers }) (removed-new s bus.subscribers h)
