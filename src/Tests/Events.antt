-- ===== src/Tests/Events.antt =====
-- A bus with a subscriber that fails and one that does not.
use prima_next.Base.{
  ℕ, ◌+◌, ◌≡◌, refl, not, true, false, Option, none, some, [], ◌∷◌, is_empty, length,
}
use prima_next.Base.Text.{Text, codes}
use prima_next.Events.Types.{custom}
use prima_next.Events.{Event, Filter, Subscriber, EventBus, publish, matching}
use prima_next.Events.Publishing.{publish-collects, publish-raises, names, failures, until_failure}

abbrev demo_event : Event
demo_event = record {
  event_type = custom;
  source = codes "test";
  payload = [];
  event_id = codes "event_1";
  topic = codes "default";
  execution_id = none;
  correlation_id = none;
  causation_id = none;
  metadata = [];
}

abbrev by_topic : Filter
by_topic = record {
  event_type = none;
  topic = some (codes "default");
  execution_id = none;
  source = none;
}

-- A subscriber of every event.
abbrev listener : ℕ → Option Text → Subscriber
listener i answer = record {
  identity = i;
  handler = λ e. answer;
  event_types = [];
  topics = [];
  sources = [];
  name = [];
}

abbrev demo_bus : EventBus
demo_bus = record {
  store = [];
  subscribers = listener 0 (some (codes "broken")) ∷ listener 1 none ∷ [];
  raise_subscriber_errors = false;
}

abbrev strict_bus : EventBus
strict_bus = record demo_bus { raise_subscriber_errors = true }

publish-collects_example :
    let (r, after) = publish demo_event demo_bus in
    let called = matching demo_event demo_bus.subscribers in
    (after.store ≡ demo_event ∷ [])
    × (after.subscribers ≡ demo_bus.subscribers)
    × (r.called ≡ names called)
    × (r.errors ≡ failures demo_event called)
    × (r.delivered_count + length r.errors ≡ length called)
    × (r.raised ≡ false)
publish-collects_example = publish-collects demo_event demo_bus refl

publish-raises_example :
    let (r, after) = publish demo_event strict_bus in
    let called = matching demo_event strict_bus.subscribers in
    (after.store ≡ demo_event ∷ [])
    × (r.called ≡ names (until_failure demo_event called))
    × (r.raised ≡ not (is_empty (failures demo_event called)))
publish-raises_example = publish-raises demo_event strict_bus refl
