-- ===== src/Events.antt =====
-- events/event.py, event_store.py, subscribers.py and event_bus.py: the bus inside the process. A
-- handler is a function of the event that returns the text of the exception it raises, if it raises
-- one; a subscriber carries a number that stands for its identity (`is`). Event times are not kept.
pub mod Types
pub mod Publishing
pub mod Store
use prima_next.Base.{
  ℕ, ◌+◌, Bool, true, false, not, ◌&&◌, ◌||◌, Option, none, some, List, [], ◌∷◌, ◌++◌, is_empty,
  elem, filter_by, length, ◌==◌, nat_eq, if◌then◌else◌,
}
use prima_next.Base.Dict.{Dict}
use prima_next.Base.Text.{Text, text_eq}
use prima_next.Events.Types.{EventType, event_type_eq}

-- The values of a payload that the bus's own code writes.
pub data Note : Type 0 where
  text_note : Text → Note
  count_note : ℕ → Note

pub record Event : Type 0 where
  pub event_type : EventType
  pub source : Text
  pub payload : Dict Text Note
  pub event_id : Text
  pub topic : Text
  pub execution_id : Option Text
  pub correlation_id : Option Text
  pub causation_id : Option Text
  pub metadata : Dict Text Note

-- `EventStore._events`
abbrev pub EventStore : Type 0
EventStore = List Event

unfoldable pub append : Event → EventStore → EventStore
append event store = store ++ (event ∷ [])

-- What the optional filter `wanted` keeps.
abbrev pub keep_type : Option EventType → EventStore → EventStore
keep_type none events = events
keep_type (some t) events = filter_by (λ e. e.event_type == t) events

abbrev pub keep_topic : Option Text → EventStore → EventStore
keep_topic none events = events
keep_topic (some t) events = filter_by (λ e. e.topic == t) events

abbrev pub execution_is : Text → Option Text → Bool
execution_is t none = false
execution_is t (some i) = i == t

abbrev pub keep_execution : Option Text → EventStore → EventStore
keep_execution none events = events
keep_execution (some t) events = filter_by (λ e. execution_is t e.execution_id) events

abbrev pub keep_source : Option Text → EventStore → EventStore
keep_source none events = events
keep_source (some t) events = filter_by (λ e. e.source == t) events

-- The arguments of `EventStore.filter`.
pub record Filter : Type 0 where
  pub event_type : Option EventType
  pub topic : Option Text
  pub execution_id : Option Text
  pub source : Option Text

unfoldable pub filter : Filter → EventStore → EventStore
filter f store =
    keep_source f.source
      (keep_execution f.execution_id (keep_topic f.topic (keep_type f.event_type store)))

pub record Subscriber : Type 0 where
  pub identity : ℕ
  pub handler : Event → Option Text
  pub event_types : List EventType
  pub topics : List Text
  pub sources : List Text
  pub name : Text

unfoldable pub matches : Subscriber → Event → Bool
matches s event =
    if not (is_empty s.event_types) && not (elem event.event_type s.event_types)
    then false
    else if not (is_empty s.topics) && not (elem event.topic s.topics)
    then false
    else if not (is_empty s.sources) && not (elem event.source s.sources)
    then false
    else true

pub record EventBus : Type 0 where
  pub store : EventStore
  pub subscribers : List Subscriber
  pub raise_subscriber_errors : Bool

unfoldable pub subscribe : Subscriber → EventBus → EventBus
subscribe s bus = record bus { subscribers = bus.subscribers ++ (s ∷ []) }

unfoldable pub unsubscribe : Subscriber → EventBus → EventBus
unsubscribe s bus = record bus {
  subscribers = filter_by (λ t. not (t.identity == s.identity)) bus.subscribers;
}

unfoldable pub matching : Event → List Subscriber → List Subscriber
matching event = filter_by (λ s. matches s event)

-- The loop of `publish`: the handlers that returned, the exceptions, whether one is raised again,
-- and the subscribers called.
pub record Delivery : Type 0 where
  pub delivered_count : ℕ
  pub errors : List Text
  pub raised : Bool
  pub called : List ℕ

abbrev pub after_handler : Bool → ℕ → Option Text → Delivery → Delivery
after_handler again i none rest = record rest {
  delivered_count = rest.delivered_count + 1;
  called = i ∷ rest.called;
}
after_handler false i (some error) rest = record rest {
  errors = error ∷ rest.errors;
  called = i ∷ rest.called;
}
after_handler true i (some error) rest = record {
  delivered_count = 0;
  errors = error ∷ [];
  raised = true;
  called = i ∷ [];
}

unfoldable pub deliver : Bool → Event → List Subscriber → Delivery
deliver again event [] = record { delivered_count = 0; errors = []; raised = false; called = [] }
deliver again event (s ∷ subscribers) =
    after_handler again s.identity (s.handler event) (deliver again event subscribers)

unfoldable pub publish : Event → EventBus → Delivery × EventBus
publish event bus =
    let stored = record bus { store = append event bus.store } in
    (deliver bus.raise_subscriber_errors event (matching event bus.subscribers), stored)
