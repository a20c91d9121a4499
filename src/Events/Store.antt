-- ===== src/Events/Store.antt =====
-- What `EventStore.filter` selects (events/event_store.py).
use prima_next.Base.{
  ◌≡◌, refl, sym, Bool, true, ◌&&◌, Option, none, some, List, [], ◌∷◌, ◌++◌, filter_by, ◌==◌, arith,
  if◌then◌else◌,
}
use prima_next.Base.Text.{Text, text_eq}
use prima_next.Events.Types.{EventType, event_type_eq}
use prima_next.Events.{
  Event, EventStore, append, Filter, filter, keep_type, keep_topic, keep_execution, keep_source,
  execution_is,
}

abbrev agrees {ℓ} : {A : Type ℓ} → (A → Bool) → Option A → Bool
agrees test none = true
agrees test (some a) = test a

-- Whether an event passes every condition that is given.
abbrev pub selected : Filter → Event → Bool
selected f e =
    agrees (λ t. e.event_type == t) f.event_type
    && agrees (λ t. e.topic == t) f.topic
    && agrees (λ t. execution_is t e.execution_id) f.execution_id
    && agrees (λ t. e.source == t) f.source

module _ {ℓ} {A : Type ℓ} where
  filter_by-append :
      (keep : A → Bool) (a : A) (xs : List A)
      → filter_by keep (xs ++ (a ∷ []))
        ≡ (if keep a then filter_by keep xs ++ (a ∷ []) else filter_by keep xs)
  filter_by-append keep a [] = ground arith
  filter_by-append keep a (x ∷ xs) = ground (arith, filter_by-append keep a xs)

  filter_by-both :
      (f g : A → Bool) (xs : List A) → filter_by g (filter_by f xs) ≡ filter_by (λ a. f a && g a) xs
  filter_by-both f g [] = refl
  filter_by-both f g (x ∷ xs) = ground (arith, filter_by-both f g xs)

  filter_by-same :
      (f g : A → Bool) → ((a : A) → f a ≡ g a) → (xs : List A) → filter_by f xs ≡ filter_by g xs
  filter_by-same f g h [] = refl
  filter_by-same f g h (x ∷ xs) = ground (arith, h x, filter_by-same f g h xs)

  filter_by-all : (xs : List A) → filter_by (λ a. true) xs ≡ xs
  filter_by-all [] = refl
  filter_by-all (x ∷ xs) = ground (arith, filter_by-all xs)

keep_type_lem :
    (o : Option EventType) (xs : EventStore)
    → keep_type o xs ≡ filter_by (λ e. agrees (λ t. e.event_type == t) o) xs
keep_type_lem none xs = sym (filter_by-all xs)
keep_type_lem (some t) xs = refl

keep_topic_lem :
    (o : Option Text) (xs : EventStore)
    → keep_topic o xs ≡ filter_by (λ e. agrees (λ t. e.topic == t) o) xs
keep_topic_lem none xs = sym (filter_by-all xs)
keep_topic_lem (some t) xs = refl

keep_execution_lem :
    (o : Option Text) (xs : EventStore)
    → keep_execution o xs ≡ filter_by (λ e. agrees (λ t. execution_is t e.execution_id) o) xs
keep_execution_lem none xs = sym (filter_by-all xs)
keep_execution_lem (some t) xs = refl

keep_source_lem :
    (o : Option Text) (xs : EventStore)
    → keep_source o xs ≡ filter_by (λ e. agrees (λ t. e.source == t) o) xs
keep_source_lem none xs = sym (filter_by-all xs)
keep_source_lem (some t) xs = refl

-- `filter` finds the events that pass every condition given, whatever the order of its passes.
filter-filter_by : (f : Filter) (store : EventStore) → filter f store ≡ filter_by (selected f) store
unfolding filter
filter-filter_by f store =
    rw
      (
        keep_type_lem f.event_type store,
        keep_topic_lem f.topic,
        keep_execution_lem f.execution_id,
        keep_source_lem f.source,
        filter_by-both,
        filter_by-both,
        filter_by-both,
      )
      (filter_by-same _ (selected f) (λ e. ground arith) store)

-- Events published later do not change what a filter finds among the earlier ones: it finds those,
-- in order, and then the new event when that event passes every condition given.
filter-append :
    (f : Filter) (event : Event) (store : EventStore)
    → filter f (append event store)
      ≡ (if selected f event then filter f store ++ (event ∷ []) else filter f store)
unfolding append
filter-append f event store =
    rw (filter-filter_by f (store ++ (event ∷ [])), filter-filter_by f store)
      (filter_by-append (selected f) event store)
