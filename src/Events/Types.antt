-- ===== src/Events/Types.antt =====
-- events/event_types.py: the names of the events that the subsystems emit.
use prima_next.Base.{
  ℕ, zero, suc, List, [], ◌∷◌, ◌≡◌, refl, sym, ap, ◌∙◌, ◌↔◌, Bool, true, Eq, nat_beq, nat_beq_iff,
}
use prima_next.Base.Text.{Text, codes}

pub data EventType : Type 0 where
  memory_created memory_updated memory_consolidated : EventType
  memory_admitted memory_encoded salience_scored : EventType
  short_term_buffered consolidation_requested consolidation_completed : EventType
  abstraction_requested abstraction_completed graph_index_updated : EventType
  decay_applied maintenance_failed reflection_triggered : EventType
  reflection_completed state_changed plan_created : EventType
  plan_failed tool_executed workflow_started : EventType
  workflow_phase_started workflow_phase_completed workflow_phase_retry : EventType
  workflow_phase_failed workflow_completed workflow_cancelled : EventType
  workflow_failed custom : EventType

abbrev pub event_type_value : EventType → Text
event_type_value memory_created = codes "memory_created"
event_type_value memory_updated = codes "memory_updated"
event_type_value memory_consolidated = codes "memory_consolidated"
event_type_value memory_admitted = codes "memory_admitted"
event_type_value memory_encoded = codes "memory_encoded"
event_type_value salience_scored = codes "salience_scored"
event_type_value short_term_buffered = codes "short_term_buffered"
event_type_value consolidation_requested = codes "consolidation_requested"
event_type_value consolidation_completed = codes "consolidation_completed"
event_type_value abstraction_requested = codes "abstraction_requested"
event_type_value abstraction_completed = codes "abstraction_completed"
event_type_value graph_index_updated = codes "graph_index_updated"
event_type_value decay_applied = codes "decay_applied"
event_type_value maintenance_failed = codes "maintenance_failed"
event_type_value reflection_triggered = codes "reflection_triggered"
event_type_value reflection_completed = codes "reflection_completed"
event_type_value state_changed = codes "state_changed"
event_type_value plan_created = codes "plan_created"
event_type_value plan_failed = codes "plan_failed"
event_type_value tool_executed = codes "tool_executed"
event_type_value workflow_started = codes "workflow_started"
event_type_value workflow_phase_started = codes "workflow_phase_started"
event_type_value workflow_phase_completed = codes "workflow_phase_completed"
event_type_value workflow_phase_retry = codes "workflow_phase_retry"
event_type_value workflow_phase_failed = codes "workflow_phase_failed"
event_type_value workflow_completed = codes "workflow_completed"
event_type_value workflow_cancelled = codes "workflow_cancelled"
event_type_value workflow_failed = codes "workflow_failed"
event_type_value custom = codes "custom"

-- The position of a type in the enumeration, and the type at a position.
abbrev pub event_type_index : EventType → ℕ
event_type_index memory_created = 0
event_type_index memory_updated = 1
event_type_index memory_consolidated = 2
event_type_index memory_admitted = 3
event_type_index memory_encoded = 4
event_type_index salience_scored = 5
event_type_index short_term_buffered = 6
event_type_index consolidation_requested = 7
event_type_index consolidation_completed = 8
event_type_index abstraction_requested = 9
event_type_index abstraction_completed = 10
event_type_index graph_index_updated = 11
event_type_index decay_applied = 12
event_type_index maintenance_failed = 13
event_type_index reflection_triggered = 14
event_type_index reflection_completed = 15
event_type_index state_changed = 16
event_type_index plan_created = 17
event_type_index plan_failed = 18
event_type_index tool_executed = 19
event_type_index workflow_started = 20
event_type_index workflow_phase_started = 21
event_type_index workflow_phase_completed = 22
event_type_index workflow_phase_retry = 23
event_type_index workflow_phase_failed = 24
event_type_index workflow_completed = 25
event_type_index workflow_cancelled = 26
event_type_index workflow_failed = 27
event_type_index custom = 28

abbrev nth_type : List EventType → ℕ → EventType
nth_type [] n = custom
nth_type (t ∷ ts) zero = t
nth_type (t ∷ ts) (suc n) = nth_type ts n

abbrev event_type_at : ℕ → EventType
event_type_at = nth_type (
    memory_created ∷ memory_updated ∷ memory_consolidated ∷ memory_admitted ∷ memory_encoded
    ∷ salience_scored ∷ short_term_buffered ∷ consolidation_requested ∷ consolidation_completed
    ∷ abstraction_requested ∷ abstraction_completed ∷ graph_index_updated ∷ decay_applied
    ∷ maintenance_failed ∷ reflection_triggered ∷ reflection_completed ∷ state_changed
    ∷ plan_created ∷ plan_failed ∷ tool_executed ∷ workflow_started ∷ workflow_phase_started
    ∷ workflow_phase_completed ∷ workflow_phase_retry ∷ workflow_phase_failed ∷ workflow_completed
    ∷ workflow_cancelled ∷ workflow_failed ∷ custom ∷ [])

at-index : (t : EventType) → event_type_at (event_type_index t) ≡ t
at-index memory_created = refl
at-index memory_updated = refl
at-index memory_consolidated = refl
at-index memory_admitted = refl
at-index memory_encoded = refl
at-index salience_scored = refl
at-index short_term_buffered = refl
at-index consolidation_requested = refl
at-index consolidation_completed = refl
at-index abstraction_requested = refl
at-index abstraction_completed = refl
at-index graph_index_updated = refl
at-index decay_applied = refl
at-index maintenance_failed = refl
at-index reflection_triggered = refl
at-index reflection_completed = refl
at-index state_changed = refl
at-index plan_created = refl
at-index plan_failed = refl
at-index tool_executed = refl
at-index workflow_started = refl
at-index workflow_phase_started = refl
at-index workflow_phase_completed = refl
at-index workflow_phase_retry = refl
at-index workflow_phase_failed = refl
at-index workflow_completed = refl
at-index workflow_cancelled = refl
at-index workflow_failed = refl
at-index custom = refl

abbrev pub event_type_beq : EventType → EventType → Bool
event_type_beq a b = nat_beq (event_type_index a) (event_type_index b)

pub event_type_beq_iff : (a b : EventType) → (event_type_beq a b ≡ true) ↔ (a ≡ b)
event_type_beq_iff a b = (
  (λ h.
      sym (at-index a)
      ∙ ap event_type_at ((nat_beq_iff (event_type_index a) (event_type_index b)).0 h)
      ∙ at-index b),
  λ h. (nat_beq_iff (event_type_index a) (event_type_index b)).1 (ap event_type_index h),
)

instance abbrev pub event_type_eq : Eq EventType
event_type_eq = record { equal = event_type_beq; decides = event_type_beq_iff }
