-- ===== src/Workflow/Phase.antt =====
-- workflow/workflow_state.py: the phases and statuses of a workflow execution.
use prima_next.Base.{ℕ, ◌≡◌, ◌↔◌, Bool, true, Eq, nat_beq, arith}
use prima_next.Base.Text.{Text, codes}

pub data WorkflowPhase : Type 0 where
  input state_load affect memory_retrieval evidence_acquisition planning : WorkflowPhase
  world_simulation uncertainty_estimation execution_decision reflection action : WorkflowPhase
  answer_generation output_validation document_ingestion output state_commit : WorkflowPhase
  memory_commit maintenance_enqueue : WorkflowPhase

pub data WorkflowStatus : Type 0 where
  pending running completed failed cancelled : WorkflowStatus

abbrev pub phase_value : WorkflowPhase → Text
phase_value input = codes "input"
phase_value state_load = codes "state_load"
phase_value affect = codes "affect"
phase_value memory_retrieval = codes "memory_retrieval"
phase_value evidence_acquisition = codes "evidence_acquisition"
phase_value planning = codes "planning"
phase_value world_simulation = codes "world_simulation"
phase_value uncertainty_estimation = codes "uncertainty_estimation"
phase_value execution_decision = codes "execution_decision"
phase_value reflection = codes "reflection"
phase_value action = codes "action"
phase_value answer_generation = codes "answer_generation"
phase_value output_validation = codes "output_validation"
phase_value document_ingestion = codes "document_ingestion"
phase_value output = codes "output"
phase_value state_commit = codes "state_commit"
phase_value memory_commit = codes "memory_commit"
phase_value maintenance_enqueue = codes "maintenance_enqueue"

-- The position of a phase in the enumeration.
abbrev pub phase_index : WorkflowPhase → ℕ
phase_index input = 0
phase_index state_load = 1
phase_index affect = 2
phase_index memory_retrieval = 3
phase_index evidence_acquisition = 4
phase_index planning = 5
phase_index world_simulation = 6
phase_index uncertainty_estimation = 7
phase_index execution_decision = 8
phase_index reflection = 9
phase_index action = 10
phase_index answer_generation = 11
phase_index output_validation = 12
phase_index document_ingestion = 13
phase_index output = 14
phase_index state_commit = 15
phase_index memory_commit = 16
phase_index maintenance_enqueue = 17

abbrev pub phase_beq : WorkflowPhase → WorkflowPhase → Bool
phase_beq p q = nat_beq (phase_index p) (phase_index q)

pub phase_beq_iff : (p q : WorkflowPhase) → (phase_beq p q ≡ true) ↔ (p ≡ q)
phase_beq_iff p q = ground arith

instance abbrev pub phase_eq : Eq WorkflowPhase
phase_eq = record { equal = phase_beq; decides = phase_beq_iff }
