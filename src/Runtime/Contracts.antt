-- ===== src/Runtime/Contracts.antt =====
-- runtime/contracts.py: the kinds of task, the profiles and the components that a route names.
use prima_next.Base.{
  ℕ, zero, suc, ◌≡◌, refl, sym, ap, ◌∙◌, ◌↔◌, Bool, true, List, [], ◌∷◌, Eq, nat_beq, nat_beq_iff,
  arith,
}
use prima_next.Base.Text.{Text, codes}

pub data TaskKind : Type 0 where
  conversation historical_replay factual_qa document_ingestion : TaskKind
  emotion_classification tool_request : TaskKind

pub data ExecutionProfile : Type 0 where
  model_only simple_rag prima_full affect_only ingestion_only : ExecutionProfile

-- In the order of the enumeration.
pub data RuntimeComponent : Type 0 where
  input_parser task_scheduler state_manager policy_router : RuntimeComponent
  execution_dispatcher persistent_state affect_engine query_rewriter : RuntimeComponent
  dense_retrieval sparse_retrieval temporal_retrieval graph_traversal : RuntimeComponent
  graph_reasoning fusion reranker confidence_estimator context_compressor : RuntimeComponent
  planner world_model uncertainty_estimator reflection_component : RuntimeComponent
  model_executor tool_executor output_validator output_shaper : RuntimeComponent
  state_committer memory_index memory_committer document_encoder : RuntimeComponent
  emotion_classifier maintenance_events : RuntimeComponent

abbrev pub all_tasks : List TaskKind
all_tasks =
    conversation ∷ historical_replay ∷ factual_qa ∷ document_ingestion ∷ emotion_classification
    ∷ tool_request ∷ []

abbrev pub all_profiles : List ExecutionProfile
all_profiles = model_only ∷ simple_rag ∷ prima_full ∷ affect_only ∷ ingestion_only ∷ []

abbrev pub all_components : List RuntimeComponent
all_components =
    input_parser ∷ task_scheduler ∷ state_manager ∷ policy_router ∷ execution_dispatcher
    ∷ persistent_state ∷ affect_engine ∷ query_rewriter ∷ dense_retrieval ∷ sparse_retrieval
    ∷ temporal_retrieval ∷ graph_traversal ∷ graph_reasoning ∷ fusion ∷ reranker
    ∷ confidence_estimator ∷ context_compressor ∷ planner ∷ world_model ∷ uncertainty_estimator
    ∷ reflection_component ∷ model_executor ∷ tool_executor ∷ output_validator ∷ output_shaper
    ∷ state_committer ∷ memory_index ∷ memory_committer ∷ document_encoder ∷ emotion_classifier
    ∷ maintenance_events ∷ []

abbrev pub component_index : RuntimeComponent → ℕ
component_index input_parser = 0
component_index task_scheduler = 1
component_index state_manager = 2
component_index policy_router = 3
component_index execution_dispatcher = 4
component_index persistent_state = 5
component_index affect_engine = 6
component_index query_rewriter = 7
component_index dense_retrieval = 8
component_index sparse_retrieval = 9
component_index temporal_retrieval = 10
component_index graph_traversal = 11
component_index graph_reasoning = 12
component_index fusion = 13
component_index reranker = 14
component_index confidence_estimator = 15
component_index context_compressor = 16
component_index planner = 17
component_index world_model = 18
component_index uncertainty_estimator = 19
component_index reflection_component = 20
component_index model_executor = 21
component_index tool_executor = 22
component_index output_validator = 23
component_index output_shaper = 24
component_index state_committer = 25
component_index memory_index = 26
component_index memory_committer = 27
component_index document_encoder = 28
component_index emotion_classifier = 29
component_index maintenance_events = 30

abbrev pub component_beq : RuntimeComponent → RuntimeComponent → Bool
component_beq a b = nat_beq (component_index a) (component_index b)

abbrev nth_component : List RuntimeComponent → ℕ → RuntimeComponent
nth_component [] n = maintenance_events
nth_component (c ∷ cs) zero = c
nth_component (c ∷ cs) (suc n) = nth_component cs n

nth-index : (c : RuntimeComponent) → nth_component all_components (component_index c) ≡ c
nth-index input_parser = refl
nth-index task_scheduler = refl
nth-index state_manager = refl
nth-index policy_router = refl
nth-index execution_dispatcher = refl
nth-index persistent_state = refl
nth-index affect_engine = refl
nth-index query_rewriter = refl
nth-index dense_retrieval = refl
nth-index sparse_retrieval = refl
nth-index temporal_retrieval = refl
nth-index graph_traversal = refl
nth-index graph_reasoning = refl
nth-index fusion = refl
nth-index reranker = refl
nth-index confidence_estimator = refl
nth-index context_compressor = refl
nth-index planner = refl
nth-index world_model = refl
nth-index uncertainty_estimator = refl
nth-index reflection_component = refl
nth-index model_executor = refl
nth-index tool_executor = refl
nth-index output_validator = refl
nth-index output_shaper = refl
nth-index state_committer = refl
nth-index memory_index = refl
nth-index memory_committer = refl
nth-index document_encoder = refl
nth-index emotion_classifier = refl
nth-index maintenance_events = refl

pub component_beq_iff : (a b : RuntimeComponent) → (component_beq a b ≡ true) ↔ (a ≡ b)
component_beq_iff a b = (
  λ h.
      sym (nth-index a)
      ∙ (ap (nth_component all_components)
            ((nat_beq_iff (component_index a) (component_index b)).0 h)
          ∙ nth-index b),
  λ e. (nat_beq_iff (component_index a) (component_index b)).1 (ap component_index e),
)

instance abbrev pub component_eq : Eq RuntimeComponent
component_eq = record { equal = component_beq; decides = component_beq_iff }

abbrev pub task_index : TaskKind → ℕ
task_index conversation = 0
task_index historical_replay = 1
task_index factual_qa = 2
task_index document_ingestion = 3
task_index emotion_classification = 4
task_index tool_request = 5

abbrev pub task_beq : TaskKind → TaskKind → Bool
task_beq a b = nat_beq (task_index a) (task_index b)

pub task_beq_iff : (a b : TaskKind) → (task_beq a b ≡ true) ↔ (a ≡ b)
task_beq_iff a b = ground arith

instance abbrev pub task_eq : Eq TaskKind
task_eq = record { equal = task_beq; decides = task_beq_iff }

abbrev pub task_value : TaskKind → Text
task_value conversation = codes "conversation"
task_value historical_replay = codes "historical_replay"
task_value factual_qa = codes "factual_qa"
task_value document_ingestion = codes "document_ingestion"
task_value emotion_classification = codes "emotion_classification"
task_value tool_request = codes "tool_request"

abbrev pub profile_value : ExecutionProfile → Text
profile_value model_only = codes "model_only"
profile_value simple_rag = codes "simple_rag"
profile_value prima_full = codes "prima_full"
profile_value affect_only = codes "affect_only"
profile_value ingestion_only = codes "ingestion_only"

abbrev pub profile_index : ExecutionProfile → ℕ
profile_index model_only = 0
profile_index simple_rag = 1
profile_index prima_full = 2
profile_index affect_only = 3
profile_index ingestion_only = 4

abbrev pub profile_beq : ExecutionProfile → ExecutionProfile → Bool
profile_beq a b = nat_beq (profile_index a) (profile_index b)

pub profile_beq_iff : (a b : ExecutionProfile) → (profile_beq a b ≡ true) ↔ (a ≡ b)
profile_beq_iff a b = ground arith

instance abbrev pub profile_eq : Eq ExecutionProfile
profile_eq = record { equal = profile_beq; decides = profile_beq_iff }
