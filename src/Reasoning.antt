-- ===== src/Reasoning.antt =====
-- reasoning/models.py, reasoning/task_analyzer.py, reasoning/stopping_policy.py and
-- reasoning/evidence_integrator.py: the state of one bounded search for evidence. Traces are left out;
-- the time that has passed is a function of the number of retrieval calls.
pub mod Controller
pub mod Evidence
pub mod Bounds
pub mod Termination
pub mod Abstention
use prima_next.Base.{
  ℕ, ◌+◌, Bool, true, false, not, ◌&&◌, ◌||◌, Option, none, some, List, [], ◌∷◌, ◌++◌, map, max,
  length, is_empty, elem, leb, ◌==◌, nat_eq, if◌then◌else◌,
}
use prima_next.Base.Text.{Text, codes, text_eq, lower, join_split, strip, is_space}
use prima_next.Workflow.Advice.{Score}

pub data ReasoningMode : Type 0 where
  bypass single_pass adaptive deliberative diagnostic : ReasoningMode

pub data Route : Type 0 where
  bypass_route single_route adaptive_route clarify_route : Route

pub data SufficiencyStatus : Type 0 where
  sufficient need_more_evidence ambiguous contradictory : SufficiencyStatus
  unanswerable error : SufficiencyStatus

pub record ReasoningBudget : Type 0 where
  pub max_hops : ℕ
  pub max_retrieval_calls : ℕ
  pub max_llm_calls : ℕ
  pub max_documents : ℕ
  pub max_context_tokens : ℕ
  pub time_budget : ℕ
  pub no_progress_limit : ℕ
  pub max_reflection_interventions : ℕ
  pub reflection_confidence_threshold : Score

pub record ReasoningRequest : Type 0 where
  pub question : Text
  pub mode : ReasoningMode
  pub budget : ReasoningBudget

pub record EvidenceItem : Type 0 where
  pub text : Text
  pub source_id : Text
  pub hop : ℕ
  pub query : Text

pub record SufficiencyDecision : Type 0 where
  pub status : SufficiencyStatus
  pub answerable : Bool

pub record EvidenceState : Type 0 where
  pub request : ReasoningRequest
  pub evidence_items : List EvidenceItem
  pub attempted_queries : List Text
  pub confidence : Score
  pub retrieval_calls : ℕ
  pub llm_calls : ℕ
  pub no_progress_hops : ℕ
  pub reflection_interventions : ℕ

-- `EvidenceState(request=request)`
abbrev pub new_evidence : ReasoningRequest → EvidenceState
new_evidence r = record {
  request = r;
  evidence_items = [];
  attempted_queries = [];
  confidence = 0;
  retrieval_calls = 0;
  llm_calls = 0;
  no_progress_hops = 0;
  reflection_interventions = 0;
}

abbrev small_talk : Text → Route
small_talk q =
    if is_empty q
    then clarify_route
    else if elem q (codes "hi" ∷ codes "hello" ∷ codes "thanks" ∷ codes "thank you" ∷ [])
    then bypass_route
    else adaptive_route

-- `TaskAnalyzer.route`, of the mode and the question.
unfoldable pub task_route : ReasoningMode → Text → Route
task_route bypass q = bypass_route
task_route single_pass q = single_route
task_route _ q = small_talk (lower (strip q))

-- `len(text.split())`: `inside` says that the last character belongs to a word.
abbrev word_count : Bool → Text → ℕ
word_count inside [] = 0
word_count inside (c ∷ s) =
    let rest = word_count (not (is_space c)) s in if is_space c || inside then rest else rest + 1

abbrev pub context_tokens : List EvidenceItem → ℕ
context_tokens [] = 0
context_tokens (i ∷ items) = max 1 (word_count false i.text) + context_tokens items

-- `" ".join(q.lower().split())`
abbrev pub folded : Text → Text
folded q = join_split (lower q)

pub data StopReason : Type 0 where
  stop_status : SufficiencyStatus → StopReason
  time_budget max_retrieval_calls max_hops context_budget no_new_evidence : StopReason
  duplicate_query single_pass_done no_need failed max_llm_calls bypassed ambiguity : StopReason

-- The tests of `StoppingPolicy.stop_reason` after those on the status.
abbrev pub stop_limits : ℕ → EvidenceState → Option Text → Option StopReason
stop_limits elapsed s next =
    let b = s.request.budget in
    if leb b.time_budget elapsed
    then some time_budget
    else if leb b.max_retrieval_calls s.retrieval_calls
    then some max_retrieval_calls
    else if leb b.max_hops (length s.attempted_queries)
    then some max_hops
    else if leb b.max_context_tokens (context_tokens s.evidence_items)
    then some context_budget
    else if leb b.no_progress_limit s.no_progress_hops
    then some no_new_evidence
    else repeats next
  where
    repeats : Option Text → Option StopReason
    repeats none = none
    repeats (some q) =
        if not (is_empty q) && elem (folded q) (map folded s.attempted_queries)
        then some duplicate_query
        else none

-- `StoppingPolicy.stop_reason`, with the time that has passed.
unfoldable pub stop_reason : ℕ → EvidenceState → SufficiencyStatus → Option Text → Option StopReason
stop_reason elapsed s need_more_evidence next = stop_limits elapsed s next
stop_reason elapsed s status next = some (stop_status status)

-- The characters that `[a-z0-9]` keeps; any other one separates.
abbrev word_code : ℕ → ℕ
word_code c = if (leb b'a' c && leb c b'z') || (leb b'0' c && leb c b'9') then c else 32

-- `_normalise`
unfoldable pub normalise_text : Text → Text
normalise_text t = join_split (map word_code (lower t))

-- One result of a retrieval: its note's id and content, and whether it may serve as evidence.
pub record Retrieved : Type 0 where
  pub id : Text
  pub content : Text
  pub evidence_eligible : Bool

pub record RetrievalResponse : Type 0 where
  pub results : List Retrieved
  pub confidence : Score

-- Whether a result repeats a source or a text that is there.
abbrev pub is_repeated : Retrieved → List EvidenceItem → Bool
is_repeated r items =
    elem r.id (map (λ i. i.source_id) items)
    || elem (normalise_text r.content) (map (λ i. normalise_text i.text) items)

-- One round of the loop of `integrate`: the items, and how many were added.
abbrev pub integrate_one : ℕ → ℕ → Text → Retrieved → List EvidenceItem × ℕ → List EvidenceItem × ℕ
integrate_one documents hop query r (items, added) =
    if not r.evidence_eligible
    then (items, added)
    else if is_repeated r items || leb documents (length items)
    then (items, added)
    else (
      items ++ (record { text = r.content; source_id = r.id; hop = hop; query = query } ∷ []),
      added + 1,
    )

unfoldable pub integrate_all :
    ℕ → ℕ → Text → List Retrieved → List EvidenceItem × ℕ → List EvidenceItem × ℕ
integrate_all documents hop query [] acc = acc
integrate_all documents hop query (r ∷ rs) acc =
    integrate_all documents hop query rs (integrate_one documents hop query r acc)

-- `EvidenceIntegrator.integrate`
unfoldable pub integrate : ℕ → Text → RetrievalResponse → EvidenceState → EvidenceState
integrate hop query response s =
    let (items, added) =
      integrate_all s.request.budget.max_documents hop query response.results
        (s.evidence_items, 0) in
    record s {
      evidence_items = items;
      confidence = max s.confidence response.confidence;
      no_progress_hops = if added == 0 then s.no_progress_hops + 1 else 0;
    }
