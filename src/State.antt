-- ===== src/State.antt =====
-- state/state_manager.py and state/cognitive_state.py: versioned session state. A copy by
-- `from_dict(to_dict())` is the value itself, since values do not change here; the emotional state
-- is the text of its dictionary, and times are natural numbers.
pub mod Versions
pub mod Persistence
use prima_next.Base.{
  ℕ, ◌+◌, Bool, true, false, not, Option, none, some, List, [], ◌∷◌, is_empty, get_or, ◌==◌, nat_eq,
  if◌then◌else◌,
}
use prima_next.Base.Dict.{Dict, lookup, insert, erase}
use prima_next.Base.Text.{Text, codes, text_eq}
use prima_next.Base.Value.{Value}

abbrev pub StateSection : Type 0
StateSection = Dict Text Value

pub record CognitiveState : Type 0 where
  pub goal : StateSection
  pub emotional : Text
  pub task : StateSection
  pub confidence : StateSection
  pub environment : StateSection
  pub metadata : StateSection
  pub version : ℕ
  pub created_at : ℕ
  pub updated_at : ℕ

-- `CognitiveState()` at a time.
abbrev pub empty_state : ℕ → CognitiveState
empty_state now = record {
  goal = [];
  emotional = codes "neutral";
  task = [];
  confidence = [];
  environment = [];
  metadata = [];
  version = 0;
  created_at = now;
  updated_at = now;
}

pub data StateError : Type 0 where
  empty_session : StateError
  -- `StateVersionConflict`: the version expected and the one found
  version_conflict : ℕ → ℕ → StateError
  unsupported_section : Text → StateError

pub data Result : Type 0 where
  ok : CognitiveState → Result
  err : StateError → Result

-- `InMemoryStateManager._states`
abbrev pub States : Type 0
States = Dict Text CognitiveState

abbrev pub version_of : Option CognitiveState → ℕ
version_of none = 0
version_of (some s) = s.version

abbrev pub created_or : Option CognitiveState → ℕ → ℕ
created_or none t = t
created_or (some s) t = s.created_at

unfoldable pub load : Text → ℕ → States → CognitiveState
load session now d = get_or (lookup session d) (empty_state now)

-- The state that a save stores.
abbrev pub saved_state : Option CognitiveState → CognitiveState → ℕ → ℕ → CognitiveState
saved_state current s expected now = record s {
  version = expected + 1;
  updated_at = now;
  created_at = created_or current s.created_at;
}

unfoldable pub save : Text → CognitiveState → ℕ → ℕ → States → Result × States
save session s expected now d =
    let current = lookup session d in
    let saved = saved_state current s expected now in
    if is_empty session
    then (err empty_session, d)
    else if not (version_of current == expected)
    then (err (version_conflict expected (version_of current)), d)
    else (ok saved, insert session saved d)

-- `target.update(values)`
unfoldable pub update_section : StateSection → StateSection → StateSection
update_section [] section = section
update_section ((k, v) ∷ changes) section = update_section changes (insert k v section)

-- The names under which `getattr` finds a section that is a mapping.
pub data Section : Type 0 where
  goal_section task_section confidence_section environment_section : Section
  metadata_section : Section

abbrev pub section_named : Text → Option Section
section_named name =
    if name == codes "goal"
    then some goal_section
    else if name == codes "goal_state"
    then some goal_section
    else if name == codes "task"
    then some task_section
    else if name == codes "task_state"
    then some task_section
    else if name == codes "confidence"
    then some confidence_section
    else if name == codes "confidence_state"
    then some confidence_section
    else if name == codes "environment"
    then some environment_section
    else if name == codes "environment_state"
    then some environment_section
    else if name == codes "metadata"
    then some metadata_section
    else none

abbrev pub change_section : StateSection → CognitiveState → Section → CognitiveState
change_section changes s goal_section = record s { goal = update_section changes s.goal }
change_section changes s task_section = record s { task = update_section changes s.task }
change_section changes s confidence_section = record s {
  confidence = update_section changes s.confidence;
}
change_section changes s environment_section = record s {
  environment = update_section changes s.environment;
}
change_section changes s metadata_section = record s {
  metadata = update_section changes s.metadata;
}

abbrev pub change_named : Text → Option StateSection → CognitiveState → Option Section → Result
change_named name (some changes) s (some k) = ok (change_section changes s k)
change_named name _ s k = err (unsupported_section name)

-- The changes of `apply_delta`: section names, with none where the value is no mapping.
abbrev pub Delta : Type 0
Delta = List (Text × Option StateSection)

unfoldable pub change_all : Delta → Result → Result
change_all [] r = r
change_all (c ∷ cs) (err e) = err e
change_all ((name, values) ∷ cs) (ok s) =
    change_all cs (change_named name values s (section_named name))

abbrev pub save_changed : Text → ℕ → ℕ → States → Result → Result × States
save_changed session expected now d (err e) = (err e, d)
save_changed session expected now d (ok s) = save session s expected now d

unfoldable pub apply_delta : Text → Delta → ℕ → ℕ → States → Result × States
apply_delta session delta expected now d =
    save_changed session expected now d (change_all delta (ok (load session now d)))

-- `reset`, of one session or of all.
unfoldable pub reset : Option Text → States → States
reset none d = []
reset (some session) d = erase session d

-- One call of the manager; the lock makes each call one step.
pub data Call : Type 0 where
  save_call : Text → CognitiveState → ℕ → Call
  delta_call : Text → Delta → ℕ → Call
  load_call : Text → Call
  reset_call : Option Text → Call

unfoldable pub step : ℕ → Call → States → Result × States
step now (save_call session s expected) d = save session s expected now d
step now (delta_call session delta expected) d = apply_delta session delta expected now d
step now (load_call session) d = (ok (load session now d), d)
step now (reset_call which) d = (ok (empty_state now), reset which d)
