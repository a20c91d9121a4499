-- ===== src/Tests/Sessions.antt =====
-- Two writers of one session, in memory and through a file.
use prima_next.Base.{ℕ, ◌+◌, ◌≡◌, refl, none, some, List, [], ◌∷◌}
use prima_next.Base.Text.{Text, codes, text_eq}
use prima_next.State.{
  CognitiveState, empty_state, ok, save, saved_state, save_call, delta_call, Call,
}
use prima_next.State.Versions.{run, run-version, version_at}
use prima_next.State.Persistence.{
  File, Save, shared_saves, single_saves, shared_saves-refines, json_save,
}

abbrev session : Text
session = codes "s"

-- The state of the first writer, as it is stored at time 5.
abbrev first_saved : CognitiveState
first_saved = saved_state none (empty_state 0) 0 5

demo_saved : (save session (empty_state 0) 0 5 []).0 ≡ ok first_saved
unfolding save
demo_saved = refl

-- Two saves, of which the second is stale, and a change of a section.
abbrev demo_history : List (ℕ × Call)
demo_history =
    (5, save_call session (empty_state 0) 0)
    ∷ (6, save_call session (empty_state 1) 0)
    ∷ (7, delta_call session ((codes "goal", some []) ∷ []) 1)
    ∷ []

run-version_example : let (d, n) = run session demo_history [] in version_at session d ≡ 0 + n
run-version_example = run-version session demo_history [] refl

abbrev empty_file : File
empty_file = record { schema_version = codes "1.0"; sessions = [] }

-- Two managers that both expect version 0.
abbrev demo_saves : List Save
demo_saves =
    (record { manager = 0; session_id = session; state = empty_state 0; expected = 0; time = 5 })
    ∷ (record { manager = 1; session_id = session; state = empty_state 1; expected = 0; time = 6 })
    ∷ []

shared_saves-refines_example :
    shared_saves demo_saves (λ i. []) (some empty_file) ≡ single_saves demo_saves []
shared_saves-refines_example = shared_saves-refines demo_saves (λ i. []) empty_file

demo_json_saved :
    (json_save session (empty_state 0) 0 5 (record { states = []; path = some empty_file })).0
    ≡ ok first_saved
unfolding json_save save
demo_json_saved = refl
