-- ===== src/State/Persistence.antt =====
-- `JsonStateManager` (state/state_manager.py): managers that share one file. A file holds what was
-- last written to it; writing replaces it as a whole (`temporary.replace`), and JSON text gives
-- back the value it was made from. A manager is the `_states` it holds in memory.
use prima_next.Base.{
  ℕ, ◌≡◌, refl, ap, sym, ◌∙◌, Option, none, some, List, [], ◌∷◌, ◌==◌, nat_eq, arith, if◌then◌else◌,
}
use prima_next.Base.Dict.{lookup, lookup-insert}
use prima_next.Base.Text.{Text, codes, text_eq, text_beq_iff}
use prima_next.State.{
  CognitiveState, StateError, Result, ok, err, States, load, save, Delta, change_all, reset,
}

pub record File : Type 0 where
  pub schema_version : Text
  pub sessions : States

-- A manager and the file at its path, if there is one.
pub record JsonStateManager : Type 0 where
  pub states : States
  pub path : Option File

-- `_write`
unfoldable pub write : States → JsonStateManager
write d = record { states = d; path = some (record { schema_version = codes "1.0"; sessions = d }) }

-- The constructor; none where it raises.
unfoldable pub open_manager : Option File → Option JsonStateManager
open_manager none = some (record { states = []; path = none })
open_manager (some f) =
    if f.schema_version == codes "1.0"
    then some (record { states = f.sessions; path = some f })
    else none

-- What `save` reads back before it checks the version.
abbrev pub reload : Option File → States → States
reload none d = d
reload (some f) d = f.sessions

abbrev pub write_saved : Result × States → Option File → Result × JsonStateManager
write_saved (ok s, d) path = (ok s, write d)
write_saved (err e, d) path = (err e, record { states = d; path = path })

unfoldable pub json_save :
    Text → CognitiveState → ℕ → ℕ → JsonStateManager → Result × JsonStateManager
json_save session s expected now m =
    write_saved (save session s expected now (reload m.path m.states)) m.path

abbrev pub json_save_changed : Text → ℕ → ℕ → JsonStateManager → Result → Result × JsonStateManager
json_save_changed session expected now m (err e) = (err e, m)
json_save_changed session expected now m (ok s) = json_save session s expected now m

-- The inherited `apply_delta`, whose `load` reads memory and whose `save` is the one above.
unfoldable pub json_apply_delta :
    Text → Delta → ℕ → ℕ → JsonStateManager → Result × JsonStateManager
json_apply_delta session delta expected now m =
    json_save_changed session expected now m (change_all delta (ok (load session now m.states)))

unfoldable pub json_reset : Option Text → JsonStateManager → JsonStateManager
json_reset which m = write (reset which m.states)

-- One save of one of several managers: which manager, and the arguments.
pub record Save : Type 0 where
  pub manager : ℕ
  pub session_id : Text
  pub state : CognitiveState
  pub expected : ℕ
  pub time : ℕ

-- Any number of managers of one file: what each holds in memory.
abbrev pub Memories : Type 0
Memories = ℕ → States

abbrev pub remember : ℕ → States → Memories → Memories
remember i d held j = if i == j then d else held j

-- The answers to a sequence of saves by managers that share a file.
unfoldable pub shared_saves : List Save → Memories → Option File → List Result
shared_saves [] held path = []
shared_saves (c ∷ cs) held path =
    let (r, m) =
      json_save c.session_id c.state c.expected c.time
        (record { states = held c.manager; path = path }) in
    r ∷ shared_saves cs (remember c.manager m.states held) m.path

-- The answers of one manager in memory to the same saves.
unfoldable pub single_saves : List Save → States → List Result
single_saves [] d = []
single_saves (c ∷ cs) d =
    let (r, d') = save c.session_id c.state c.expected c.time d in r ∷ single_saves cs d'

save-keeps :
    (c : Save) (d : States) (e : StateError)
    → (save c.session_id c.state c.expected c.time d).0 ≡ err e
    → (save c.session_id c.state c.expected c.time d).1 ≡ d
unfolding save
save-keeps c d e h = ground arith

-- One save and those after it, given what the save answers.
after_save :
    (cs : List Save) (i : ℕ) (held : Memories) (f : File)
    → ((g : File) (other : Memories) → shared_saves cs other (some g) ≡ single_saves cs g.sessions)
    → (p : Result × States) → ((e : StateError) → p.0 ≡ err e → p.1 ≡ f.sessions)
    → let m = write_saved p (some f) in
      m.0 ∷ shared_saves cs (remember i m.1.states held) m.1.path ≡ p.0 ∷ single_saves cs p.1
unfolding write
after_save cs i held f onward (ok s, d) h =
    ap (λ rs. ok s ∷ rs)
      (onward (record { schema_version = codes "1.0"; sessions = d }) (remember i d held))
after_save cs i held f onward (err e, d) h =
    ap (λ rs. err e ∷ rs) (onward f (remember i d held) ∙ ap (single_saves cs) (sym (h e refl)))

-- Any number of managers that share one file answer a sequence of saves as one manager in memory
-- that holds what the file holds: whatever stale states a manager has in memory, it accepts and
-- refuses the same saves.
pub shared_saves-refines :
    (cs : List Save) (held : Memories) (f : File)
    → shared_saves cs held (some f) ≡ single_saves cs f.sessions
unfolding shared_saves single_saves json_save
shared_saves-refines [] held f = refl
shared_saves-refines (c ∷ cs) held f =
    after_save cs c.manager held f (λ g other. shared_saves-refines cs other g)
      (save c.session_id c.state c.expected c.time f.sessions) (save-keeps c f.sessions)

-- After a successful save a manager that opens the file holds what this one holds: the state saved
-- under its session, and under every other what the file held, whatever memory held.
json_save-open :
    (session k : Text) (s s' : CognitiveState) (expected now later : ℕ) (held : States) (f : File)
    → (json_save session s expected now (record { states = held; path = some f })).0 ≡ ok s'
    → let m = (json_save session s expected now (record { states = held; path = some f })).1 in
      (open_manager m.path ≡ some m)
      × (load session later m.states ≡ s')
      × (lookup k m.states ≡ (if session == k then some s' else lookup k f.sessions))
unfolding json_save save write open_manager load
json_save-open session k s s' expected now later held f h = (
  ground arith,
  ground (arith, lookup-insert session session s' f.sessions, text_beq_iff session session),
  ground (arith, lookup-insert session k s' f.sessions),
)
