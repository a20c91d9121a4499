-- ===== src/State/Versions.antt =====
-- The optimistic concurrency of `InMemoryStateManager` (state/state_manager.py).
use prima_next.Base.{
  ℕ, ◌+◌, ◌≡◌, Bool, true, false, none, some, List, [], ◌∷◌, is_empty, ◌==◌, ◌&&◌, nat_eq, arith,
  any, if◌then◌else◌,
}
use prima_next.Base.Dict.{lookup, lookup-insert, lookup-erase}
use prima_next.Base.Text.{Text, text_eq, text_beq_iff}
use prima_next.State.{
  CognitiveState, StateError, version_conflict, Result, ok, err, States, version_of, load, save,
  saved_state, Delta, change_all, apply_delta, save_changed, reset, Call, save_call, delta_call,
  load_call, reset_call, step,
}

abbrev pub version_at : Text → States → ℕ
version_at session d = version_of (lookup session d)

-- A save succeeds exactly when the session has a name and its version is the one expected. It then
-- stores the state under the next version and touches no other session; a save that fails changes
-- nothing.
pub save_lem :
    (session : Text) (s : CognitiveState) (expected now : ℕ) (d : States)
    → let (r, d') = save session s expected now d in
      ((s' : CognitiveState)
        → r ≡ ok s'
        → (is_empty session ≡ false)
          × (version_at session d ≡ expected)
          × (s'.version ≡ expected + 1)
          × ((k : Text) → lookup k d' ≡ (if session == k then some s' else lookup k d)))
      × ((e : StateError) → r ≡ err e → d' ≡ d)
      × (is_empty session ≡ false
          → version_at session d ≡ expected
          → r ≡ ok (saved_state (lookup session d) s expected now))
unfolding save
save_lem session s expected now d = (
  (λ s' h. (
    ground arith,
    ground arith,
    ground arith,
    λ k. ground (arith, lookup-insert session k s' d),
  )),
  (λ e h. ground arith),
  (λ h k. ground arith),
)

-- Of two writers that expect the same version the second to save is refused with the versions
-- expected and found, and the store stays as the first left it.
save_stale :
    (session : Text) (s t : CognitiveState) (expected now now' : ℕ) (d : States)
    {s' : CognitiveState}
    → (save session s expected now d).0 ≡ ok s'
    → save session t expected now' (save session s expected now d).1
      ≡ (err (version_conflict expected (expected + 1)), (save session s expected now d).1)
unfolding save
save_stale session s t expected now now' d h = ground (
  arith,
  lookup-insert session session (saved_state (lookup session d) s expected now) d,
  text_beq_iff session session,
)

abbrev is_ok : Result → Bool
is_ok (ok s) = true
is_ok (err e) = false

-- Whether a call writes to the session.
abbrev writes_to : Text → Call → Bool
writes_to session (save_call k s expected) = k == session
writes_to session (delta_call k delta expected) = k == session
writes_to session _ = false

abbrev resets : Text → Call → Bool
resets session (reset_call none) = true
resets session (reset_call (some k)) = k == session
resets session _ = false

-- One when a call wrote to the session.
abbrev wrote : Text → Call → Result → ℕ
wrote session c r = if writes_to session c && is_ok r then 1 else 0

-- A sequence of calls, each at its time: the store it leaves and the successful writes to one
-- session.
unfoldable pub run : Text → List (ℕ × Call) → States → States × ℕ
run session [] d = (d, 0)
run session ((now, c) ∷ cs) d =
    let (r, d') = step now c d in let (d'', n) = run session cs d' in (d'', wrote session c r + n)

save-version :
    (session k : Text) (s : CognitiveState) (expected now : ℕ) (d : States)
    → let (r, d') = save k s expected now d in
      version_at session d' ≡ version_at session d + wrote session (save_call k s expected) r
unfolding save
save-version session k s expected now d = ground (
  arith,
  lookup-insert k session (saved_state (lookup k d) s expected now) d,
  text_beq_iff k session,
)

save_changed-version :
    (session k : Text) (delta : Delta) (expected now : ℕ) (d : States) (r : Result)
    → let (r', d') = save_changed k expected now d r in
      version_at session d' ≡ version_at session d + wrote session (delta_call k delta expected) r'
save_changed-version session k delta expected now d (err e) = ground arith
save_changed-version session k delta expected now d (ok s) = save-version session k s expected now d

step-version :
    (session : Text) (now : ℕ) (c : Call) (d : States)
    → resets session c ≡ false
    → let (r, d') = step now c d in version_at session d' ≡ version_at session d + wrote session c r
unfolding step apply_delta reset
step-version session now (save_call k s expected) d h = save-version session k s expected now d
step-version session now (delta_call k delta expected) d h =
    save_changed-version session k delta expected now d (change_all delta (ok (load k now d)))
step-version session now (load_call k) d h = ground arith
step-version session now (reset_call none) d h = ground arith
step-version session now (reset_call (some k)) d h =
    ground (arith, lookup-erase k session d, text_beq_iff k session)

-- Whatever calls come in whatever order, as long as none resets the session: its version is the
-- one it started with plus the number of its successful writes.
pub run-version :
    (session : Text) (cs : List (ℕ × Call)) (d : States)
    → any (λ c. resets session c.1) cs ≡ false
    → let (d', n) = run session cs d in version_at session d' ≡ version_at session d + n
unfolding run
run-version session [] d h = ground arith
run-version session ((now, c) ∷ cs) d h =
    ground (arith, step-version session now c d, run-version session cs (step now c d).1)
