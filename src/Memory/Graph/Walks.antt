-- ===== src/Memory/Graph/Walks.antt =====
-- Walks along the links of memory/graph/graph_repository.py, by their length, and the paths that a
-- search writes down.
use prima_next.Base.{ℕ, suc, ◌≤◌, ◌≡◌, true, List, [], ◌∷◌, ◌++◌, elem, length}
use prima_next.Base.Text.{Text, text_eq}
use prima_next.Memory.Graph.{GraphRepository, linked}

-- A walk of so many links from the source.
pub data Walk (g : GraphRepository) (source : Text) : ℕ → Text → Type 0 where
  here : Walk g source 0 source
  step :
      {n : ℕ} {u v : Text}
      → Walk g source n u
      → elem v (linked u g) ≡ true
      → Walk g source (suc n) v

-- A list of names that leads from the source along links.
pub data Trail (g : GraphRepository) (source : Text) : Text → List Text → Type 0 where
  start : {v : Text} {p : List Text} → v ≡ source → p ≡ source ∷ [] → Trail g source v p
  next :
      {v : Text} {p : List Text} (u : Text) (q : List Text)
      → Trail g source u q
      → elem v (linked u g) ≡ true
      → p ≡ q ++ (v ∷ [])
      → Trail g source v p

pub Trail-nonempty : (g : GraphRepository) (source v : Text) → Trail g source v [] → ⊥
Trail-nonempty g source v (start e h) = cc
Trail-nonempty g source v (next u [] p m h) = cc
Trail-nonempty g source v (next u (x ∷ q) p m h) = cc

-- No walk to the name is shorter than the path.
abbrev pub IsShortest : GraphRepository → Text → Text → List Text → Type 0
IsShortest g source v p = (n : ℕ) → Walk g source n v → length p ≤ suc n

-- The answer of a search: the empty list where no walk leads to the target, or else a path to it
-- that no walk undercuts.
abbrev pub IsAnswer : GraphRepository → Text → Text → List Text → Type 0
IsAnswer g source target [] = (n : ℕ) → Walk g source n target → ⊥
IsAnswer g source target (x ∷ p) =
    Trail g source target (x ∷ p) × IsShortest g source target (x ∷ p)

pub Trail-IsAnswer :
    (g : GraphRepository) (source target : Text) (p : List Text)
    → Trail g source target p
    → IsShortest g source target p
    → IsAnswer g source target p
Trail-IsAnswer g source target [] h k = absurd (Trail-nonempty g source target h)
Trail-IsAnswer g source target (x ∷ p) h k = (h, k)
