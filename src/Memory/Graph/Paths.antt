-- ===== src/Memory/Graph/Paths.antt =====
-- `shortest_path` of memory/graph/graph_repository.py, with
-- `path_search` of memory/graph/graph_reasoning_engine.py: breadth-first search. The links of a
-- node are scanned in the order in which the set yields them.
pub mod Ends
pub mod Scanning
pub mod Correct
use prima_next.Base.{
  ℕ, zero, suc, Bool, true, false, ◌==◌, Option, none, some, List, [], ◌∷◌, ◌++◌, elem,
  if◌then◌else◌,
}
use prima_next.Base.Text.{Text, text_eq}
use prima_next.Memory.Graph.{GraphRepository, linked}

-- A queued node with the path that led to it.
abbrev pub Queue : Type 0
Queue = List (Text × List Text)

-- The scan of one node's links: the target is met, or the marks and the queue after it.
pub data Scan : Type 0 where
  met : List Text → Scan
  going : List Text → Queue → Scan

unfoldable pub scan : Text → List Text → List Text → List Text → Queue → Scan
scan target path [] visited queue = going visited queue
scan target path (n ∷ ns) visited queue =
    let next = path ++ (n ∷ []) in
    let seen = scan target path ns visited queue in
    let fresh = scan target path ns (n ∷ visited) (queue ++ ((n, next) ∷ [])) in
    if elem n visited then seen else if n == target then met next else fresh

-- The loop, on fuel: the path, empty where there is none.
unfoldable pub search : ℕ → GraphRepository → Text → List Text → Queue → Option (List Text)
search fuel g target visited [] = some []
search zero g target visited (p ∷ queue) = none
search (suc fuel) g target visited ((current, path) ∷ queue) =
    elim (scan target path (linked current g) visited queue) [
      | met found ↦ some found
      | going visited' queue' ↦ search fuel g target visited' queue'
    ]

unfoldable pub shortest_path : ℕ → GraphRepository → Text → Text → Option (List Text)
unfolding search
shortest_path fuel g source target =
    if source == target
    then some (source ∷ [])
    else search fuel g target (source ∷ []) ((source, source ∷ []) ∷ [])
