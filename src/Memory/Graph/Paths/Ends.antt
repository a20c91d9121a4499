-- ===== src/Memory/Graph/Paths/Ends.antt =====
-- The search of a path ends: every round takes a node from the queue, and a node enters the queue
-- only once (memory/graph/graph_repository.py).
use prima_next.Base.{
  ℕ, zero, suc, ◌+◌, ◌≤◌, ◌≡◌, refl, true, false, not, ◌==◌, some, List, [], ◌∷◌, ◌++◌, elem,
  elem-append, get_or, ◌∙◌, length, length-append, count_by, if-cases, arith, All,
}
use prima_next.Base.Dict.{Dict, lookup}
use prima_next.Base.Keys.{All-imp, All-self}
use prima_next.Base.Text.{Text, text_eq, text_beq_iff}
use prima_next.Memory.Graph.{GraphRepository, linked}
use prima_next.Memory.Graph.Paths.{Queue, Scan, met, going, scan, search, shortest_path}

-- Every name that is linked to.
abbrev pub names : Dict Text (List Text) → List Text
names [] = []
names ((a, bs) ∷ d) = bs ++ names d

-- How many of the names are not yet visited, with repetition.
abbrev pub unvisited : List Text → List Text → ℕ
unvisited us visited = count_by (λ u. not (elem u visited)) us

unvisited-le :
    (us visited : List Text) (n : Text) → unvisited us (n ∷ visited) ≤ unvisited us visited
unvisited-le [] visited n = omega arith
unvisited-le (u ∷ us) visited n = ground (arith, unvisited-le us visited n)

unvisited-lt :
    (us visited : List Text) (n : Text)
    → elem n us ≡ true
    → elem n visited ≡ false
    → suc (unvisited us (n ∷ visited)) ≤ unvisited us visited
unvisited-lt [] visited n h k = cc
unvisited-lt (u ∷ us) visited n h k = ground (
  arith,
  text_beq_iff u n,
  text_beq_iff n u,
  unvisited-le us visited n,
  unvisited-lt us visited n,
)

-- What a scan leaves to do: no more than before it, where it only meets names of the list.
abbrev Falls : List Text → ℕ → Scan → Type 0
Falls us k (met p) = Unit
Falls us k (going visited queue) = unvisited us visited + length queue ≤ k

Falls-le : (us : List Text) (k m : ℕ) (s : Scan) → k ≤ m → Falls us k s → Falls us m s
Falls-le us k m (met p) h f = tt
Falls-le us k m (going v q) h f = omega arith

scan-Falls :
    (us : List Text) (target : Text) (path ns visited : List Text) (queue : Queue)
    → All (λ n. elem n us ≡ true) ns
    → Falls us (unvisited us visited + length queue) (scan target path ns visited queue)
unfolding scan
scan-Falls us target path [] visited queue h = omega arith
scan-Falls us target path (n ∷ ns) visited queue h =
    let k = unvisited us visited + length queue in
    if-cases (Falls us k) (elem n visited) (λ seen. scan-Falls us target path ns visited queue h.1)
      (λ fresh.
        if-cases (Falls us k) (n == target) (λ met. tt)
          (λ other.
            let entry = (n, path ++ (n ∷ [])) ∷ [] in
            Falls-le us _ k (scan target path ns (n ∷ visited) (queue ++ entry))
              (omega (arith, unvisited-lt us visited n h.0 fresh, length-append queue entry))
              (scan-Falls us target path ns (n ∷ visited) (queue ++ entry) h.1)))

linked-names :
    (a : Text) (d : Dict Text (List Text))
    → All (λ n. elem n (names d) ≡ true) (get_or (lookup a d) [])
linked-names a [] = tt
linked-names a ((b, ns) ∷ d) =
    if-cases (λ o. All (λ n. elem n (ns ++ names d) ≡ true) (get_or o [])) (b == a)
      (λ met.
        All-imp (λ n. elem n ns ≡ true) (λ n. elem n (ns ++ names d) ≡ true) ns
          (λ n h. elem-append n ns (names d) ∙ ground arith) (All-self ns))
      (λ other.
        All-imp (λ n. elem n (names d) ≡ true) (λ n. elem n (ns ++ names d) ≡ true)
          (get_or (lookup a d) []) (λ n h. elem-append n ns (names d) ∙ ground arith)
          (linked-names a d))

after_scan :
    (us : List Text) (g : GraphRepository) (target : Text) (fuel k : ℕ) (s : Scan)
    → ((visited : List Text) (queue : Queue)
        → unvisited us visited + length queue ≤ fuel
        → (p : List Text) × (search fuel g target visited queue ≡ some p))
    → k ≤ fuel
    → Falls us k s
    → (p : List Text) × ((elim s [
      | met found ↦ some found
      | going visited' queue' ↦ search fuel g target visited' queue'
    ])
        ≡ some p)
after_scan us g target fuel k (met p) ih h f = (p, refl)
after_scan us g target fuel k (going v q) ih h f = ih v q (omega arith)

search-ends :
    (g : GraphRepository) (target : Text) (fuel : ℕ) (visited : List Text) (queue : Queue)
    → unvisited (names g.links) visited + length queue ≤ fuel
    → (p : List Text) × (search fuel g target visited queue ≡ some p)
unfolding search
search-ends g target zero visited [] h = ([], refl)
search-ends g target (suc fuel) visited [] h = ([], refl)
search-ends g target zero visited (p ∷ queue) h = absurd (omega arith)
search-ends g target (suc fuel) visited ((current, path) ∷ queue) h =
    let us = names g.links in
    after_scan us g target fuel (unvisited us visited + length queue)
      (scan target path (linked current g) visited queue) (search-ends g target fuel) (omega arith)
      (scan-Falls us target path (linked current g) visited queue (linked-names current g.links))

-- The rounds that are enough: one for each name that is linked to, and one for the source.
abbrev pub enough : GraphRepository → ℕ
enough g = length (names g.links) + 1

unvisited-length : (us visited : List Text) → unvisited us visited ≤ length us
unvisited-length [] visited = omega arith
unvisited-length (u ∷ us) visited = ground (arith, unvisited-length us visited)

-- The search of a path ends on every graph, between any two names, within one round for each name
-- that a link leads to and one for the source.
pub shortest_path-ends :
    (g : GraphRepository) (source target : Text)
    → (p : List Text) × (shortest_path (enough g) g source target ≡ some p)
unfolding shortest_path
shortest_path-ends g source target =
    if-cases (λ o. (p : List Text) × (o ≡ some p)) (source == target) (λ same. (source ∷ [], refl))
      (λ apart.
        search-ends g target (enough g) (source ∷ []) ((source, source ∷ []) ∷ [])
          (omega (arith, unvisited-length (names g.links) (source ∷ []))))
