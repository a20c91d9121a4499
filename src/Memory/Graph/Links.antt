-- ===== src/Memory/Graph/Links.antt =====
-- The invariant of the graph (memory/graph/graph_repository.py): links go both ways, and each has
-- its edge.
use prima_next.Base.{
  ◌≡◌, refl, ◌∙◌, inl, inr, true, false, ◌||◌, ◌&&◌, ◌==◌, Option, none, some, List, [], ◌∷◌, elem,
  elem-append, get_or, Bool-cases, arith, is_none, any, not,
}
use prima_next.Base.Dict.{Dict, lookup, insert, contains, lookup-insert}
use prima_next.Base.Names.{text_leb, text_leb-total, text_leb-antisym}
use prima_next.Base.Text.{Text, text_eq, text_beq_iff}
use prima_next.Memory.Graph.{
  GraphNode, GraphEdge, GraphRepository, pair_eq, pair_beq_iff, sorted_pair, key, empty_graph,
  linked, link, add_to, add_node, add_edge, collect, get_neighbors, cons_neighbor, sort_found,
}

pub sorted_pair-sym : (a b : Text) → sorted_pair a b ≡ sorted_pair b a
unfolding sorted_pair
sorted_pair-sym a b = elim (Bool-cases (text_leb a b)) [
  | inl le ↦ elim (Bool-cases (text_leb b a)) [
    | inl ge ↦ rw (text_leb-antisym a b le ge) refl
    | inr lt ↦ rw (le, lt, sorted_pair) refl
  ]
  | inr gt ↦ rw (gt, sorted_pair) (rw (ge_of a b gt, sorted_pair) refl)
]
  where
    ge_of : (a b : Text) → text_leb a b ≡ false → text_leb b a ≡ true
    ge_of a b h = ground (arith, text_leb-total a b)

add_to-elem : (c b : Text) (xs : List Text) → elem c (add_to b xs) ≡ (b == c || elem c xs)
add_to-elem c b xs = ground (arith, elem-append c xs (b ∷ []), text_beq_iff b c)

link-elem :
    (a b x c : Text) (d : Dict Text (List Text))
    → elem c (get_or (lookup x (link a b d)) [])
      ≡ ((a == x && b == c) || elem c (get_or (lookup x d) []))
link-elem a b x c d = ground (
  arith,
  lookup-insert a x (add_to b (get_or (lookup a d) [])) d,
  add_to-elem c b (get_or (lookup a d) []),
  text_beq_iff a x,
)

pub add_edge-elem :
    (e : GraphEdge) (g : GraphRepository) (x c : Text)
    → elem c (linked x (add_edge e g)) ≡ (
        (e.source_id == x && e.target_id == c)
        || ((e.target_id == x && e.source_id == c) || elem c (linked x g)))
unfolding add_edge
add_edge-elem e g x c = ground (
  arith,
  link-elem e.target_id e.source_id x c (link e.source_id e.target_id g.links),
  link-elem e.source_id e.target_id x c g.links,
)

-- Links go both ways, and each has an edge under its key.
pub record IsLinked (g : GraphRepository) : Type 0 where
  pub symmetric : (x c : Text) → elem c (linked x g) ≡ elem x (linked c g)
  pub edged : (x c : Text) → elem c (linked x g) ≡ true → contains (sorted_pair x c) g.edges ≡ true

contains-insert :
    (k j : Text × Text) (e : GraphEdge) (d : Dict (Text × Text) GraphEdge)
    → contains j (insert k e d) ≡ (k == j || contains j d)
contains-insert k j e d = ground (arith, lookup-insert k j e d)

key-ends :
    (e : GraphEdge) (x c : Text)
    → ((e.source_id == x && e.target_id == c) || (e.target_id == x && e.source_id == c)) ≡ true
    → (key e == sorted_pair x c) ≡ true
unfolding key
key-ends e x c h = elim (Bool-cases (e.source_id == x && e.target_id == c)) [
  | inl straight ↦
      (pair_beq_iff (key e) (sorted_pair x c)).1
        (ground (arith, text_beq_iff e.source_id x, text_beq_iff e.target_id c))
  | inr back ↦ (pair_beq_iff (key e) (sorted_pair x c)).1 (
      sorted_pair-sym e.source_id e.target_id
      ∙ ground (arith, text_beq_iff e.target_id x, text_beq_iff e.source_id c))
]

edge-contains :
    (e : GraphEdge) (g : GraphRepository) (j : Text × Text)
    → contains j (add_edge e g).edges ≡ (key e == j || contains j g.edges)
unfolding add_edge
edge-contains e g j = contains-insert (key e) j e g.edges

add_edge-IsLinked : (e : GraphEdge) (g : GraphRepository) → IsLinked g → IsLinked (add_edge e g)
add_edge-IsLinked e g h = record {
  symmetric = λ x c. ground (arith, add_edge-elem e g x c, add_edge-elem e g c x, h.symmetric x c);
  edged = λ x c m.
      let j = sorted_pair x c in
      ground (arith, edge-contains e g j, add_edge-elem e g x c, key-ends e x c, h.edged x c);
}

add_node-IsLinked : (n : GraphNode) (g : GraphRepository) → IsLinked g → IsLinked (add_node n g)
unfolding add_node
add_node-IsLinked n g h = record { symmetric = h.symmetric; edged = h.edged }

-- A change of the graph, and the graph that a history of changes builds.
pub data Change : Type 0 where
  node : GraphNode → Change
  edge : GraphEdge → Change

unfoldable pub change : GraphRepository → Change → GraphRepository
change g (node n) = add_node n g
change g (edge e) = add_edge e g

unfoldable pub built_from : GraphRepository → List Change → GraphRepository
unfolding change
built_from g [] = g
built_from g (x ∷ xs) = built_from (change g x) xs

built_from-IsLinked :
    (g : GraphRepository) (xs : List Change) → IsLinked g → IsLinked (built_from g xs)
unfolding built_from change
built_from-IsLinked g [] h = h
built_from-IsLinked g (node n ∷ xs) h =
    built_from-IsLinked (add_node n g) xs (add_node-IsLinked n g h)
built_from-IsLinked g (edge e ∷ xs) h =
    built_from-IsLinked (add_edge e g) xs (add_edge-IsLinked e g h)

-- However a graph is built, its links go both ways and each has an edge under its key.
pub built-IsLinked : (xs : List Change) → IsLinked (built_from empty_graph xs)
built-IsLinked xs =
    built_from-IsLinked empty_graph xs (record { symmetric = λ x c. refl; edged = λ x c m. cc })

cons_neighbor-none :
    (n : Option GraphNode) (e : Option GraphEdge) (ps : Option (List (GraphNode × GraphEdge)))
    → is_none e ≡ false
    → is_none (cons_neighbor n e ps) ≡ (is_none n || is_none ps)
cons_neighbor-none n e ps h = ground arith

contains-found :
    (j : Text × Text) (d : Dict (Text × Text) GraphEdge)
    → contains j d ≡ true
    → is_none (lookup j d) ≡ false
contains-found j d h = ground arith

contains-node : (b : Text) (d : Dict Text GraphNode) → is_none (lookup b d) ≡ not (contains b d)
contains-node b d = ground arith

collect-missing :
    (a : Text) (g : GraphRepository) (bs : List Text)
    → ((b : Text) → elem b bs ≡ true → contains (sorted_pair a b) g.edges ≡ true)
    → is_none (collect a g bs) ≡ any (λ b. not (contains b g.nodes)) bs
unfolding collect
collect-missing a g [] h = refl
collect-missing a g (b ∷ bs) h =
    let found = contains-found (sorted_pair a b) g.edges (h b (ground (arith, text_beq_iff b b))) in
    let rest = collect-missing a g bs (λ c m. h c (ground arith)) in
    cons_neighbor-none (lookup b g.nodes) (lookup (sorted_pair a b) g.edges) (collect a g bs) found
    ∙ ground (arith, contains-node b g.nodes, rest)

sort_found-none : (o : Option (List (GraphNode × GraphEdge))) → is_none (sort_found o) ≡ is_none o
sort_found-none none = refl
sort_found-none (some ps) = refl

-- On a graph built by any history, the neighbours of a node are found, and the lookup raises only
-- if a link leads to a node that was never added: the edge of a link is never missing.
get_neighbors-missing :
    (xs : List Change) (a : Text)
    → let g = built_from empty_graph xs in
      is_none (get_neighbors a g) ≡ any (λ b. not (contains b g.nodes)) (linked a g)
unfolding get_neighbors
get_neighbors-missing xs a =
    let g = built_from empty_graph xs in
    sort_found-none (collect a g (linked a g))
    ∙ collect-missing a g (linked a g) (λ b m. (built-IsLinked xs).edged a b m)
