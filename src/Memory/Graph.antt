-- ===== src/Memory/Graph.antt =====
-- memory/graph/graph_node.py, graph_edge.py and graph_repository.py: notes as nodes, links as edges
-- without direction. The set of a node's neighbours is a list without repetition, in some order of
-- iteration; weights are counted in millionths.
pub mod Links
pub mod Walks
pub mod Paths
use prima_next.Base.{
  ℕ, ◌≡◌, Bool, true, false, ◌||◌, not, ◌==◌, Option, none, some, List, [], ◌∷◌, ◌++◌, Eq, elem,
  get_or, leb, map, if◌then◌else◌, arith, ◌↔◌, ◌&&◌,
}
use prima_next.Base.Dict.{Dict, lookup, insert}
use prima_next.Base.Names.{text_leb}
use prima_next.Base.Text.{Text, text_eq, text_beq_iff}

pub record GraphNode : Type 0 where
  pub id : Text
  pub memory_id : Text
  pub labels : List Text

pub record GraphEdge : Type 0 where
  pub source_id : Text
  pub target_id : Text
  pub relation_type : Text
  pub weight : ℕ

abbrev pub pair_beq : Text × Text → Text × Text → Bool
pair_beq (a, b) (c, d) = a == c && b == d

pub pair_beq_iff : (p q : Text × Text) → (pair_beq p q ≡ true) ↔ (p ≡ q)
pair_beq_iff (a, b) (c, d) = ground (arith, text_beq_iff a c, text_beq_iff b d)

instance abbrev pub pair_eq : Eq (Text × Text)
pair_eq = record { equal = pair_beq; decides = pair_beq_iff }

-- `sorted((a, b))`
unfoldable pub sorted_pair : Text → Text → Text × Text
sorted_pair a b = if text_leb a b then (a, b) else (b, a)

-- `GraphEdge.key`
unfoldable pub key : GraphEdge → Text × Text
unfolding sorted_pair
key e = sorted_pair e.source_id e.target_id

pub record GraphRepository : Type 0 where
  pub nodes : Dict Text GraphNode
  pub edges : Dict (Text × Text) GraphEdge
  pub links : Dict Text (List Text)

abbrev pub empty_graph : GraphRepository
empty_graph = record { nodes = []; edges = []; links = [] }

-- `self._neighbors.get(node_id, set())`
abbrev pub linked : Text → GraphRepository → List Text
linked a g = get_or (lookup a g.links) []

abbrev pub add_to : Text → List Text → List Text
add_to a xs = if elem a xs then xs else xs ++ (a ∷ [])

-- `self._neighbors[a].add(b)`
abbrev pub link : Text → Text → Dict Text (List Text) → Dict Text (List Text)
link a b d = insert a (add_to b (get_or (lookup a d) [])) d

unfoldable pub add_node : GraphNode → GraphRepository → GraphRepository
add_node n g = record g { nodes = insert n.id n g.nodes }

unfoldable pub add_edge : GraphEdge → GraphRepository → GraphRepository
unfolding key
add_edge e g = record g {
  edges = insert (key e) e g.edges;
  links = link e.target_id e.source_id (link e.source_id e.target_id g.links);
}

-- `sorted(neighbors, key=weight, reverse=True)`, which keeps the order of equal weights.
abbrev pub insert_heavy :
    GraphNode × GraphEdge → List (GraphNode × GraphEdge) → List (GraphNode × GraphEdge)
insert_heavy p [] = p ∷ []
insert_heavy p (q ∷ qs) =
    let rest = insert_heavy p qs in if leb q.1.weight p.1.weight then p ∷ q ∷ qs else q ∷ rest

unfoldable pub by_weight : List (GraphNode × GraphEdge) → List (GraphNode × GraphEdge)
by_weight [] = []
by_weight (p ∷ ps) = insert_heavy p (by_weight ps)

abbrev pub cons_neighbor :
    Option GraphNode
    → Option GraphEdge
    → Option (List (GraphNode × GraphEdge))
    → Option (List (GraphNode × GraphEdge))
cons_neighbor (some n) (some e) (some ps) = some ((n, e) ∷ ps)
cons_neighbor _ _ _ = none

-- The loop of `get_neighbors`; none is a `KeyError`.
unfoldable pub collect : Text → GraphRepository → List Text → Option (List (GraphNode × GraphEdge))
unfolding sorted_pair
collect a g [] = some []
collect a g (b ∷ bs) =
    cons_neighbor (lookup b g.nodes) (lookup (sorted_pair a b) g.edges) (collect a g bs)

abbrev pub sort_found :
    Option (List (GraphNode × GraphEdge)) → Option (List (GraphNode × GraphEdge))
sort_found none = none
sort_found (some ps) = some (by_weight ps)

unfoldable pub get_neighbors : Text → GraphRepository → Option (List (GraphNode × GraphEdge))
unfolding collect by_weight
get_neighbors a g = sort_found (collect a g (linked a g))

-- `find_by_memory_id`, over the nodes in their order.
unfoldable pub find_by_memory_id : Text → Dict Text GraphNode → Option GraphNode
find_by_memory_id m [] = none
find_by_memory_id m ((i, n) ∷ ns) =
    let rest = find_by_memory_id m ns in if n.memory_id == m then some n else rest
