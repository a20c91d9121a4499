-- ===== src/Tests/Memory.antt =====
-- A graph of three notes in a row, and evidence that exceeds its budget.
use prima_next.Base.{◌≡◌, true, some, List, [], ◌∷◌}
use prima_next.Base.Text.{Text, codes, text_eq}
use prima_next.Reasoning.{EvidenceItem}
use prima_next.Memory.Graph.{GraphEdge, GraphRepository, empty_graph}
use prima_next.Memory.Graph.Links.{Change, built_from, node, edge, IsLinked, built-IsLinked}
use prima_next.Memory.Graph.Walks.{IsAnswer}
use prima_next.Memory.Graph.Paths.{shortest_path}
use prima_next.Memory.Graph.Paths.Correct.{shortest_path-IsAnswer}
use prima_next.Memory.Graph.Paths.Ends.{enough}
use prima_next.Memory.Compression.{compress}
use prima_next.Memory.Compression.Budget.{compress-IsAudited, IsAudited}

abbrev demo_edge : Text → Text → GraphEdge
demo_edge a b = record { source_id = a; target_id = b; relation_type = codes "related"; weight = 1 }

abbrev demo_changes : List Change
demo_changes =
    node (record { id = codes "a"; memory_id = codes "m1"; labels = [] })
    ∷ edge (demo_edge (codes "a") (codes "b"))
    ∷ edge (demo_edge (codes "b") (codes "c"))
    ∷ []

abbrev demo_graph : GraphRepository
demo_graph = built_from empty_graph demo_changes

built-IsLinked_example : IsLinked demo_graph
built-IsLinked_example = built-IsLinked demo_changes

shortest_path-IsAnswer_example :
    (p : List Text) × (shortest_path (enough demo_graph) demo_graph (codes "a") (codes "c")
      ≡ some p)
    × IsAnswer demo_graph (codes "a") (codes "c") p
shortest_path-IsAnswer_example = shortest_path-IsAnswer demo_graph (codes "a") (codes "c")

abbrev demo_items : List EvidenceItem
demo_items =
    record { source_id = codes "n1"; text = codes "Ada wrote it."; hop = 1; query = [] }
    ∷ record { source_id = codes "n2"; text = codes "So they say."; hop = 1; query = [] }
    ∷ []

compress-IsAudited_example : IsAudited 4 demo_items (compress true demo_items 4)
compress-IsAudited_example = compress-IsAudited demo_items 4
