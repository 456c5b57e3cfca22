-- ===== src/Tests/Graphs.antt =====
-- backend/app/services/graph.py on small graphs.
use appbi_integration.Base.{◌≡◌, refl, ◌⊎◌, ◌≤◌, true, false, some, [], ◌∷◌}
use appbi_integration.Base.Lists.{length}
use appbi_integration.Json.{Items, arr, get, elements}
use appbi_integration.Graph.Cycle.{has_cycle, Adjacency}
use appbi_integration.Graph.Cycle.Walk.{Cyclic}
use appbi_integration.Graph.Cycle.Total.{has_cycle_decides}
use appbi_integration.Graph.Issue.{is_ok, max_nodes}
use appbi_integration.Graph.Validate.{validate_graph}
use appbi_integration.Graph.Validate.Accepts.{IsAccepted, validate_graph-accepts}
use appbi_integration.Tests.Data.{registry, graph}

abbrev triangle : Adjacency
triangle = ("a", "b" ∷ []) ∷ ("b", "c" ∷ []) ∷ ("c", "a" ∷ []) ∷ []

has_cycle_decides_example :
    ((has_cycle triangle ≡ some true) × Cyclic triangle)
    ⊎ ((has_cycle triangle ≡ some false) × (¬ Cyclic triangle))
has_cycle_decides_example = has_cycle_decides triangle

triangle_cycle : has_cycle triangle ≡ some true
unfolding has_cycle
triangle_cycle = refl

graph_ok : is_ok (validate_graph graph registry true) ≡ true
unfolding is_ok validate_graph
graph_ok = refl

validate_graph-accepts_example :
    (nodes : Items) × (connections : Items) × (get "nodes" graph ≡ some (arr nodes))
    × (get "connections" graph ≡ some (arr connections))
    × (length (elements nodes) ≤ max_nodes)
    × IsAccepted registry true (elements nodes) (elements connections)
validate_graph-accepts_example = validate_graph-accepts graph registry true graph_ok
