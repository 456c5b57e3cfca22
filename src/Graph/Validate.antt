-- ===== src/Graph/Validate.antt =====
-- backend/app/services/graph.py: `validate_graph`.
pub mod Shape
pub mod Wires
pub mod Kinds
pub mod Accepts
use appbi_integration.Base.{
  String, Bool, true, false, List, [], ◌∷◌, ◌++◌, Option, none, some, if◌then◌else◌, ltb,
}
use appbi_integration.Base.Lists.{length}
use appbi_integration.Json.{Json, arr, Fields, get, elements}
use appbi_integration.Graph.Dict.{Dict, lookup}
use appbi_integration.Graph.Issue.{
  Code, graph_malformed, graph_too_large, trigger_required, trigger_ambiguous, graph_has_cycle,
  trigger_not_connected, Issue, issue, Definitions, ValidationResult, max_nodes,
}
use appbi_integration.Graph.Cycle.{Adjacency, has_cycle}
use appbi_integration.Graph.Nodes.{collect, check_nodes, raw_key_of}
use appbi_integration.Graph.Connections.{
  Edge, check_connections, no_neighbours, add_edges, has_outgoing, orphan_issues,
}

abbrev pub failed_with : Code → ValidationResult
failed_with code = record {
  issues = issue code none ∷ [];
  credential_ids = [];
  trigger_node_id = none;
  trigger_node_key = none;
}

-- `TRIGGER_REQUIRED` and `TRIGGER_AMBIGUOUS`
unfoldable pub trigger_issues : Bool → List String → List Issue
trigger_issues false triggers = []
trigger_issues true [] = issue trigger_required none ∷ []
trigger_issues true (first ∷ []) = []
trigger_issues true (first ∷ second ∷ rest) = issue trigger_ambiguous (some second) ∷ []

abbrev pub first_of : List String → Option String
first_of [] = none
first_of (first ∷ rest) = some first

-- `GRAPH_HAS_CYCLE`; the search never runs out of its fuel
unfoldable pub cycle_issues : Option Bool → List Issue
cycle_issues (some true) = issue graph_has_cycle none ∷ []
cycle_issues _ = []

-- `TRIGGER_NOT_CONNECTED`
unfoldable pub unconnected_issues : Option String → List Edge → List Issue
unfolding has_outgoing
unconnected_issues none accepted = []
unconnected_issues (some trigger) accepted =
    if has_outgoing accepted trigger then [] else issue trigger_not_connected (some trigger) ∷ []

abbrev key_of : Dict Fields → Option String → Option String
key_of by_id none = none
key_of by_id (some node_id) = elim (lookup node_id by_id) [
  | none ↦ none
  | some node ↦ some (raw_key_of node)
]

unfoldable pub adjacency_of : Dict Fields → List Edge → Adjacency
unfolding add_edges no_neighbours
adjacency_of by_id accepted = add_edges accepted (no_neighbours by_id)

-- Everything after the checks of the graph's shape.
unfoldable pub validate_parts : Definitions → Bool → List Json → List Json → ValidationResult
unfolding collect check_nodes trigger_issues check_connections cycle_issues has_cycle adjacency_of
    orphan_issues unconnected_issues lookup raw_key_of
validate_parts definitions require_trigger nodes connections =
    let collected = collect [] nodes in
    let by_id = collected.by_id in
    let report = check_nodes definitions [] by_id in
    let wiring = check_connections definitions by_id [] connections in
    let trigger = first_of report.triggers in
    record {
      issues =
          collected.issues
          ++ (report.issues
              ++ (trigger_issues require_trigger report.triggers
                  ++ (wiring.issues
                      ++ (cycle_issues (has_cycle (adjacency_of by_id wiring.accepted))
                          ++ (orphan_issues definitions by_id wiring.accepted by_id
                              ++ unconnected_issues trigger wiring.accepted)))));
      credential_ids = report.credential_ids;
      trigger_node_id = trigger;
      trigger_node_key = key_of by_id trigger;
    }

abbrev pub validate_lists : Definitions → Bool → Option Json → Option Json → ValidationResult
validate_lists definitions require_trigger (some (arr nodes)) (some (arr connections)) =
    if ltb max_nodes (length (elements nodes))
    then failed_with graph_too_large
    else validate_parts definitions require_trigger (elements nodes) (elements connections)
validate_lists _ _ _ _ = failed_with graph_malformed

-- `validate_graph(graph, definitions, require_trigger=…)`
unfoldable pub validate_graph : Fields → Definitions → Bool → ValidationResult
unfolding validate_parts get
validate_graph graph definitions require_trigger =
    validate_lists definitions require_trigger (get "nodes" graph) (get "connections" graph)
