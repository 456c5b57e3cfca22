-- ===== src/Graph/Connections.antt =====
-- backend/app/services/graph.py: the loops of `validate_graph` over the connections, and the two
-- warnings that come after them. A connection that is no object reads as the empty one, where Python
-- raises AttributeError.
use appbi_integration.Base.{
  String, Bool, true, false, not, ◌&&◌, ◌||◌, List, [], ◌∷◌, ◌++◌, Option, none, some, str_eq,
  if◌then◌else◌,
}
use appbi_integration.Base.Lists.{any}
use appbi_integration.Json.{Json, Fields, end, get}
use appbi_integration.Json.Text.{str_or}
use appbi_integration.Graph.Dict.{Dict, lookup, modify, has}
use appbi_integration.Graph.Schema.{Definition, or_blank, as_fields, output_ports, input_ports}
use appbi_integration.Graph.Issue.{
  connection_dangling, connection_self, connection_duplicate, connection_port_invalid, node_orphan,
  Issue, issue, warn, Definitions,
}
use appbi_integration.Graph.Cycle.{Adjacency}
use appbi_integration.Graph.Nodes.{raw_key_of}

-- The two ends of a connection, with the defaults that the code gives them.
pub record Edge : Type 0 where
  pub source_id : String
  pub source_port : String
  pub target_id : String
  pub target_port : String

unfoldable pub edge_of : Json → Edge
unfolding str_or get
edge_of conn =
    let source = as_fields (get "from" (as_fields (some conn))) in
    let target = as_fields (get "to" (as_fields (some conn))) in
    record {
      source_id = str_or "" (get "node_id" source);
      source_port = str_or "main" (get "port" source);
      target_id = str_or "" (get "node_id" target);
      target_port = str_or "main" (get "port" target);
    }

abbrev pub same_edge : Edge → Edge → Bool
same_edge e f =
    str_eq e.source_id f.source_id
    && str_eq e.source_port f.source_port
    && str_eq e.target_id f.target_id
    && str_eq e.target_port f.target_port

abbrev or_end : Option Fields → Fields
or_end none = end
or_end (some node) = node

-- `definitions.get(str(by_id[node_id].get("node_key")), {})`
unfoldable pub definition_of : Definitions → Dict Fields → String → Definition
unfolding lookup raw_key_of
definition_of definitions by_id node_id =
    or_blank (lookup (raw_key_of (or_end (lookup node_id by_id))) definitions)

abbrev is_empty : List String → Bool
is_empty [] = true
is_empty (x ∷ xs) = false

-- The first thing that is wrong with a connection, `seen` being the edges accepted as new so far.
unfoldable pub refuse_edge : Definitions → Dict Fields → List Edge → Edge → Option Issue
unfolding has definition_of output_ports input_ports lookup
refuse_edge definitions by_id seen edge =
    if not (has edge.source_id by_id) || not (has edge.target_id by_id)
    then some (issue connection_dangling none)
    else if str_eq edge.source_id edge.target_id
    then some (issue connection_self (some edge.source_id))
    else if any (same_edge edge) seen
    then some (issue connection_duplicate (some edge.source_id))
    else (let valid_out =
          output_ports (or_end (lookup edge.source_id by_id))
            (definition_of definitions by_id edge.source_id) in
        let valid_in = input_ports (definition_of definitions by_id edge.target_id) in
        if not (is_empty valid_out) && not (any (str_eq edge.source_port) valid_out)
        then some (issue connection_port_invalid (some edge.source_id))
        else if not (is_empty valid_in) && not (any (str_eq edge.target_port) valid_in)
        then some (issue connection_port_invalid (some edge.target_id))
        else if is_empty valid_in
        then some (issue connection_port_invalid (some edge.target_id))
        else none)

-- Whether `seen_edges.add(edge)` is reached: past the first three checks.
unfoldable pub marks_seen : Dict Fields → List Edge → Edge → Bool
unfolding has
marks_seen by_id seen edge =
    has edge.source_id by_id
    && has edge.target_id by_id
    && not (str_eq edge.source_id edge.target_id)
    && not (any (same_edge edge) seen)

-- What the loop leaves: its issues, and the connections that it accepted.
pub record Wiring : Type 0 where
  pub issues : List Issue
  pub accepted : List Edge

abbrev pub wire : Edge → Option Issue → Wiring → Wiring
wire edge none rest = record rest { accepted = edge ∷ rest.accepted }
wire edge (some problem) rest = record rest { issues = problem ∷ rest.issues }

-- `for conn in connections: …`
unfoldable pub check_connections : Definitions → Dict Fields → List Edge → List Json → Wiring
unfolding edge_of refuse_edge marks_seen
check_connections definitions by_id seen [] = record { issues = []; accepted = [] }
check_connections definitions by_id seen (conn ∷ rest) =
    let edge = edge_of conn in
    wire edge (refuse_edge definitions by_id seen edge) (
      check_connections definitions by_id (if marks_seen by_id seen edge then edge ∷ seen else seen)
        rest)

-- `{node_id: [] for node_id in by_id}`
unfoldable pub no_neighbours : Dict Fields → Adjacency
no_neighbours [] = []
no_neighbours ((node_id, node) ∷ rest) = (node_id, []) ∷ no_neighbours rest

-- `adjacency[source_id].append(target_id)` for each accepted connection, in order
unfoldable pub add_edges : List Edge → Adjacency → Adjacency
unfolding modify
add_edges [] adjacency = adjacency
add_edges (edge ∷ rest) adjacency =
    add_edges rest (modify edge.source_id (λ targets. targets ++ edge.target_id ∷ []) adjacency)

-- `incoming[node_id] == 0` and `not outgoing.get(node_id)`
unfoldable pub has_incoming : List Edge → String → Bool
has_incoming accepted node_id = any (λ e. str_eq e.target_id node_id) accepted

unfoldable pub has_outgoing : List Edge → String → Bool
has_outgoing accepted node_id = any (λ e. str_eq e.source_id node_id) accepted

-- `NODE_ORPHAN`
unfoldable pub orphan_issues : Definitions → Dict Fields → List Edge → Dict Fields → List Issue
unfolding definition_of has_incoming
orphan_issues definitions by_id accepted [] = []
orphan_issues definitions by_id accepted ((node_id, node) ∷ rest) =
    let later = orphan_issues definitions by_id accepted rest in
    if (definition_of definitions by_id node_id).is_trigger
    then later
    else if has_incoming accepted node_id
    then later
    else warn node_orphan (some node_id) ∷ later
