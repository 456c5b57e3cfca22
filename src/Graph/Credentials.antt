-- ===== src/Graph/Credentials.antt =====
-- backend/app/services/graph.py: `collect_credential_ids` and `trigger_of`, which read a graph
-- without validating it.
use appbi_integration.Base.{String, List, [], ◌∷◌, ◌++◌, Option, none, some, if◌then◌else◌}
use appbi_integration.Json.{Json, Fields, get}
use appbi_integration.Graph.Dict.{lookup}
use appbi_integration.Graph.Schema.{or_blank, as_fields, as_list}
use appbi_integration.Graph.Issue.{Definitions}
use appbi_integration.Graph.Nodes.{raw_key_of, credentials_of}

-- The loop over the nodes that are left; the set is a list, read by membership.
unfoldable pub credential_ids_from : Definitions → List Json → List String
unfolding lookup raw_key_of credentials_of get
credential_ids_from definitions [] = []
credential_ids_from definitions (node ∷ nodes) =
    let fields = as_fields (some node) in
    credentials_of (as_fields (get "config" fields))
      (or_blank (lookup (raw_key_of fields) definitions)).fields
    ++ credential_ids_from definitions nodes

-- `collect_credential_ids(graph, definitions)`
unfoldable pub collect_credential_ids : Fields → Definitions → List String
unfolding credential_ids_from get
collect_credential_ids graph definitions =
    credential_ids_from definitions (as_list (get "nodes" graph))

unfoldable pub trigger_among : Definitions → List Json → Option Json
unfolding lookup raw_key_of
trigger_among definitions [] = none
trigger_among definitions (node ∷ nodes) =
    let later = trigger_among definitions nodes in
    if (or_blank (lookup (raw_key_of (as_fields (some node))) definitions)).is_trigger
    then some node
    else later

-- `trigger_of(graph, definitions)`
unfoldable pub trigger_of : Fields → Definitions → Option Json
unfolding trigger_among get
trigger_of graph definitions = trigger_among definitions (as_list (get "nodes" graph))
