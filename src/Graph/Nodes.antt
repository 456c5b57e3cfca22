-- ===== src/Graph/Nodes.antt =====
-- backend/app/services/graph.py: the loops of `validate_graph` over the nodes. Each returns the
-- issues that it appends, in order. A node that is no object reads as the empty one, where Python
-- raises AttributeError.
use appbi_integration.Base.{
  ℕ, String, Bool, true, false, not, ◌||◌, List, [], ◌∷◌, ◌++◌, Option, none, some, str_eq,
  if◌then◌else◌, ltb,
}
use appbi_integration.Base.Lists.{any}
use appbi_integration.Json.{Json, null, str, arr, obj, nil, Fields, end, get, truthy}
use appbi_integration.Json.Text.{py_str, str_or}
use appbi_integration.Graph.Dict.{Dict, lookup}
use appbi_integration.Graph.Text.{strip, char_count, node_id_matches}
use appbi_integration.Graph.Expression.{
  FieldPath, at_key, expression_body, check_expression, walk_config_values, ExpressionProblem,
}
use appbi_integration.Graph.Schema.{FieldSpec, Definition, as_fields, required_fields}
use appbi_integration.Graph.Issue.{
  is_nil, node_id_invalid, node_id_duplicate, node_unsupported, node_deprecated, node_name_required,
  node_name_too_long, node_name_duplicate, node_configuration_invalid, expression_invalid, Issue,
  issue, warn, Definitions, max_name_length,
}

abbrev pub or_none : String → Option String
or_none s = if str_eq s "" then none else some s

pub record Collected : Type 0 where
  pub by_id : Dict Fields
  pub issues : List Issue

-- `str(node.get("id") or "")`
unfoldable pub node_id_of : Json → String
unfolding str_or get
node_id_of node = str_or "" (get "id" (as_fields (some node)))

abbrev pub keep_node : String → Fields → Collected → Collected
keep_node node_id node rest = record rest { by_id = (node_id, node) ∷ rest.by_id }

abbrev pub add_issue : Issue → Collected → Collected
add_issue i rest = record rest { issues = i ∷ rest.issues }

-- The loop that builds `by_id`; `seen` holds the ids that are in it so far.
unfoldable pub collect : List String → List Json → Collected
unfolding node_id_of node_id_matches
collect seen [] = record { by_id = []; issues = [] }
collect seen (node ∷ nodes) =
    let node_id = node_id_of node in
    let skipped = collect seen nodes in
    let kept = collect (node_id ∷ seen) nodes in
    if not (node_id_matches node_id)
    then add_issue (issue node_id_invalid (or_none node_id)) skipped
    else if any (str_eq node_id) seen
    then add_issue (issue node_id_duplicate (some node_id)) skipped
    else keep_node node_id (as_fields (some node)) kept

-- `str(node.get("node_key") or "")`
unfoldable pub node_key_of : Fields → String
unfolding str_or get
node_key_of node = str_or "" (get "node_key" node)

-- `str(node.get("node_key"))`
unfoldable pub raw_key_of : Fields → String
unfolding get py_str
raw_key_of node = elim (get "node_key" node) [ none ↦ "None" | some key ↦ py_str key ]

-- `str(node.get("name") or "").strip()`
unfoldable pub node_name_of : Fields → String
unfolding str_or get strip
node_name_of node = strip (str_or "" (get "name" node))

-- `node.get("config") or {}`, if that is a dict
unfoldable pub config_of : Fields → Option Fields
unfolding get truthy
config_of node = elim (get "config" node) [
  | none ↦ some end
  | some (obj fields) ↦ some fields
  | some other ↦ if truthy other then none else some end
]

-- The issue about the name of a node, `names` being those seen before.
unfoldable pub name_issues : List String → String → String → List Issue
unfolding char_count
name_issues names node_id name =
    if str_eq name ""
    then issue node_name_required (some node_id) ∷ []
    else if ltb max_name_length (char_count name)
    then issue node_name_too_long (some node_id) ∷ []
    else if any (str_eq name) names
    then issue node_name_duplicate (some node_id) ∷ []
    else []

-- `value is None or value == "" or value == [] or value == {}`
unfoldable pub is_missing : Option Json → Bool
is_missing none = true
is_missing (some null) = true
is_missing (some (str s)) = str_eq s ""
is_missing (some (arr nil)) = true
is_missing (some (obj end)) = true
is_missing (some _) = false

abbrev missing_issue : String → FieldSpec → Issue
missing_issue node_id spec = record (issue node_configuration_invalid (some node_id)) {
  at = at_key spec.key ∷ [];
}

unfoldable pub required_issues : String → Fields → List FieldSpec → List Issue
unfolding is_missing get
required_issues node_id config [] = []
required_issues node_id config (spec ∷ specs) =
    let rest = required_issues node_id config specs in
    if is_missing (get spec.key config) then missing_issue node_id spec ∷ rest else rest

abbrev credential_at : Option Json → List String → List String
credential_at none rest = rest
credential_at (some value) rest = if truthy value then py_str value ∷ rest else rest

-- The credential ids that a configuration names.
unfoldable pub credentials_of : Fields → List FieldSpec → List String
unfolding get truthy py_str
credentials_of config [] = []
credentials_of config (spec ∷ specs) =
    let rest = credentials_of config specs in
    if str_eq spec.kind "credential" then credential_at (get spec.key config) rest else rest

abbrev problem_issue : String → FieldPath → Option ExpressionProblem → List Issue → List Issue
problem_issue node_id path none rest = rest
problem_issue node_id path (some problem) rest =
    record (issue expression_invalid (some node_id)) { at = path } ∷ rest

abbrev body_issue : String → FieldPath → Option (List ℕ) → List Issue → List Issue
body_issue node_id path none rest = rest
body_issue node_id path (some body) rest = problem_issue node_id path (check_expression body) rest

unfoldable pub expression_issues : String → List (FieldPath × Json) → List Issue
unfolding expression_body check_expression
expression_issues node_id [] = []
expression_issues node_id ((path, value) ∷ rest) =
    body_issue node_id path (expression_body value) (expression_issues node_id rest)

-- What the loop over `by_id` has found out.
pub record NodeReport : Type 0 where
  pub issues : List Issue
  pub triggers : List String
  pub credential_ids : List String

abbrev empty_report : NodeReport
empty_report = record { issues = []; triggers = []; credential_ids = [] }

-- Everything after the name check.
unfoldable pub check_config : Definition → String → Option Fields → NodeReport → NodeReport
unfolding required_issues required_fields credentials_of expression_issues walk_config_values
check_config definition node_id none rest = record rest {
  issues = issue node_configuration_invalid (some node_id) ∷ rest.issues;
}
check_config definition node_id (some config) rest = record {
  issues =
      required_issues node_id config (required_fields definition config)
      ++ (expression_issues node_id (walk_config_values (obj config) []) ++ rest.issues);
  triggers = if definition.is_trigger then node_id ∷ rest.triggers else rest.triggers;
  credential_ids = credentials_of config definition.fields ++ rest.credential_ids;
}

abbrev prepend : List Issue → NodeReport → NodeReport
prepend issues report = record report { issues = issues ++ report.issues }

-- `status == "DISABLED" or certification == "BLOCKED"`
abbrev pub is_switched_off : Definition → Bool
is_switched_off definition =
    str_eq definition.status "DISABLED" || str_eq definition.certification "BLOCKED"

-- The body of the loop, `next` being the rest of the loop from the names seen.
unfoldable pub check_node :
    Option Definition → List String → String → Fields → (List String → NodeReport) → NodeReport
unfolding name_issues check_config node_name_of config_of
check_node none names node_id node next =
    prepend (issue node_unsupported (some node_id) ∷ []) (next names)
check_node (some definition) names node_id node next =
    if is_switched_off definition
    then prepend (issue node_unsupported (some node_id) ∷ []) (next names)
    else (let name = node_name_of node in
        let found = name_issues names node_id name in
        prepend
          (if str_eq definition.status "DEPRECATED"
            then warn node_deprecated (some node_id) ∷ []
            else [])
          (prepend found (
            check_config definition node_id (config_of node)
              (next (if is_nil found then name ∷ names else names)))))

-- `for node_id, node in by_id.items(): …`
unfoldable pub check_nodes : Definitions → List String → Dict Fields → NodeReport
unfolding check_node node_key_of lookup
check_nodes definitions names [] = empty_report
check_nodes definitions names ((node_id, node) ∷ rest) =
    check_node (lookup (node_key_of node) definitions) names node_id node
      (λ seen. check_nodes definitions seen rest)
