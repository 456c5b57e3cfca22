-- ===== src/Graph/Issue.antt =====
-- backend/app/services/graph.py: what validation reports. The texts of the messages are left out: an
-- issue is its code, its place and its severity.
use appbi_integration.Base.{ℕ, String, Bool, true, false, List, [], ◌∷◌, Option}
use appbi_integration.Base.Lists.{select}
use appbi_integration.Graph.Dict.{Dict}
use appbi_integration.Graph.Expression.{FieldPath}
use appbi_integration.Graph.Schema.{Definition}

abbrev pub max_nodes : ℕ
max_nodes = 200

abbrev pub max_name_length : ℕ
max_name_length = 200

pub data Code : Type 0 where
  graph_malformed graph_too_large node_id_invalid node_id_duplicate node_unsupported : Code
  node_deprecated node_name_required node_name_too_long node_name_duplicate : Code
  node_configuration_invalid expression_invalid trigger_required trigger_ambiguous : Code
  connection_dangling connection_self connection_duplicate connection_port_invalid : Code
  graph_has_cycle node_orphan trigger_not_connected : Code

pub data Severity : Type 0 where
  error warning : Severity

pub record Issue : Type 0 where
  pub code : Code
  pub node_id : Option String
  pub at : FieldPath
  pub severity : Severity

abbrev pub issue : Code → Option String → Issue
issue code node_id = record { code = code; node_id = node_id; at = []; severity = error }

abbrev pub warn : Code → Option String → Issue
warn code node_id = record { code = code; node_id = node_id; at = []; severity = warning }

abbrev pub Definitions : Type 0
Definitions = Dict Definition

-- A set of credential ids is a list, read by membership.
pub record ValidationResult : Type 0 where
  pub issues : List Issue
  pub credential_ids : List String
  pub trigger_node_id : Option String
  pub trigger_node_key : Option String

abbrev pub is_error : Issue → Bool
is_error i = elim i.severity [ error ↦ true | warning ↦ false ]

-- `result.errors` and `result.ok`
unfoldable pub errors : ValidationResult → List Issue
errors result = select is_error result.issues

abbrev pub is_nil : List Issue → Bool
is_nil [] = true
is_nil (x ∷ xs) = false

unfoldable pub is_ok : ValidationResult → Bool
unfolding errors
is_ok result = is_nil (errors result)
