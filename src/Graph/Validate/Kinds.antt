-- ===== src/Graph/Validate/Kinds.antt =====
-- backend/app/services/graph.py: the kinds of the nodes of a validated graph.
use appbi_integration.Base.{
  String, ◌≡◌, refl, subst, inl, inr, true, false, List, [], ◌∷◌, ◌++◌, Option, none, some, str_eq,
  if◌then◌else◌, Bool-cases,
}
use appbi_integration.Json.{obj, Fields}
use appbi_integration.Graph.Dict.{Dict, lookup}
use appbi_integration.Graph.Schema.{Definition, required_fields}
use appbi_integration.Graph.Expression.{walk_config_values}
use appbi_integration.Graph.Issue.{
  is_nil, issue, Definitions, warn, node_unsupported, node_deprecated, node_configuration_invalid,
}
use appbi_integration.Graph.Nodes.{
  check_nodes, check_node, node_key_of, is_switched_off, NodeReport, check_config, required_issues,
  expression_issues, name_issues, node_name_of, config_of,
}
use appbi_integration.Graph.Validate.Shape.{NoErrors, NoErrors-append, some_error}

-- The kinds of node that a graph may use: registered, not disabled and not blocked.
abbrev pub IsSupported : Definitions → Fields → Type 0
IsSupported definitions node =
    (d : Definition) × (lookup (node_key_of node) definitions ≡ some d)
    × (is_switched_off d ≡ false)

abbrev pub AllSupported : Definitions → Dict Fields → Type 0
AllSupported definitions [] = Unit {0}
AllSupported definitions ((node_id, node) ∷ rest) =
    IsSupported definitions node × AllSupported definitions rest

check_config-errors :
    (d : Definition) (node_id : String) (c : Option Fields) (rest : NodeReport)
    → NoErrors (check_config d node_id c rest).issues
    → NoErrors rest.issues
unfolding check_config
check_config-errors d node_id none rest h =
    (NoErrors-append (issue node_configuration_invalid (some node_id) ∷ []) rest.issues h).1
check_config-errors d node_id (some config) rest h =
    (NoErrors-append (expression_issues node_id (walk_config_values (obj config) [])) rest.issues
      (NoErrors-append (required_issues node_id config (required_fields d config)) _ h).1).1

module _ (d : Definition) (names : List String) (node_id : String) (node : Fields)
    (next : List String → NodeReport) where
  names_after : List String
  names_after =
      if is_nil (name_issues names node_id (node_name_of node))
      then node_name_of node ∷ names
      else names

  check_node-on :
      is_switched_off d ≡ false
      → (check_node (some d) names node_id node next).issues
        ≡ (if str_eq d.status "DEPRECATED" then warn node_deprecated (some node_id) ∷ [] else [])
          ++ (name_issues names node_id (node_name_of node)
              ++ (check_config d node_id (config_of node) (next names_after)).issues)
  unfolding check_node names_after
  check_node-on h = rw h refl

  check_node-off :
      is_switched_off d ≡ true
      → (check_node (some d) names node_id node next).issues
        ≡ issue node_unsupported (some node_id) ∷ (next names).issues
  unfolding check_node
  check_node-off h = rw h refl

  check_node-supported :
      NoErrors (check_node (some d) names node_id node next).issues
      → (is_switched_off d ≡ false) × NoErrors (next names_after).issues
  check_node-supported h = elim (Bool-cases (is_switched_off d)) [
    | inl off ↦ absurd (
        some_error (issue node_unsupported (some node_id)) (next names).issues refl
          (subst NoErrors (check_node-off off) h))
    | inr on ↦ (
      on,
      check_config-errors d node_id (config_of node) (next names_after)
          (NoErrors-append (name_issues names node_id (node_name_of node)) _
            (NoErrors-append
              (if str_eq d.status "DEPRECATED"
                then warn node_deprecated (some node_id) ∷ []
                else [])
              _ (subst NoErrors (check_node-on on) h)).1).1,
    )
  ]

unknown_kind :
    (names : List String) (node_id : String) (node : Fields) (next : List String → NodeReport)
    → ¬ NoErrors (check_node none names node_id node next).issues
unfolding check_node
unknown_kind names node_id node next h =
    some_error (issue node_unsupported (some node_id)) (next names).issues refl h

-- Where no error is reported, every node is of a supported kind.
pub check_nodes-supported :
    (definitions : Definitions) (names : List String) (by_id : Dict Fields)
    → NoErrors (check_nodes definitions names by_id).issues
    → AllSupported definitions by_id
check_nodes-supported definitions names [] h = tt
check_nodes-supported definitions names ((node_id, node) ∷ rest) h =
    go (lookup (node_key_of node) definitions) refl (unfold check_nodes in h)
      (λ seen. check_nodes-supported definitions seen rest)
  where
    next : List String → NodeReport
    next = λ seen. check_nodes definitions seen rest

    go :
        (o : Option Definition)
        → lookup (node_key_of node) definitions ≡ o
        → NoErrors (check_node o names node_id node next).issues
        → ((seen : List String) → NoErrors (next seen).issues → AllSupported definitions rest)
        → AllSupported definitions ((node_id, node) ∷ rest)
    go none p k later = absurd (unknown_kind names node_id node next k)
    go (some d) p k later =
        let (on, good) = check_node-supported d names node_id node next k in
        ((d, p, on), later (names_after d names node_id node next) good)
