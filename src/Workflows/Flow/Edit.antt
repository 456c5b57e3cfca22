-- ===== src/Workflows/Flow/Edit.antt =====
-- backend/app/services/workflows.py: `create`, `rename`, `get_draft`, `save_draft`, `duplicate` and
-- `delete`.
use Prim.Native.String.{◌++◌ as join}
use Prim.Native.String as Native
use appbi_integration.Base.{
  ℕ, zero, suc, String, Bool, true, false, Option, none, some, [], ◌∷◌, ◌++◌, map, ltb, ◌==◌,
  str_eq, if◌then◌else◌,
}
use appbi_integration.Json.{Fields}
use appbi_integration.Graph.Text.{strip, char_count}
use appbi_integration.Graph.Dict.{lookup}
use appbi_integration.Graph.Schema.{Definition, empty_graph}
use appbi_integration.Graph.Issue.{ValidationResult, max_name_length, is_ok}
use appbi_integration.Graph.Validate.{validate_graph}
use appbi_integration.Permissions.{Module, Action}
use appbi_integration.Context.{RequestContext, require_context}
use appbi_integration.Errors.{
  Result, ok, err, ◌>>=◌, ◌>>◌, demand, validation_error, node_unsupported, draft_conflict,
  conflict, workflow_already_running,
}
use appbi_integration.Executions.{TriggerType, manual}
use appbi_integration.Workflows.Flow.{
  FlowStatus, active, inactive, deleted, BindingConfig, blank, Binding, in_graph, skipped, Report,
  Draft, Flow, Flows, Tools, get_flow, draft_of, write_flow, first_trigger, new_binding,
}
use appbi_integration.Workflows.Flow.Sync.{sync_trigger}

-- `s[:n]`
unfoldable pub take_chars : ℕ → String → String
take_chars zero s = Native.[]
take_chars (suc n) Native.[] = Native.[]
take_chars (suc n) (Native.◌∷◌ c s) = Native.◌∷◌ c (take_chars n s)

-- The entry of the trigger that a new workflow starts with.
abbrev pub trigger_definition : Option Definition → Result Definition
trigger_definition none = err node_unsupported
trigger_definition (some definition) =
    if definition.is_trigger then ok definition else err node_unsupported

abbrev pub check_name : String → Result String
check_name name =
    if str_eq name ""
    then err (validation_error "NAME")
    else if ltb max_name_length (char_count name)
    then err (validation_error "NAME")
    else ok name

-- The row of a new workflow with its draft and its binding.
unfoldable pub new_flow : Tools → ℕ → ℕ → String → TriggerType → BindingConfig → Fields → Flow
new_flow tools id workspace name cached config graph = record {
  id = id;
  workspace_id = workspace;
  name = name;
  status = inactive;
  trigger_type_cache = cached;
  published_version_id = none;
  active_version_id = none;
  deleted_at = none;
  draft = some (record {
    graph = graph;
    graph_hash = tools.graph_hash graph;
    revision = 1;
    validation = none;
  });
  triggers = new_binding cached config ∷ [];
}

-- The row is added; two ids are used, one for it and one for what the sync writes.
abbrev pub add_flow : Flow → Flows → Flows
add_flow f s = record s { flows = s.flows ++ f ∷ []; next_id = suc (suc s.next_id) }

-- `create`
unfoldable pub create_flow :
    Tools → RequestContext → String → String → ℕ → Flows → Result (ℕ × Flows)
unfolding strip char_count lookup empty_graph new_flow sync_trigger
create_flow tools ctx name trigger_node_key now s = do
  demand (require_context ctx Module.workflows Action.create)
  named ← check_name (strip name)
  definition ← trigger_definition (lookup trigger_node_key tools.definitions)
  let graph = empty_graph trigger_node_key (some definition)
  f ←
      sync_trigger tools now (suc s.next_id) graph
        (new_flow tools s.next_id ctx.workspace_id named manual blank graph)
  ok (s.next_id, add_flow f s)

abbrev pub renamed : Option String → Flow → Result Flow
renamed none f = ok f
renamed (some name) f =
    if str_eq (strip name) ""
    then err (validation_error "NAME")
    else ok (record f { name = take_chars max_name_length (strip name) })

-- `rename`
unfoldable pub rename : RequestContext → ℕ → Option String → Flows → Result Flows
unfolding strip take_chars get_flow write_flow
rename ctx id name s = do
  demand (require_context ctx Module.workflows Action.edit)
  f ← get_flow s ctx id
  written ← renamed name f
  ok (write_flow written s)

-- `get_draft`
unfoldable pub get_draft : RequestContext → ℕ → Flows → Result Draft
unfolding get_flow
get_draft ctx id s = do
  demand (require_context ctx Module.workflows Action.view)
  f ← get_flow s ctx id
  draft_of f.draft

-- `if int(expected_revision) != int(draft.revision)`
abbrev pub same_revision : ℕ → ℕ → Result (Unit {0})
same_revision expected revision = if expected == revision then ok tt else err draft_conflict

-- `result.as_dict()`
unfoldable pub graph_report : ValidationResult → Report
unfolding is_ok
graph_report result = record {
  passed = is_ok result;
  found = map (λ i. in_graph i) result.issues;
  engine = skipped;
}

unfoldable pub saved_draft : Tools → Fields → Draft → Draft
unfolding graph_report validate_graph
saved_draft tools graph d = record {
  graph = graph;
  graph_hash = tools.graph_hash graph;
  revision = suc d.revision;
  validation = some (graph_report (validate_graph graph tools.definitions false));
}

-- `save_draft`, of one request that no other one interleaves with
unfoldable pub save_draft : Tools → RequestContext → ℕ → Fields → ℕ → ℕ → Flows → Result (ℕ × Flows)
unfolding get_flow saved_draft sync_trigger write_flow
save_draft tools ctx id graph expected now s = do
  demand (require_context ctx Module.workflows Action.edit)
  f ← get_flow s ctx id
  d ← draft_of f.draft
  same_revision expected d.revision
  written ←
      sync_trigger tools now s.next_id graph (record f { draft = some (saved_draft tools graph d) })
  ok (suc d.revision, write_flow written (record s { next_id = suc s.next_id }))

abbrev pub config_of_first : Option Binding → BindingConfig
config_of_first none = blank
config_of_first (some b) = b.config

-- `duplicate`
unfoldable pub duplicate : Tools → RequestContext → ℕ → ℕ → Flows → Result (ℕ × Flows)
unfolding get_flow take_chars new_flow sync_trigger
duplicate tools ctx id now s = do
  demand (require_context ctx Module.workflows Action.create)
  source ← get_flow s ctx id
  d ← draft_of source.draft
  let copy =
      new_flow tools s.next_id ctx.workspace_id
        (take_chars max_name_length (join source.name " (copy)")) source.trigger_type_cache
        (config_of_first (first_trigger source.triggers)) d.graph
  f ← sync_trigger tools now (suc s.next_id) d.graph copy
  ok (s.next_id, add_flow f s)

abbrev pub is_active_flow : FlowStatus → Bool
is_active_flow active = true
is_active_flow _ = false

abbrev pub released : Binding → Binding
released b = record b { enabled = false; next_run_at = none; public_key = none }

abbrev pub refuse_if : Bool → Result (Unit {0}) → Result (Unit {0})
refuse_if true refusal = refusal
refuse_if false refusal = ok tt

-- `delete`
unfoldable pub delete : Tools → RequestContext → ℕ → ℕ → Flows → Result Flows
unfolding get_flow write_flow
delete tools ctx id now s = do
  demand (require_context ctx Module.workflows Action.delete)
  f ← get_flow s ctx id
  refuse_if (is_active_flow f.status) (err conflict)
  refuse_if (tools.has_active_run f.workspace_id f.id) (err workflow_already_running)
  ok (
      write_flow
        (record f { deleted_at = some now; status = deleted; triggers = map released f.triggers })
        s)
