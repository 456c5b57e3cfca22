-- ===== src/Tests/Data.antt =====
-- A workspace with one workflow of two steps: a manual trigger and a request.
use appbi_integration.Base.{
  String, true, false, none, some, List, [], ◌∷◌, Option, str_eq, if◌then◌else◌,
}
use appbi_integration.Json.{Json, str, arr, obj, nil, cons, Fields, end, field}
use appbi_integration.Permissions.{Role}
use appbi_integration.Context.{RequestContext}
use appbi_integration.Graph.Schema.{Definition}
use appbi_integration.Graph.Issue.{Definitions}
use appbi_integration.Executions.{Status, VersionKind, TriggerType, Execution, Workflow, Store, Env}
use appbi_integration.Executions.Create.{Artefact, Request, new_execution, insert}
use appbi_integration.Executions.Engine.{EngineStatus}

abbrev pub trigger_definition : Definition
trigger_definition = record {
  display_name = "Manual";
  status = "ACTIVE";
  certification = "CERTIFIED";
  fields = [];
  is_trigger = true;
  ports_from_rules = false;
  output_port_keys = "main" ∷ [];
  input_port_keys = [];
  product_schema_version = 1;
}

abbrev pub request_definition : Definition
request_definition = record {
  display_name = "HTTP";
  status = "ACTIVE";
  certification = "CERTIFIED";
  fields = [];
  is_trigger = false;
  ports_from_rules = false;
  output_port_keys = "main" ∷ [];
  input_port_keys = "main" ∷ [];
  product_schema_version = 1;
}

abbrev pub registry : Definitions
registry = ("manual_trigger", trigger_definition) ∷ ("http", request_definition) ∷ []

abbrev pub step : String → String → String → Json
step id key name =
    obj (field "id" (str id) (field "node_key" (str key) (field "name" (str name) end)))

abbrev pub two_steps : List Json
two_steps = step "start_1" "manual_trigger" "Start" ∷ step "call_1" "http" "Call" ∷ []

abbrev pub link : Json
link = obj (
    field "from" (obj (field "node_id" (str "start_1") end))
      (field "to" (obj (field "node_id" (str "call_1") end)) end))

abbrev pub graph : Fields
graph =
    field "nodes"
      (arr
        (cons (step "start_1" "manual_trigger" "Start") (cons (step "call_1" "http" "Call") nil)))
      (field "connections" (arr (cons link nil)) end)

abbrev pub payload : Json
payload = str "order 12"

-- A vault that knows one payload.
abbrev pub open_token : String → Option Json
open_token token = if str_eq token "sealed" then some payload else none

abbrev pub env : Env
env = record {
  definitions = registry;
  max_per_workflow = 1;
  max_per_workspace = 10;
  stale_after_ms = 1000;
  seal_token = λ p. "sealed";
  open_token = open_token;
  redact = λ p. str "********";
  bounded_preview = λ p. p;
  parse_time = λ t. none;
}

abbrev pub ctx : RequestContext
ctx = record {
  user_id = some 1;
  workspace_id = 7;
  role = Role.owner;
  is_platform_admin = false;
  permission_overrides = [];
}

abbrev pub workflow : Workflow
workflow = record {
  id = 1;
  workspace_id = 7;
  is_deleted = false;
  draft = some (graph, 3);
  active_version_id = none;
  published_version_id = none;
}

abbrev pub artefact : Artefact
artefact = record {
  graph = graph;
  version_number = none;
  draft_revision = some 3;
  resolved_version_id = none;
}

abbrev pub request : Request
request = record {
  workflow_id = 1;
  kind = VersionKind.draft;
  trigger_type = TriggerType.manual;
  start_payload = payload;
  idempotency_key = some "key-1";
  retry_of = none;
  version_id = none;
}

-- The store before the first run, the run, and the store with it.
abbrev pub empty_store : Store
empty_store = record {
  executions = [];
  workflows = workflow ∷ [];
  versions = [];
  quotas = [];
  next_id = 1;
  node_rows = [];
  log_rows = [];
  finished = [];
  audit = [];
}

abbrev pub queued_run : Execution
queued_run = new_execution env ctx request workflow artefact 1 10

abbrev pub one_run : Store
one_run = insert empty_store queued_run

abbrev pub report : Status → EngineStatus
report s = record {
  status = s;
  started_at = none;
  ended_at = none;
  duration_ms = none;
  error_code = none;
  error_category = none;
  error_message = none;
  failed_node_name = none;
  node_results = [];
  logs = [];
  output_summary = end;
  technical = end;
}
