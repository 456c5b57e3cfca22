-- ===== src/Workflows/Flow.antt =====
-- backend/app/models/workflow.py: a workflow with its draft and its triggers, its versions, and the
-- credentials that its graph may name, as backend/app/services/workflows.py reads and writes them. The
-- columns that no decision reads are left out: who wrote a row and when, the description, the note of a
-- version and what compiled it. Times are milliseconds.
pub mod Sync
pub mod Edit
pub mod Publish
pub mod Requests
pub mod Synced
pub mod Served
pub mod Always
pub mod Revisions
pub mod Certified
use appbi_integration.Base.{
  ℕ, suc, String, Bool, true, false, ◌&&◌, Option, none, some, List, [], ◌∷◌, map, ◌==◌,
  if◌then◌else◌,
}
use appbi_integration.Base.Lists.{find_first}
use appbi_integration.Json.{Json, Fields}
use appbi_integration.Graph.Issue.{Definitions, Issue}
use appbi_integration.Context.{RequestContext}
use appbi_integration.Errors.{Result, ok, err, workflow_not_found, draft_not_found}
use appbi_integration.Executions.{TriggerType}
use appbi_integration.Schedules.{Calendar, Schedule}
use appbi_integration.Schedules.Parse.{Number}

-- `WorkflowStatus`
pub data FlowStatus : Type 0 where
  active inactive deleted : FlowStatus

-- `OverlapPolicy`
pub data Overlap : Type 0 where
  skip_if_running allow : Overlap

pub record WebhookConfig : Type 0 where
  pub method : String
  pub auth_mode : String
  pub allowed_content_type : Json
  pub max_body_bytes : Number

-- `config_json`, as the services store it.
pub data BindingConfig : Type 0 where
  blank : BindingConfig
  scheduled : Schedule → BindingConfig
  hooked : WebhookConfig → BindingConfig

-- `TriggerBinding`; the reference of a secret is a number
pub record Binding : Type 0 where
  pub trigger_type : TriggerType
  pub enabled : Bool
  pub config : BindingConfig
  pub overlap_policy : Overlap
  pub next_run_at : Option ℕ
  pub public_key : Option String
  pub webhook_secret_ref : Option ℕ
  pub workflow_version_id : Option ℕ

-- One finding of a validation: of the graph, of its credentials, or of the engine, which says whether
-- it is an error.
pub data Found : Type 0 where
  in_graph : Issue → Found
  credential_required credential_not_valid : Found
  from_engine : String → Bool → Found

pub data EngineState : Type 0 where
  skipped unavailable compiled invalid : EngineState

-- What a validation answers and stores.
pub record Report : Type 0 where
  pub passed : Bool
  pub found : List Found
  pub engine : EngineState

-- `WorkflowDraft`
pub record Draft : Type 0 where
  pub graph : Fields
  pub graph_hash : String
  pub revision : ℕ
  pub validation : Option Report

-- `Workflow`
pub record Flow : Type 0 where
  pub id : ℕ
  pub workspace_id : ℕ
  pub name : String
  pub status : FlowStatus
  pub trigger_type_cache : TriggerType
  pub published_version_id : Option ℕ
  pub active_version_id : Option ℕ
  pub deleted_at : Option ℕ
  pub draft : Option Draft
  pub triggers : List Binding

-- `WorkflowVersion`
pub record FlowVersion : Type 0 where
  pub id : ℕ
  pub workflow_id : ℕ
  pub version_number : ℕ
  pub graph : Fields
  pub graph_hash : String

-- `CredentialStatus`
pub data CredentialStatus : Type 0 where
  usable broken revoked removed : CredentialStatus

-- `Credential`
pub record CredentialRow : Type 0 where
  pub id : ℕ
  pub workspace_id : ℕ
  pub status : CredentialStatus
  pub is_deleted : Bool

pub record Flows : Type 0 where
  pub flows : List Flow
  pub versions : List FlowVersion
  pub credentials : List CredentialRow
  pub next_id : ℕ

-- What the engine answers to a dry run: that it cannot be reached, with a code; or whether the graph
-- compiles, with its diagnostics.
pub data EngineAnswer : Type 0 where
  out_of_reach : String → EngineAnswer
  answered : Bool → List (String × Bool) → EngineAnswer

-- What the service is given: the registry with the trigger type of an entry, the hash of a graph
-- (hashlib over json.dumps), the calendar, the time zone of the workspace, the setting for the size of
-- a webhook body, the random tokens by their position, the reading of a credential id, the engine's dry
-- run, and whether a run of a workflow is active.
pub record Tools : Type 0 where
  pub definitions : Definitions
  pub declared_type : String → Option String
  pub graph_hash : Fields → String
  pub calendar : Calendar
  pub timezone : String
  pub webhook_max_body_bytes : ℕ
  pub token_hex : ℕ → String
  pub parse_uuid : String → Option ℕ
  pub dry_run : Fields → List CredentialRow → EngineAnswer
  pub has_active_run : ℕ → ℕ → Bool

abbrev pub is_undeleted : Option ℕ → Bool
is_undeleted none = true
is_undeleted (some t) = false

abbrev pub is_flow : ℕ → ℕ → Flow → Bool
is_flow workspace id f = f.id == id && f.workspace_id == workspace && is_undeleted f.deleted_at

abbrev pub found_flow : Option Flow → Result Flow
found_flow none = err workflow_not_found
found_flow (some f) = ok f

-- `get_workflow(session, ctx, id)`
unfoldable pub get_flow : Flows → RequestContext → ℕ → Result Flow
get_flow s ctx id = found_flow (find_first (is_flow ctx.workspace_id id) s.flows)

-- `draft = workflow.draft`, refused if there is none
abbrev pub draft_of : Option Draft → Result Draft
draft_of none = err draft_not_found
draft_of (some d) = ok d

abbrev pub write_flow_row : Flow → Flow → Flow
write_flow_row f row = if row.id == f.id then f else row

-- `UPDATE workflows … WHERE id = f.id`, with the draft and the triggers of the row. Only the columns that
-- changed since the row was loaded are sent; the row is loaded from the tables that are written, so the
-- others are in it already.
unfoldable pub write_flow : Flow → Flows → Flows
write_flow f s = record s { flows = map (write_flow_row f) s.flows }

-- `workflow.triggers[0] if workflow.triggers else None`
abbrev pub first_trigger : List Binding → Option Binding
first_trigger [] = none
first_trigger (b ∷ rest) = some b

-- The list after the first trigger is written, or the first one added.
abbrev pub with_first : Binding → List Binding → List Binding
with_first b [] = b ∷ []
with_first b (old ∷ rest) = b ∷ rest

abbrev pub new_binding : TriggerType → BindingConfig → Binding
new_binding trigger_type config = record {
  trigger_type = trigger_type;
  enabled = false;
  config = config;
  overlap_policy = skip_if_running;
  next_run_at = none;
  public_key = none;
  webhook_secret_ref = none;
  workflow_version_id = none;
}
