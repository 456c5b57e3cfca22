-- ===== src/Executions.antt =====
-- backend/app/models/enums.py, models/execution.py and services/executions.py: the execution row,
-- the tables that the service reads and writes, and what it is given from outside. Ids are numbers,
-- and times are milliseconds. Left out are the columns that no decision reads: short_id, graph_hash,
-- triggered_by, trace_id and engine_instance_id.
pub mod Create
pub mod Engine
pub mod Ingest
pub mod Control
pub mod Moves
pub mod Lifecycle
pub mod Rows
pub mod Lookup
pub mod Cancel
pub mod Reconcile
pub mod Stopping
pub mod Slots
use appbi_integration.Base.{
  ℕ, zero, suc, ◌+◌, ◌*◌, String, Bool, true, false, ◌&&◌, Option, none, some, List, [], ◌∷◌, ◌++◌,
  map, ltb, ◌==◌, str_eq, if◌then◌else◌,
}
use appbi_integration.Base.Lists.{count_if, find_first}
use appbi_integration.Json.{Json, null, Fields, end}
use appbi_integration.Graph.Issue.{Definitions, Issue}
pub use appbi_integration.Errors.{
  AppError, denied, workflow_not_found, draft_not_found, workflow_not_published,
  workflow_already_running, quota_exceeded, workflow_invalid, execution_not_found,
  execution_not_terminal, engine_error, Result, ok, err, ◌>>=◌, ◌>>◌, demand,
}

-- `ExecutionStatus`
pub data Status : Type 0 where
  queued dispatching running succeeded failed cancel_requested : Status
  cancelled timed_out failed_to_start engine_interrupted : Status

-- `status.is_terminal`, `status in TERMINAL_EXECUTION_STATUSES`
abbrev pub is_terminal : Status → Bool
is_terminal succeeded = true
is_terminal failed = true
is_terminal cancelled = true
is_terminal timed_out = true
is_terminal failed_to_start = true
is_terminal engine_interrupted = true
is_terminal _ = false

-- `status.is_active`, `status in ACTIVE_EXECUTION_STATUSES`
abbrev pub is_active : Status → Bool
is_active queued = true
is_active dispatching = true
is_active running = true
is_active cancel_requested = true
is_active _ = false

pub data VersionKind : Type 0 where
  draft published : VersionKind

pub data TriggerType : Type 0 where
  manual webhook schedule : TriggerType

-- `_input_metadata`
pub data InputMetadata : Type 0 where
  no_input : InputMetadata
  list_input : ℕ → InputMetadata
  object_input : InputMetadata

pub record Execution : Type 0 where
  pub id : ℕ
  pub workspace_id : ℕ
  pub workflow_id : ℕ
  pub version_kind : VersionKind
  pub workflow_version_id : Option ℕ
  pub version_number : Option ℕ
  pub draft_revision : Option ℕ
  pub graph_snapshot : Fields
  pub trigger_type : TriggerType
  pub retry_of : Option ℕ
  pub idempotency_key : Option String
  pub status : Status
  pub error_code : Option String
  pub error_category : Option String
  pub error_summary : Option String
  pub failed_node_name : Option String
  pub queued_at : ℕ
  pub started_at : Option ℕ
  pub ended_at : Option ℕ
  pub duration_ms : Option ℕ
  pub last_seen_at : Option ℕ
  pub input_metadata : InputMetadata
  pub start_payload : Json
  pub start_payload_sealed : Option String
  pub output_summary : Fields
  pub technical_metadata : Fields
  pub engine_ref : Option String

-- `draft` is the mutable draft with its revision, if there is one.
pub record Workflow : Type 0 where
  pub id : ℕ
  pub workspace_id : ℕ
  pub is_deleted : Bool
  pub draft : Option (Fields × ℕ)
  pub active_version_id : Option ℕ
  pub published_version_id : Option ℕ

pub record Version : Type 0 where
  pub id : ℕ
  pub workflow_id : ℕ
  pub version_number : ℕ
  pub graph : Fields

-- A node result or a log line that the engine reported, as it is stored.
pub record NodeRow : Type 0 where
  pub execution_id : ℕ
  pub node_id : String
  pub node_key : String
  pub node_name : String
  pub status : String
  pub execution_index : ℕ
  pub input_preview : Json
  pub output_preview : Json
  pub error : Json

pub record LogRow : Type 0 where
  pub execution_id : ℕ
  pub sequence : ℕ
  pub at : ℕ
  pub level : String
  pub message : String

-- What `_on_terminal` does for one run that ended: the credentials that it marks invalid, and the
-- run that the alert rules are evaluated on.
pub record Finished : Type 0 where
  pub execution_id : ℕ
  pub status : Status
  pub invalid_credentials : List String

pub record AuditRow : Type 0 where
  pub action : String
  pub resource_id : ℕ

pub record Store : Type 0 where
  pub executions : List Execution
  pub workflows : List Workflow
  pub versions : List Version
  pub quotas : List (ℕ × Option ℕ)
  pub next_id : ℕ
  pub node_rows : List NodeRow
  pub log_rows : List LogRow
  pub finished : List Finished
  pub audit : List AuditRow

-- The registry, the settings, and the functions that stand for code of other modules: the vault
-- (Fernet over JSON), the redaction of a payload or a preview, and the reading of a time stamp.
pub record Env : Type 0 where
  pub definitions : Definitions
  pub max_per_workflow : ℕ
  pub max_per_workspace : ℕ
  pub stale_after_ms : ℕ
  pub seal_token : Json → String
  pub open_token : String → Option Json
  pub redact : Json → Json
  pub bounded_preview : Json → Json
  pub parse_time : String → Option ℕ

-- The rows that hold a slot: those of a workspace, and those of one of its workflows.
abbrev pub active_in_workspace : ℕ → Execution → Bool
active_in_workspace workspace e = e.workspace_id == workspace && is_active e.status

abbrev pub active_in_workflow : ℕ → ℕ → Execution → Bool
active_in_workflow workspace workflow e =
    e.workspace_id == workspace && e.workflow_id == workflow && is_active e.status

-- `UPDATE executions … WHERE id = e.id`
abbrev pub write_row : Execution → Execution → Execution
write_row e row = if row.id == e.id then e else row

unfoldable pub save : Execution → Store → Store
save e s = record s { executions = map (write_row e) s.executions }
