-- ===== src/Executions/Create.antt =====
-- backend/app/services/executions.py: `create`, with the concurrency check, the idempotency key and
-- the frozen artefact. Other requests may commit between the first look-up and the advisory lock:
-- `before` is the store that the look-up reads, `s` the one behind the lock. No other `create` of the
-- workspace runs from the lock to the commit.
pub mod Payload
pub mod Cases
pub mod Quota
pub mod Replay
use appbi_integration.Base.{
  ℕ, zero, suc, ◌+◌, String, Bool, true, false, not, ◌&&◌, ◌||◌, Option, none, some, List, [], ◌∷◌,
  ◌++◌, ltb, leb, ◌==◌, str_eq, if◌then◌else◌,
}
use appbi_integration.Base.Lists.{count_if, find_first, length}
use appbi_integration.Json.{Json, null, arr, obj, Fields, end, elements}
use appbi_integration.Graph.Issue.{ValidationResult, is_ok}
use appbi_integration.Graph.Validate.{validate_graph}
use appbi_integration.Permissions.{Module, Action}
use appbi_integration.Context.{RequestContext, require_context}
use appbi_integration.Executions.{
  Status, queued, VersionKind, draft, published, TriggerType, InputMetadata, no_input, list_input,
  object_input, Execution, Workflow, Version, Store, Env, AuditRow, AppError, workflow_not_found,
  draft_not_found, workflow_not_published, workflow_already_running, quota_exceeded,
  workflow_invalid, Result, ok, err, ◌>>=◌, ◌>>◌, demand, active_in_workspace, active_in_workflow,
}

-- `workflows.get_workflow`
unfoldable pub get_workflow : Store → RequestContext → ℕ → Result Workflow
get_workflow s ctx workflow_id =
    elim (find_first
      (λ w. w.id == workflow_id && w.workspace_id == ctx.workspace_id && not w.is_deleted)
      s.workflows) [ none ↦ err workflow_not_found | some w ↦ ok w ]

abbrev pub key_is : String → Option String → Bool
key_is key none = false
key_is key (some k) = str_eq k key

-- The columns of the unique index.
abbrev pub has_key : ℕ → ℕ → String → Execution → Bool
has_key workspace workflow key e =
    e.workspace_id == workspace && e.workflow_id == workflow && key_is key e.idempotency_key

-- `_by_idempotency_key`
unfoldable pub by_idempotency_key : Store → ℕ → ℕ → String → Option Execution
by_idempotency_key s workspace workflow key =
    find_first (has_key workspace workflow key) s.executions

abbrev pub quota_of : ℕ → List (ℕ × Option ℕ) → Option ℕ
quota_of workspace [] = none
quota_of workspace ((w, quota) ∷ rest) = if w == workspace then quota else quota_of workspace rest

abbrev pub positive_or : ℕ → Option ℕ → ℕ
positive_or fallback none = fallback
positive_or fallback (some zero) = fallback
positive_or fallback (some (suc n)) = suc n

-- `workspace_ceiling`
unfoldable pub workspace_ceiling : Env → Store → ℕ → ℕ
workspace_ceiling env s workspace = positive_or env.max_per_workspace (quota_of workspace s.quotas)

-- `_check_concurrency`
unfoldable pub check_concurrency : Env → Store → ℕ → ℕ → Result (Unit {0})
unfolding workspace_ceiling
check_concurrency env s workspace workflow =
    let per_workflow = count_if (active_in_workflow workspace workflow) s.executions in
    let per_workspace = count_if (active_in_workspace workspace) s.executions in
    let ceiling = workspace_ceiling env s workspace in
    if leb env.max_per_workflow per_workflow
    then err workflow_already_running
    else if leb ceiling per_workspace
    then err (quota_exceeded per_workspace ceiling)
    else ok tt

-- `_input_metadata`
unfoldable pub input_metadata_of : Json → InputMetadata
input_metadata_of null = no_input
input_metadata_of (arr items) = list_input (length (elements items))
input_metadata_of _ = object_input

-- `_sanitize_payload`
unfoldable pub sanitize_payload : Env → Json → Json
sanitize_payload env null = null
sanitize_payload env payload = env.redact payload

-- `payload_vault.seal`
unfoldable pub seal : Env → Json → Option String
seal env null = none
seal env payload = some (env.seal_token payload)

-- What a run is frozen to: the graph, and where it came from.
pub record Artefact : Type 0 where
  pub graph : Fields
  pub version_number : Option ℕ
  pub draft_revision : Option ℕ
  pub resolved_version_id : Option ℕ

-- `session.get(WorkflowVersion, id)`
abbrev pub version_at : Option ℕ → List Version → Option Version
version_at none versions = none
version_at (some id) versions = find_first (λ v. v.id == id) versions

abbrev pub first_id : Option ℕ → Option ℕ → Option ℕ → Option ℕ
first_id (some id) active published_id = some id
first_id none (some id) published_id = some id
first_id none none published_id = published_id

abbrev pub of_version : ℕ → Option Version → Result Artefact
of_version workflow_id none = err workflow_not_published
of_version workflow_id (some v) =
    if v.workflow_id == workflow_id
    then ok (record {
      graph = v.graph;
      version_number = some v.version_number;
      draft_revision = none;
      resolved_version_id = some v.id;
    })
    else err workflow_not_published

abbrev pub of_draft : Option (Fields × ℕ) → Result Artefact
of_draft none = err draft_not_found
of_draft (some (graph, revision)) = ok (record {
  graph = graph;
  version_number = none;
  draft_revision = some revision;
  resolved_version_id = none;
})

-- The `if kind is VersionKind.DRAFT` of `create`.
unfoldable pub resolve_artefact : Store → Workflow → VersionKind → Option ℕ → Result Artefact
resolve_artefact s w draft version_id = of_draft w.draft
resolve_artefact s w published version_id =
    of_version w.id
      (version_at (first_id version_id w.active_version_id w.published_version_id) s.versions)

-- The arguments of `create`. The empty key, which the code stores but does not look up, is left out.
pub record Request : Type 0 where
  pub workflow_id : ℕ
  pub kind : VersionKind
  pub trigger_type : TriggerType
  pub start_payload : Json
  pub idempotency_key : Option String
  pub retry_of : Option ℕ
  pub version_id : Option ℕ

-- The row that `create` builds.
unfoldable pub new_execution :
    Env → RequestContext → Request → Workflow → Artefact → ℕ → ℕ → Execution
unfolding input_metadata_of sanitize_payload seal
new_execution env ctx request workflow artefact id now = record {
  id = id;
  workspace_id = ctx.workspace_id;
  workflow_id = workflow.id;
  version_kind = request.kind;
  workflow_version_id = artefact.resolved_version_id;
  version_number = artefact.version_number;
  draft_revision = artefact.draft_revision;
  graph_snapshot = artefact.graph;
  trigger_type = request.trigger_type;
  retry_of = request.retry_of;
  idempotency_key = request.idempotency_key;
  status = queued;
  error_code = none;
  error_category = none;
  error_summary = none;
  failed_node_name = none;
  queued_at = now;
  started_at = none;
  ended_at = none;
  duration_ms = none;
  last_seen_at = none;
  input_metadata = input_metadata_of request.start_payload;
  start_payload = sanitize_payload env request.start_payload;
  start_payload_sealed = seal env request.start_payload;
  output_summary = end;
  technical_metadata = end;
  engine_ref = none;
}

abbrev pub lookup_key : Store → RequestContext → ℕ → Option String → Option Execution
lookup_key s ctx workflow_id none = none
lookup_key s ctx workflow_id (some key) = by_idempotency_key s ctx.workspace_id workflow_id key

abbrev pub audit_action : Option ℕ → String
audit_action none = "execution.queued"
audit_action (some original) = "execution.retry_created"

-- The INSERT and the audit row.
unfoldable pub insert : Store → Execution → Store
insert s e = record s {
  executions = s.executions ++ e ∷ [];
  next_id = suc s.next_id;
  audit = s.audit ++ record { action = audit_action e.retry_of; resource_id = e.id } ∷ [];
}

abbrev pub insert_unless : Option Execution → Execution → Store → Result (Execution × Store)
insert_unless (some winner) e s = ok (winner, s)
insert_unless none e s = ok (e, insert s e)

-- From the artefact on: validate, build the row and insert it. The unique index refuses a second row
-- with the key, and the row that holds it is returned.
unfoldable pub create_row :
    Env → RequestContext → Request → Workflow → ℕ → Store → Result (Execution × Store)
unfolding resolve_artefact insert by_idempotency_key
create_row env ctx request workflow now s = do
  artefact ← resolve_artefact s workflow request.kind request.version_id
  let validation = validate_graph artefact.graph env.definitions true
  if is_ok validation
      then insert_unless (lookup_key s ctx workflow.id request.idempotency_key)
          (new_execution env ctx request workflow artefact s.next_id now) s
      else err (workflow_invalid validation.issues)

-- A refusal for concurrency is answered by the key's row, if there is one.
abbrev pub or_replay : Option Execution → AppError → Store → Result (Execution × Store)
or_replay none refusal s = err refusal
or_replay (some winner) refusal s = ok (winner, s)

abbrev pub after_check :
    Result (Unit {0})
    → Option Execution
    → Store
    → Result (Execution × Store)
    → Result (Execution × Store)
after_check (ok done) winner s rest = rest
after_check (err refusal) winner s rest = or_replay winner refusal s

-- Behind the lock.
unfoldable pub create_locked :
    Env → RequestContext → Request → Workflow → ℕ → Store → Result (Execution × Store)
unfolding check_concurrency by_idempotency_key
create_locked env ctx request workflow now s =
    after_check (check_concurrency env s ctx.workspace_id workflow.id)
      (lookup_key s ctx workflow.id request.idempotency_key) s
      (create_row env ctx request workflow now s)

abbrev pub unless_known :
    Option Execution → Store → Result (Execution × Store) → Result (Execution × Store)
unless_known none s rest = rest
unless_known (some existing) s rest = ok (existing, s)

-- `create(session, ctx, workflow_id, …)`
unfoldable pub create :
    Env → RequestContext → Request → ℕ → Store → Store → Result (Execution × Store)
unfolding get_workflow create_locked by_idempotency_key
create env ctx request now before s = do
  demand (require_context ctx Module.workflows Action.execute)
  workflow ← get_workflow before ctx request.workflow_id
  unless_known (lookup_key before ctx workflow.id request.idempotency_key) s
      (create_locked env ctx request workflow now s)
