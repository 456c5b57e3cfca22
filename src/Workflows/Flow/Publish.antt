-- ===== src/Workflows/Flow/Publish.antt =====
-- backend/app/services/workflows.py: `validate` with `_credential_issues` and `_engine_validate`,
-- `publish`, the list of versions, `activate` and `deactivate`.
use appbi_integration.Base.{
  ℕ, suc, String, Bool, true, false, not, ◌&&◌, Option, none, some, List, [], ◌∷◌, ◌++◌, map, ltb,
  ◌==◌, str_eq, if◌then◌else◌,
}
use appbi_integration.Base.Lists.{find_first, select, any}
use appbi_integration.Json.{Fields}
use appbi_integration.Graph.Issue.{ValidationResult, is_error, is_ok}
use appbi_integration.Graph.Validate.{validate_graph}
use appbi_integration.Permissions.{Module, Action}
use appbi_integration.Context.{RequestContext, require_context}
use appbi_integration.Errors.{
  Result, ok, err, ◌>>=◌, ◌>>◌, demand, not_found, conflict, workflow_invalid,
  workflow_not_published, credential_invalid, engine_error,
}
use appbi_integration.Executions.{TriggerType, schedule}
use appbi_integration.Schedules.{Schedule, interval, next_run_at}
use appbi_integration.Workflows.Flow.{
  active, inactive, BindingConfig, scheduled, Binding, Found, in_graph, credential_required,
  credential_not_valid, from_engine, EngineState, skipped, unavailable, compiled, invalid, Report,
  Draft, Flow, FlowVersion, CredentialStatus, broken, revoked, CredentialRow, Flows, EngineAnswer,
  out_of_reach, answered, Tools, get_flow, draft_of, write_flow, first_trigger, with_first,
}
use appbi_integration.Workflows.Flow.Edit.{same_revision, refuse_if}

abbrev pub is_in : String → List String → Bool
is_in raw = any (λ other. str_eq other raw)

-- A set of texts, in the order of their last occurrences.
unfoldable pub distinct : List String → List String
distinct [] = []
distinct (raw ∷ rest) =
    let others = distinct rest in if is_in raw rest then others else raw ∷ others

-- The ids that are UUIDs.
unfoldable pub parsed_ids : Tools → List String → List ℕ
parsed_ids tools [] = []
parsed_ids tools (raw ∷ rest) = elim (tools.parse_uuid raw) [
  | none ↦ parsed_ids tools rest
  | some id ↦ id ∷ parsed_ids tools rest
]

unfoldable pub unparsed_issues : Tools → List String → List Found
unparsed_issues tools [] = []
unparsed_issues tools (raw ∷ rest) = elim (tools.parse_uuid raw) [
  | none ↦ credential_required ∷ unparsed_issues tools rest
  | some id ↦ unparsed_issues tools rest
]

-- The query on the credentials.
abbrev pub is_named : RequestContext → List ℕ → CredentialRow → Bool
is_named ctx ids c =
    any (λ id. id == c.id) ids && c.workspace_id == ctx.workspace_id && not c.is_deleted

abbrev pub is_unfit : CredentialStatus → Bool
is_unfit broken = true
is_unfit revoked = true
is_unfit _ = false

abbrev pub issue_of_row : Option CredentialRow → List Found
issue_of_row none = credential_required ∷ []
issue_of_row (some row) = if is_unfit row.status then credential_not_valid ∷ [] else []

unfoldable pub row_issues : List CredentialRow → List ℕ → List Found
row_issues rows [] = []
row_issues rows (id ∷ rest) =
    issue_of_row (find_first (λ c. c.id == id) rows) ++ row_issues rows rest

-- `_credential_issues(session, ctx, result)`
unfoldable pub credential_issues :
    Tools → RequestContext → List CredentialRow → ValidationResult → List Found × List CredentialRow
unfolding distinct parsed_ids unparsed_issues row_issues
credential_issues tools ctx credentials result =
    let ids = parsed_ids tools (distinct result.credential_ids) in
    let rows = select (is_named ctx ids) credentials in
    (unparsed_issues tools (distinct result.credential_ids) ++ row_issues rows ids, rows)

-- `issue["severity"] == "ERROR"`
abbrev pub is_blocking : Found → Bool
is_blocking (in_graph i) = is_error i
is_blocking credential_required = true
is_blocking credential_not_valid = true
is_blocking (from_engine code severe) = severe

-- `_engine_validate`
abbrev pub engine_outcome : EngineAnswer → EngineState × List Found
engine_outcome (out_of_reach code) = (unavailable, from_engine code false ∷ [])
engine_outcome (answered fits diagnostics) =
    (if fits then compiled else invalid, map (λ d. from_engine d.0 d.1) diagnostics)

-- The dry run, if nothing blocks before it.
abbrev pub with_dry_run : Bool → EngineState × List Found → EngineState × List Found
with_dry_run true outcome = outcome
with_dry_run false outcome = (skipped, [])

-- The payload of `validate`.
unfoldable pub examine : Tools → RequestContext → List CredentialRow → Bool → Fields → Report
unfolding validate_graph credential_issues
examine tools ctx credentials with_engine graph =
    let result = validate_graph graph tools.definitions true in
    let (unusable, rows) = credential_issues tools ctx credentials result in
    let issues = map (λ i. in_graph i) result.issues ++ unusable in
    let (engine, more) =
      with_dry_run (with_engine && not (any is_blocking issues))
        (engine_outcome (tools.dry_run graph rows)) in
    record {
      passed = not (any is_blocking (issues ++ more));
      found = issues ++ more;
      engine = engine;
    }

abbrev pub with_report : Report → Draft → Flow → Flow
with_report report d f = record f { draft = some (record d { validation = some report }) }

-- `validate`
unfoldable pub validate_draft : Tools → RequestContext → ℕ → Bool → Flows → Result (Report × Flows)
unfolding get_flow examine write_flow
validate_draft tools ctx id with_engine s = do
  demand (require_context ctx Module.workflows Action.view)
  f ← get_flow s ctx id
  d ← draft_of f.draft
  let report = examine tools ctx s.credentials with_engine d.graph
  ok (report, write_flow (with_report report d f) s)

abbrev pub revision_if_given : Option ℕ → ℕ → Result (Unit {0})
revision_if_given none revision = ok tt
revision_if_given (some expected) revision = same_revision expected revision

abbrev pub is_unavailable : EngineState → Bool
is_unavailable unavailable = true
is_unavailable _ = false

-- `if not outcome["ok"]`, and `if outcome["engine"] == "UNAVAILABLE"`
abbrev pub certify : Report → Result (Unit {0})
certify report =
    if not report.passed
    then err (workflow_invalid [])
    else if is_unavailable report.engine
    then err (engine_error "ENGINE_UNAVAILABLE")
    else ok tt

abbrev pub larger : ℕ → ℕ → ℕ
larger a b = if ltb a b then b else a

-- `coalesce(max(version_number), 0)` over the versions of a workflow
unfoldable pub max_number : ℕ → List FlowVersion → ℕ
max_number workflow [] = 0
max_number workflow (v ∷ rest) =
    let highest = max_number workflow rest in
    if v.workflow_id == workflow then larger v.version_number highest else highest

unfoldable pub new_version : ℕ → Flow → Draft → List FlowVersion → FlowVersion
unfolding max_number
new_version id f d versions = record {
  id = id;
  workflow_id = f.id;
  version_number = suc (max_number f.id versions);
  graph = d.graph;
  graph_hash = d.graph_hash;
}

-- `session.add(version)` and the pointer of the workflow to it
unfoldable pub add_version : FlowVersion → Flow → Flows → Flows
unfolding write_flow
add_version v f s = record (write_flow (record f { published_version_id = some v.id }) s) {
  versions = s.versions ++ v ∷ [];
  next_id = suc s.next_id;
}

-- `publish`: after the validation the session's row is the one that it wrote
unfoldable pub publish : Tools → RequestContext → ℕ → Option ℕ → Flows → Result (ℕ × Flows)
unfolding get_flow validate_draft new_version add_version
publish tools ctx id expected s = do
  demand (require_context ctx Module.workflows Action.publish)
  f ← get_flow s ctx id
  d ← draft_of f.draft
  revision_if_given expected d.revision
  outcome ← validate_draft tools ctx id true s
  certify outcome.0
  row ← get_flow outcome.1 ctx id
  let v = new_version outcome.1.next_id row d outcome.1.versions
  ok (v.version_number, add_version v row outcome.1)

abbrev pub is_numbered : ℕ → ℕ → FlowVersion → Bool
is_numbered workflow number v = v.workflow_id == workflow && v.version_number == number

abbrev pub found_version : Option FlowVersion → Result FlowVersion
found_version none = err not_found
found_version (some v) = ok v

-- `get_version`
unfoldable pub get_version : RequestContext → ℕ → ℕ → Flows → Result FlowVersion
unfolding get_flow
get_version ctx id number s = do
  demand (require_context ctx Module.workflows Action.view)
  f ← get_flow s ctx id
  found_version (find_first (is_numbered f.id number) s.versions)

-- The version that `activate` takes.
abbrev pub wanted_version : Flow → Option ℕ → Option ℕ → List FlowVersion → Result FlowVersion
wanted_version f none none versions = err workflow_not_published
wanted_version f none (some latest) versions =
    found_version (find_first (λ v. v.id == latest) versions)
wanted_version f (some number) latest versions =
    found_version (find_first (is_numbered f.id number) versions)

abbrev pub trigger_or_refuse : Option Binding → Result Binding
trigger_or_refuse none = err conflict
trigger_or_refuse (some b) = ok b

abbrev pub is_schedule : TriggerType → Bool
is_schedule schedule = true
is_schedule _ = false

-- What `schedules.next_run_at` reads from a dict that has none of its entries.
abbrev pub schedule_of : BindingConfig → Schedule
schedule_of (scheduled s) = s
schedule_of _ = record { timing = interval 3600; timezone = ""; overlap_policy = "" }

-- `schedules.next_run_at(binding.config_json or {})`
abbrev pub next_of : Tools → ℕ → Binding → Result (Option ℕ)
next_of tools now b = next_run_at tools.calendar (schedule_of b.config) now >>= λ t. ok (some t)

abbrev pub next_if_schedule : Tools → ℕ → Binding → Result (Option ℕ)
next_if_schedule tools now b =
    if is_schedule b.trigger_type then next_of tools now b else ok b.next_run_at

abbrev pub switch_on : FlowVersion → Option ℕ → Binding → Flow → Flow
switch_on v next b f = record f {
  active_version_id = some v.id;
  status = active;
  triggers =
      with_first (record b { workflow_version_id = some v.id; enabled = true; next_run_at = next })
        f.triggers;
}

-- `activate`
unfoldable pub activate : Tools → RequestContext → ℕ → Option ℕ → ℕ → Flows → Result Flows
unfolding get_flow validate_graph is_ok credential_issues next_run_at write_flow
activate tools ctx id number now s = do
  demand (require_context ctx Module.workflows Action.publish)
  f ← get_flow s ctx id
  v ← wanted_version f number f.published_version_id s.versions
  let result = validate_graph v.graph tools.definitions true
  refuse_if (not (is_ok result)) (err (workflow_invalid result.issues))
  refuse_if (any is_blocking (credential_issues tools ctx s.credentials result).0)
      (err credential_invalid)
  b ← trigger_or_refuse (first_trigger f.triggers)
  next ← next_if_schedule tools now b
  ok (write_flow (switch_on v next b f) s)

abbrev pub switched_off : List Binding → List Binding
switched_off [] = []
switched_off (b ∷ rest) = record b { enabled = false; next_run_at = none } ∷ rest

-- `deactivate`; the active version stays
unfoldable pub deactivate : RequestContext → ℕ → Flows → Result Flows
unfolding get_flow write_flow
deactivate ctx id s = do
  demand (require_context ctx Module.workflows Action.publish)
  f ← get_flow s ctx id
  ok (write_flow (record f { status = inactive; triggers = switched_off f.triggers }) s)
