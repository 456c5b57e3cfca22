-- ===== src/Tests/Flows.antt =====
-- backend/app/services/workflows.py: a workflow is created, edited, published and switched on.
use appbi_integration.Base.{
  ℕ, ◌≡◌, refl, ◌≤◌, ◌<◌, String, true, false, ◌||◌, ◌-◌, if◌then◌else◌, none, some, List, [], ◌∷◌,
  ◌++◌, arith, str_eq, ◌+◌, ◌*◌, ◌%◌,
}
use appbi_integration.Base.Lists.{all, any, find_first}
use appbi_integration.Json.{str, Fields, end, field}
use appbi_integration.Permissions.{Module, Action, granted}
use appbi_integration.Context.{require_context}
use appbi_integration.Graph.Issue.{is_ok}
use appbi_integration.Graph.Validate.{validate_graph}
use appbi_integration.Errors.{Result, ok, err, draft_conflict}
use appbi_integration.Executions.{TriggerType}
use appbi_integration.Schedules.{Calendar, Schedule, interval, validate, resolve_zone, next_daily}
use appbi_integration.Schedules.Fires.{IsSound, validate-IsSound, next_daily-bounds}
use appbi_integration.Workflows.Flow.{
  Draft, Flow, FlowVersion, Flows, Tools, blank, answered, is_flow,
}
use appbi_integration.Workflows.Flow.Edit.{new_flow, save_draft, is_active_flow}
use appbi_integration.Workflows.Flow.Publish.{
  publish, wanted_version, credential_issues, is_blocking, activate,
}
use appbi_integration.Workflows.Flow.Synced.{agrees}
use appbi_integration.Workflows.Flow.Requests.{
  FlowRequest, creates, saves, publishes, activates, deactivates, duplicates, deletes,
}
use appbi_integration.Workflows.Flow.Always.{
  serve_all, serve_all-agrees, DistinctNumbers, serve_all-DistinctNumbers, Extends,
  serve_all-Extends,
}
use appbi_integration.Workflows.Flow.Revisions.{second_save_refused}
use appbi_integration.Workflows.Flow.Certified.{PassesChecks, publish-certified, activate-checked}
use appbi_integration.Tests.Data.{ctx, registry, graph}

abbrev pub calendar : Calendar
calendar = record {
  upper = λ t. t;
  is_zone = λ z. str_eq z "UTC" || str_eq z "Asia/Bangkok";
  wall = λ z t. if str_eq z "Asia/Bangkok" then t + 25200000 else t;
  fold = λ z t. false;
  utc = λ z t fold. if str_eq z "Asia/Bangkok" then t - 25200000 else t;
  cron_valid = λ e. false;
  cron_next = λ e z t. none;
}

abbrev tools : Tools
tools = record {
  definitions = registry;
  declared_type = λ key. none;
  graph_hash = λ g. "hash";
  calendar = calendar;
  timezone = "UTC";
  webhook_max_body_bytes = 1000;
  token_hex = λ n. "token";
  parse_uuid = λ t. none;
  dry_run = λ g rows. answered true [];
  has_active_run = λ w f. false;
}

-- A workflow as it is created.
abbrev first_flow : Flow
first_flow = new_flow tools 1 7 "Sync" TriggerType.manual blank graph

abbrev one_flow : Flows
one_flow = record { flows = first_flow ∷ []; versions = []; credentials = []; next_id = 2 }

-- Two workflows are made, the first is published twice, switched on, off and deleted.
abbrev requests : List (Tools × FlowRequest)
requests =
    (tools, creates ctx " Orders " "manual_trigger" 10)
    ∷ (tools, publishes ctx 1 none)
    ∷ (tools, saves ctx 1 graph 1 20)
    ∷ (tools, publishes ctx 1 (some 2))
    ∷ (tools, activates ctx 1 none 30)
    ∷ (tools, deactivates ctx 1)
    ∷ (tools, duplicates ctx 1 40)
    ∷ (tools, deletes ctx 1 50)
    ∷ []

flow_agrees : all agrees one_flow.flows ≡ true
unfolding new_flow
flow_agrees = refl

serve_all-agrees_example : all agrees (serve_all requests one_flow).flows ≡ true
serve_all-agrees_example = serve_all-agrees requests one_flow flow_agrees

serve_all-DistinctNumbers_example : DistinctNumbers (serve_all requests one_flow).versions
serve_all-DistinctNumbers_example = serve_all-DistinctNumbers requests one_flow tt

serve_all-Extends_example : Extends one_flow.versions (serve_all requests one_flow).versions
serve_all-Extends_example = serve_all-Extends requests one_flow

may_edit : require_context ctx Module.workflows Action.edit ≡ granted
unfolding require_context
may_edit = refl

abbrev tables : Result (ℕ × Flows) → Flows
tables (ok (n, s)) = s
tables (err e) = one_flow

-- The tables after a save, and after a second one that read what the first one read.
abbrev other : Fields
other = field "nodes" (str "none") end

abbrev after_first : Flows
after_first = tables (save_draft tools ctx 1 graph 1 20 one_flow)

first_saved : save_draft tools ctx 1 graph 1 20 one_flow ≡ ok (2, after_first)
unfolding save_draft new_flow require_context
first_saved = refl

second_save_refused_example : save_draft tools ctx 1 other 1 21 after_first ≡ err draft_conflict
second_save_refused_example =
    second_save_refused tools tools ctx ctx 1 graph other 1 20 21 one_flow after_first 2 first_saved
      refl may_edit

abbrev after_publish : Flows
after_publish = tables (publish tools ctx 1 (some 1) one_flow)

published : publish tools ctx 1 (some 1) one_flow ≡ ok (1, after_publish)
unfolding publish new_flow require_context
published = refl

publish-certified_example :
    (f : Flow) × (draft : Draft) × (v : FlowVersion) × (find_first (is_flow 7 1) one_flow.flows
      ≡ some f)
    × (f.draft ≡ some draft)
    × PassesChecks tools ctx [] draft.graph
    × (v.graph ≡ draft.graph)
    × (v.version_number ≡ 1)
    × (after_publish.versions ≡ [] ++ v ∷ [])
publish-certified_example =
    publish-certified tools ctx 1 (some 1) one_flow after_publish 1 published

abbrev on : Result Flows → Flows
on (ok s) = s
on (err e) = one_flow

abbrev after_activate : Flows
after_activate = on (activate tools ctx 1 none 30 after_publish)

activated : activate tools ctx 1 none 30 after_publish ≡ ok after_activate
unfolding activate publish new_flow require_context
activated = refl

activate-checked_example :
    (f : Flow) × (v : FlowVersion) × (f' : Flow) × (find_first (is_flow 7 1) after_publish.flows
      ≡ some f)
    × (wanted_version f none f.published_version_id after_publish.versions ≡ ok v)
    × (is_ok (validate_graph v.graph registry true) ≡ true)
    × (any is_blocking
          (credential_issues tools ctx after_publish.credentials
            (validate_graph v.graph registry true)).0
        ≡ false)
    × (find_first (is_flow 7 1) after_activate.flows ≡ some f')
    × (f'.active_version_id ≡ some v.id)
    × (is_active_flow f'.status ≡ true)
activate-checked_example =
    activate-checked tools ctx 1 none 30 after_publish after_activate activated

abbrev every_hour : Fields
every_hour = field "schedule_type" (str "INTERVAL") (field "interval_seconds" (str " 3600 ") end)

abbrev hourly : Schedule
hourly = record { timing = interval 3600; timezone = "UTC"; overlap_policy = "SKIP_IF_RUNNING" }

hourly_valid : validate calendar every_hour "UTC" ≡ ok hourly
unfolding validate
hourly_valid = refl

validate-IsSound_example :
    IsSound calendar (interval 3600) × ((z : String) × (resolve_zone calendar "UTC" ≡ ok z))
validate-IsSound_example = validate-IsSound calendar every_hour "UTC" hourly hourly_valid

next_daily-bounds_example :
    (90000000 < next_daily 2 30 90000000)
    × (next_daily 2 30 90000000 ≤ 90000000 + 86400000)
    × (next_daily 2 30 90000000 % 86400000 ≡ 2 * 3600000 + 30 * 60000)
next_daily-bounds_example = next_daily-bounds 2 30 90000000 (omega arith) (omega arith)
