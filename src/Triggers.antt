-- ===== src/Triggers.antt =====
-- backend/app/services/triggers.py: the scheduler. A row of the bindings is a binding with its workflow
-- and its workspace; `last_fired_at` and the audit are left out. A time is in milliseconds.
pub mod Webhook
pub mod Fired
pub mod Authentic
use appbi_integration.Base.{
  ℕ, suc, ◌+◌, ◌-◌, Bool, true, false, not, ◌&&◌, Option, none, some, List, [], ◌∷◌, ltb, leb, ◌==◌,
  if◌then◌else◌,
}
use appbi_integration.Base.Lists.{find_first, count_if, select, take}
use appbi_integration.Json.{obj, end}
use appbi_integration.Context.{RequestContext, system}
use appbi_integration.Errors.{AppError, uncaught, Result, ok, err}
use appbi_integration.Executions.{
  TriggerType, VersionKind, is_active, Execution, Workflow, Store, Env,
}
use appbi_integration.Executions.Create.{Request, create}
use appbi_integration.Schedules.{Calendar, next_run_at}
use appbi_integration.Workflows.Flow.{Overlap, skip_if_running, allow, Binding}
use appbi_integration.Workflows.Flow.Publish.{is_schedule, schedule_of}

-- A row of `trigger_bindings`.
pub record Placed : Type 0 where
  pub workflow_id : ℕ
  pub workspace_id : ℕ
  pub binding : Binding

abbrev pub is_past : ℕ → Option ℕ → Bool
is_past now none = false
is_past now (some t) = leb t now

-- The conditions of the query of `due_schedules`.
abbrev pub is_due : ℕ → Binding → Bool
is_due now b = b.enabled && is_schedule b.trigger_type && is_past now b.next_run_at

-- `session.get(Workflow, id)`, of a workflow that is not deleted
abbrev pub live_workflow : Store → ℕ → Option Workflow
live_workflow s id = find_first (λ w. w.id == id && not w.is_deleted) s.workflows

abbrev pub disabled : Binding → Binding
disabled b = record b { enabled = false; next_run_at = none }

-- What is not an AppError.
abbrev pub is_uncaught : AppError → Bool
is_uncaught uncaught = true
is_uncaught _ = false

abbrev pub advanced : Binding → Result ℕ → Result Binding
advanced b (ok t) = ok (record b { next_run_at = some t })
advanced b (err e) = if is_uncaught e then err e else ok (disabled b)

-- `binding.next_run_at = schedules.next_run_at(config)`, with its `except AppError`; another exception
-- goes on
unfoldable pub advance : Calendar → ℕ → Binding → Result Binding
unfolding next_run_at
advance cal now b = advanced b (next_run_at cal (schedule_of b.config) now)

-- `select(func.count(Execution.id))` of the workflow's active runs
abbrev pub active_runs : Store → ℕ → ℕ
active_runs s workflow =
    count_if (λ e. e.workflow_id == workflow && is_active e.status) s.executions

abbrev pub skips : Overlap → Bool
skips skip_if_running = true
skips allow = false

abbrev pub schedule_request : ℕ → ℕ → Request
schedule_request workflow version = record {
  workflow_id = workflow;
  kind = VersionKind.published;
  trigger_type = TriggerType.schedule;
  start_payload = obj end;
  idempotency_key = none;
  retry_of = none;
  version_id = some version;
}

-- What a firing leaves: the run, if there is one, the binding before `finally`, and the tables.
abbrev pub Firing : Type 0
Firing = Option Execution × Binding × Store

abbrev pub fired_or_kept : Binding → Store → Result (Execution × Store) → Firing
fired_or_kept b s (ok (e, written)) = (some e, b, written)
fired_or_kept b s (err e) = (none, b, s)

-- The body of `try`.
unfoldable pub attempt : Env → ℕ → ℕ → ℕ → Binding → Store → Firing
unfolding create
attempt env now workflow workspace b s =
    if skips b.overlap_policy && ltb 0 (active_runs s workflow)
    then (none, b, s)
    else elim b.workflow_version_id [
      | none ↦ (none, disabled b, s)
      | some version ↦
          fired_or_kept b s
            (create env (system workspace) (schedule_request workflow version) now s s)
    ]

abbrev pub with_advanced : Firing → Result Binding → Result Firing
with_advanced (fired, b, s) (ok next) = ok (fired, next, s)
with_advanced (fired, b, s) (err e) = err e

abbrev pub fire_if_live :
    Option Workflow → Bool → Firing → Calendar → ℕ → Binding → Store → Result Firing
fire_if_live none there tried cal now b s = ok (none, disabled b, s)
fire_if_live (some w) false tried cal now b s = ok (none, disabled b, s)
fire_if_live (some w) true tried cal now b s = with_advanced tried (advance cal now tried.1)

-- `fire_schedule(session, binding)`; the second flag says whether the workspace exists
unfoldable pub fire_schedule : Env → Calendar → ℕ → Bool → Placed → Store → Result Firing
unfolding attempt advance
fire_schedule env cal now workspace_exists p s =
    fire_if_live (live_workflow s p.workflow_id) workspace_exists
      (attempt env now p.workflow_id p.workspace_id p.binding s) cal now p.binding s

-- `detect_missed`: the fire time is more than five minutes past
unfoldable pub is_missed : ℕ → Binding → Bool
is_missed now b =
    b.enabled
    && is_schedule b.trigger_type
    && (elim b.next_run_at [ none ↦ false | some t ↦ ltb (t + 300000) now ])
