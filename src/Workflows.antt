-- ===== src/Workflows.antt =====
-- backend/app/services/workflows.py: the derived health of a workflow and the actions that its caller
-- is offered; `HealthLevel` of backend/app/models/enums.py. Whether the graph depends on a broken
-- credential is an argument, as is the first trigger of the workflow. The labels are left out.
pub mod Offers
pub mod Flow
use appbi_integration.Base.{
  ℕ, zero, suc, String, Bool, true, false, ◌&&◌, Option, none, some, List, [], ◌∷◌, ◌++◌, ltb, ◌==◌,
  str_eq, is_some, if◌then◌else◌,
}
use appbi_integration.Base.Lists.{count_if, select}
use appbi_integration.Permissions.{Module, Action}
use appbi_integration.Context.{RequestContext, can}
use appbi_integration.Executions.{
  Status, succeeded, failed, timed_out, engine_interrupted, failed_to_start, Execution, Workflow,
  Store, active_in_workflow,
}

pub data HealthLevel : Type 0 where
  healthy running_now warning action_required failing inactive draft_only never_run : HealthLevel

pub record Health : Type 0 where
  pub level : HealthLevel
  pub code : Option String

pub record Trigger : Type 0 where
  pub enabled : Bool

-- `trigger and trigger.enabled`
abbrev pub is_enabled : Option Trigger → Bool
is_enabled none = false
is_enabled (some trigger) = trigger.enabled

-- `_active_execution_count`
unfoldable pub active_execution_count : Store → ℕ → ℕ → ℕ
active_execution_count s workspace workflow =
    count_if (active_in_workflow workspace workflow) s.executions

abbrev pub later_of : Execution → Option Execution → Execution
later_of e none = e
later_of e (some f) = if ltb e.queued_at f.queued_at then f else e

-- `order_by(queued_at.desc()).limit(1)`; of rows queued at the same moment, the first
unfoldable pub latest : List Execution → Option Execution
latest [] = none
latest (e ∷ rest) = some (later_of e (latest rest))

-- `_last_execution`
unfoldable pub last_execution : Store → ℕ → ℕ → Option Execution
unfolding latest
last_execution s workspace workflow =
    latest (select (λ e. e.workspace_id == workspace && e.workflow_id == workflow) s.executions)

abbrev pub level_of : Status → HealthLevel
level_of succeeded = healthy
level_of failed = failing
level_of timed_out = failing
level_of engine_interrupted = failing
level_of failed_to_start = failing
level_of _ = warning

abbrev pub code_of : Status → Option String → Option String
code_of succeeded code = none
code_of _ code = code

-- The health by the last run.
unfoldable pub health_of_last : Option Execution → Health
health_of_last none = record { level = never_run; code = none }
health_of_last (some last) = record {
  level = level_of last.status;
  code = code_of last.status last.error_code;
}

-- The tests of `derive_health`, in their order.
abbrev pub health_of : Bool → Bool → Bool → Bool → Health → Health
health_of true problem published enabled rest = record { level = running_now; code = none }
health_of false true published enabled rest = record {
  level = action_required;
  code = some "CREDENTIAL_INVALID";
}
health_of false false false enabled rest = record { level = draft_only; code = none }
health_of false false true false rest = record { level = inactive; code = none }
health_of false false true true rest = rest

-- `derive_health(session, workflow)`
unfoldable pub derive_health : Store → Workflow → Option Trigger → Option String → Health
unfolding active_execution_count last_execution health_of_last
derive_health s workflow trigger credential_problem =
    health_of (ltb 0 (active_execution_count s workflow.workspace_id workflow.id))
      (is_some credential_problem) (is_some workflow.published_version_id) (is_enabled trigger)
      (health_of_last (last_execution s workflow.workspace_id workflow.id))

pub data WorkflowAction : Type 0 where
  edit_draft run_draft publish_draft deactivate activate update_credential duplicate remove :
      WorkflowAction

-- `if test: actions.append(action)`
abbrev pub offered_if : Bool → WorkflowAction → List WorkflowAction
offered_if true action = action ∷ []
offered_if false action = []

-- `health.get("code") == "CREDENTIAL_INVALID"`
abbrev pub is_credential_code : Option String → Bool
is_credential_code none = false
is_credential_code (some code) = str_eq code "CREDENTIAL_INVALID"

-- `available_actions(ctx, workflow, health)`
unfoldable pub available_actions :
    RequestContext → Workflow → Option Trigger → Health → List WorkflowAction
unfolding can
available_actions ctx workflow trigger health =
    let publishes = can ctx Module.workflows Action.publish in
    let published = is_some workflow.published_version_id in
    offered_if (can ctx Module.workflows Action.edit) edit_draft
    ++ (offered_if (can ctx Module.workflows Action.execute) run_draft
        ++ (offered_if publishes publish_draft
            ++ ((if publishes && published
                  then (if is_enabled trigger then deactivate ∷ [] else activate ∷ [])
                  else [])
                ++ (offered_if (is_credential_code health.code) update_credential
                    ++ (offered_if (can ctx Module.workflows Action.create) duplicate
                        ++ offered_if (can ctx Module.workflows Action.delete) remove)))))
