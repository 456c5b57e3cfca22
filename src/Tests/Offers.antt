-- ===== src/Tests/Offers.antt =====
-- backend/app/services/workflows.py on a workflow that is published.
use appbi_integration.Base.{◌≡◌, refl, false, none, some}
use appbi_integration.Base.Lists.{any}
use appbi_integration.Executions.{Workflow}
use appbi_integration.Executions.Create.{insert, new_execution}
use appbi_integration.Workflows.{
  Trigger, Health, never_run, running_now, derive_health, activate, available_actions,
}
use appbi_integration.Workflows.Offers.{same, is_due, available_actions_due}
use appbi_integration.Tests.Data.{ctx, workflow, one_run}

abbrev published_workflow : Workflow
published_workflow = record workflow { published_version_id = some 4 }

abbrev switched_off : Trigger
switched_off = record { enabled = false }

abbrev unrun : Health
unrun = record { level = never_run; code = none }

available_actions_due_example :
    any (same activate) (available_actions ctx published_workflow (some switched_off) unrun)
    ≡ is_due ctx published_workflow (some switched_off) unrun activate
available_actions_due_example =
    available_actions_due ctx published_workflow (some switched_off) unrun activate

shown_running : (derive_health one_run workflow none none).level ≡ running_now
unfolding derive_health insert new_execution
shown_running = refl
