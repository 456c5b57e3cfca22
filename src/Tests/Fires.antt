-- ===== src/Tests/Fires.antt =====
-- backend/app/services/triggers.py, services/alerts.py and core/rate_limit.py on small tables.
use Prim.Native.String.{◌++◌ as join}
use appbi_integration.Base.{
  ℕ, ◌≡◌, refl, ◌≤◌, ◌+◌, ◌-◌, ◌⊎◌, true, false, none, some, Option, List, [], ◌∷◌, arith,
}
use appbi_integration.Base.Lists.{find_first}
use appbi_integration.Json.{str}
use appbi_integration.Context.{require_context, system}
use appbi_integration.Errors.{Result, ok, err}
use appbi_integration.Executions.{TriggerType, Execution, Version, Store}
use appbi_integration.Executions.Create.{create, create_row, new_execution, insert}
use appbi_integration.Graph.Issue.{is_ok}
use appbi_integration.Graph.Validate.{validate_graph}
use appbi_integration.Schedules.{daily}
use appbi_integration.Schedules.Parse.{at}
use appbi_integration.Workflows.Flow.{hooked, scheduled, new_binding}
use appbi_integration.Triggers.{
  Placed, is_due, skips, active_runs, Firing, schedule_request, fire_schedule,
}
use appbi_integration.Triggers.Fired.{IsSteady, fire_schedule-not_due, fire_schedule-fires}
use appbi_integration.Triggers.Webhook.{
  Gateway, HttpRequest, is_hook, handle_webhook, webhook_request,
}
use appbi_integration.Triggers.Authentic.{Authentic, handle_webhook-Authentic}
use appbi_integration.RateLimit.{Buckets, window_start}
use appbi_integration.RateLimit.Bounds.{Hit, InOrder, allowed_in, hit-bounds}
use appbi_integration.Alerts.{execution_failed, Alerts, Digests}
use appbi_integration.Alerts.Rules.{upsert_rule}
use appbi_integration.Alerts.Spaced.{Spaced, Raise, raise_all, raise_all-Spaced}
use appbi_integration.Tests.Data.{env, ctx, graph, empty_store, queued_run, one_run}
use appbi_integration.Tests.Flows.{calendar}

abbrev published_version : Version
published_version = record { id = 4; workflow_id = 1; version_number = 1; graph = graph }

abbrev published_store : Store
published_store = record empty_store { versions = published_version ∷ [] }

abbrev made : Result (Execution × Store) → Execution × Store
made (ok (e, s)) = (e, s)
made (err e) = (queued_run, one_run)

abbrev gateway : Gateway
gateway = record {
  lower = λ t. t;
  upper = λ t. t;
  digest = λ secret timestamp body. join secret (join timestamp body);
  basic_password = λ t. none;
  secret_at = λ n. some "s3";
  webhook_max_body_bytes = 100;
}

abbrev hook : Placed
hook = record {
  workflow_id = 1;
  workspace_id = 7;
  binding =
      record (new_binding TriggerType.webhook (
        hooked (record {
          method = "POST";
          auth_mode = "HEADER_SIGNATURE";
          allowed_content_type = str "*";
          max_body_bytes = at 50;
        }))) {
          enabled = true;
          public_key = some "abc";
          webhook_secret_ref = some 9;
          workflow_version_id = some 4;
        };
}

abbrev signed : HttpRequest
signed = record {
  method = "POST";
  headers = ("X-AppBI-Timestamp", "1000") ∷ ("X-AppBI-Signature", "sha256=s31000body") ∷ [];
  body = "body";
  body_size = 4;
  content_type = none;
}

abbrev hooked_run : Execution × Store
hooked_run = made (
    handle_webhook env gateway (λ w. true) (hook ∷ []) "abc" signed (str "body") none 1100 10
      published_store)

hook_accepted :
    handle_webhook env gateway
      (λ w. true)
      (hook ∷ [])
      "abc"
      signed
      (str "body")
      none
      1100
      10
      published_store
    ≡ ok (hooked_run.0, hooked_run.1)
unfolding handle_webhook create create_row new_execution insert require_context system is_ok
    validate_graph
hook_accepted = refl

handle_webhook-Authentic_example :
    (p : Placed) × (version : ℕ) × (find_first (is_hook "abc") (hook ∷ []) ≡ some p)
    × (p.binding.enabled ≡ true)
    × Authentic gateway 1100 p.binding signed
    × (p.binding.workflow_version_id ≡ some version)
    × (create env
          (system p.workspace_id)
          (webhook_request p.workflow_id version (str "body") none)
          10
          published_store
          published_store
        ≡ ok (hooked_run.0, hooked_run.1))
handle_webhook-Authentic_example =
    handle_webhook-Authentic env gateway (λ w. true) (hook ∷ []) "abc" signed (str "body") none 1100
      10 published_store hooked_run.1 hooked_run.0 hook_accepted

-- A schedule of every day at 02:00 in Bangkok, seven hours ahead of UTC, that is due.
abbrev due : Placed
due = record {
  workflow_id = 1;
  workspace_id = 7;
  binding =
      record (new_binding TriggerType.schedule (
        scheduled (record {
          timing = daily 2 0;
          timezone = "Asia/Bangkok";
          overlap_policy = "SKIP_IF_RUNNING";
        }))) { enabled = true; next_run_at = some 5; workflow_version_id = some 4 };
}

bangkok-IsSteady : IsSteady calendar "Asia/Bangkok" 10
bangkok-IsSteady t fold h = there t
  where
    there : (t : ℕ) → 10 + 25200000 + t - 25200000 ≡ 10 + t
    there t = omega arith

abbrev fired : Result Firing → Firing
fired (ok f) = f
fired (err e) = (none, due.binding, one_run)

abbrev firing : Firing
firing = fired (fire_schedule env calendar 10 true due published_store)

abbrev run_in : Option Execution → Execution
run_in none = queued_run
run_in (some e) = e

was_fired :
    fire_schedule env calendar 10 true due published_store
    ≡ ok (some (run_in firing.0), firing.1, firing.2)
unfolding fire_schedule create create_row new_execution insert require_context system is_ok
    validate_graph
was_fired = refl

fire_schedule-not_due_example : is_due 10 firing.1 ≡ false
fire_schedule-not_due_example =
    fire_schedule-not_due env calendar 10 true due published_store firing.2 (some (run_in firing.0))
      firing.1 bangkok-IsSteady (omega arith, omega arith) was_fired

fire_schedule-fires_example :
    (version : ℕ) × (due.binding.workflow_version_id ≡ some version)
    × ((skips due.binding.overlap_policy ≡ false) ⊎ (active_runs published_store 1 ≡ 0))
    × (create env (system 7) (schedule_request 1 version) 10 published_store published_store
        ≡ ok (run_in firing.0, firing.2))
fire_schedule-fires_example =
    fire_schedule-fires env calendar 10 true due published_store firing.2 (run_in firing.0) firing.1
      was_fired

abbrev no_buckets : Buckets
no_buckets key = none

abbrev hits : List Hit
hits =
    record { key = "login:a"; at = 120 }
    ∷ record { key = "login:b"; at = 121 }
    ∷ record { key = "login:a"; at = 130 }
    ∷ record { key = "login:a"; at = 179 }
    ∷ record { key = "login:a"; at = 181 }
    ∷ []

in_order : InOrder 60 0 hits
unfolding window_start
in_order = (omega arith, (omega arith, (omega arith, (omega arith, (omega arith, tt)))))

hit-bounds_example : allowed_in 2 60 120 "login:a" hits no_buckets ≤ 2
hit-bounds_example = hit-bounds 2 60 120 "login:a" hits no_buckets refl in_order

abbrev digests : Digests
digests = record { sha256 = λ t. t; show_id = λ n. "id" }

abbrev no_alerts : Alerts
no_alerts = record { rules = []; notifications = []; next_id = 1 }

abbrev failed_at : ℕ → Raise
failed_at now = record {
  workspace = 7;
  event = execution_failed;
  workflow = some 1;
  parts = "TIMEOUT" ∷ [];
  at = now;
  rules = [];
}

raise_all-Spaced_example :
    Spaced
      (raise_all digests
        (failed_at 10 ∷ failed_at 20 ∷ failed_at 2000 ∷ [])
        no_alerts).notifications
raise_all-Spaced_example =
    raise_all-Spaced digests (failed_at 10 ∷ failed_at 20 ∷ failed_at 2000 ∷ []) no_alerts refl tt

abbrev after_rule : Result Alerts → Alerts
after_rule (ok a) = a
after_rule (err e) = no_alerts

abbrev one_rule : Alerts
one_rule = after_rule (upsert_rule ctx "EXECUTION_FAILED" (some 1) 1 600 true no_alerts)
