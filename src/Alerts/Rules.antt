-- ===== src/Alerts/Rules.antt =====
-- backend/app/services/alerts.py: the requests on rules and notifications.
use appbi_integration.Base.{
  ℕ, suc, String, Bool, true, false, not, ◌&&◌, Option, none, some, [], ◌∷◌, ◌++◌, map, ltb, ◌==◌,
  str_eq, if◌then◌else◌,
}
use appbi_integration.Base.Lists.{find_first, select, count_if}
use appbi_integration.Permissions.{Module, Action}
use appbi_integration.Context.{RequestContext, require_context}
use appbi_integration.Errors.{Result, ok, err, ◌>>=◌, ◌>>◌, demand, not_found, validation_error}
use appbi_integration.Alerts.{
  AlertEvent, execution_failed, consecutive_failures, credential_invalid, schedule_missed,
  webhook_auth_failure_burst, engine_degraded, version_incompatible, same_event, AlertRule,
  NotificationStatus, unread, acknowledged, Notification, Alerts, at_least_one,
}

-- `AlertEventType(name)`
abbrev pub event_of : String → Result AlertEvent
event_of name =
    if str_eq name "EXECUTION_FAILED"
    then ok execution_failed
    else if str_eq name "CONSECUTIVE_FAILURES"
    then ok consecutive_failures
    else if str_eq name "CREDENTIAL_INVALID"
    then ok credential_invalid
    else if str_eq name "SCHEDULE_MISSED"
    then ok schedule_missed
    else if str_eq name "WEBHOOK_AUTH_FAILURE_BURST"
    then ok webhook_auth_failure_burst
    else if str_eq name "ENGINE_DEGRADED"
    then ok engine_degraded
    else if str_eq name "VERSION_INCOMPATIBLE"
    then ok version_incompatible
    else err (validation_error "EVENT_TYPE")

abbrev pub long_enough : ℕ → Result (Unit {0})
long_enough seconds = if ltb seconds 60 then err (validation_error "COOLDOWN") else ok tt

-- `AlertRule.workflow_id == workflow_id`, with None as SQLAlchemy's IS NULL
abbrev pub same_workflow : Option ℕ → Option ℕ → Bool
same_workflow none none = true
same_workflow (some a) (some b) = a == b
same_workflow _ _ = false

abbrev pub is_rule_of : ℕ → AlertEvent → Option ℕ → AlertRule → Bool
is_rule_of workspace event workflow r =
    r.workspace_id == workspace
    && same_event r.event_type event
    && same_workflow r.workflow_id workflow

-- The columns that `upsert_rule` sets.
abbrev pub set_rule : ℕ → ℕ → Bool → AlertRule → AlertRule
set_rule threshold cooldown enabled r = record r {
  threshold = at_least_one threshold;
  cooldown_seconds = cooldown;
  enabled = enabled;
}

abbrev pub new_rule : ℕ → ℕ → AlertEvent → Option ℕ → AlertRule
new_rule id workspace event workflow = record {
  id = id;
  workspace_id = workspace;
  event_type = event;
  workflow_id = workflow;
  threshold = 1;
  cooldown_seconds = 900;
  enabled = true;
}

abbrev pub write_rule : AlertRule → AlertRule → AlertRule
write_rule r row = if row.id == r.id then r else row

abbrev pub put_rule : Option AlertRule → ℕ → AlertEvent → Option ℕ → ℕ → ℕ → Bool → Alerts → Alerts
put_rule (some r) workspace event workflow threshold cooldown enabled a = record a {
  rules = map (write_rule (set_rule threshold cooldown enabled r)) a.rules;
}
put_rule none workspace event workflow threshold cooldown enabled a = record a {
  rules =
      a.rules
      ++ set_rule threshold cooldown enabled (new_rule a.next_id workspace event workflow) ∷ [];
  next_id = suc a.next_id;
}

-- `upsert_rule`
unfoldable pub upsert_rule :
    RequestContext → String → Option ℕ → ℕ → ℕ → Bool → Alerts → Result Alerts
upsert_rule ctx event_type workflow threshold cooldown enabled a = do
  demand (require_context ctx Module.alerts Action.create)
  kind ← event_of event_type
  long_enough cooldown
  ok (
      put_rule (find_first (is_rule_of ctx.workspace_id kind workflow) a.rules) ctx.workspace_id
        kind workflow threshold cooldown enabled a)

abbrev pub found {ℓ} : {A : Type ℓ} → Option A → Result A
found none = err not_found
found (some x) = ok x

-- `delete_rule`
unfoldable pub delete_rule : RequestContext → ℕ → Alerts → Result Alerts
delete_rule ctx id a = do
  demand (require_context ctx Module.alerts Action.delete)
  r ← found (find_first (λ x. x.id == id && x.workspace_id == ctx.workspace_id) a.rules)
  ok (record a { rules = select (λ x. not (x.id == r.id)) a.rules })

abbrev pub acknowledged_row : Notification → Notification
acknowledged_row n = record n { status = acknowledged }

-- `acknowledge`
unfoldable pub acknowledge : RequestContext → ℕ → Alerts → Result Alerts
acknowledge ctx id a = do
  demand (require_context ctx Module.alerts Action.execute)
  n ← found (find_first (λ x. x.id == id && x.workspace_id == ctx.workspace_id) a.notifications)
  ok (record a {
    notifications = map (λ x. if x.id == n.id then acknowledged_row x else x) a.notifications;
  })

abbrev pub is_unread : NotificationStatus → Bool
is_unread unread = true
is_unread _ = false

abbrev pub unread_in : ℕ → Notification → Bool
unread_in workspace n = n.workspace_id == workspace && is_unread n.status

-- `acknowledge_all`
unfoldable pub acknowledge_all : RequestContext → Alerts → Result (ℕ × Alerts)
acknowledge_all ctx a = do
  demand (require_context ctx Module.alerts Action.execute)
  ok (
    count_if (unread_in ctx.workspace_id) a.notifications,
    record a {
      notifications =
          map (λ x. if unread_in ctx.workspace_id x then acknowledged_row x else x) a.notifications;
    },
  )

-- `unread_count`
unfoldable pub unread_count : RequestContext → Alerts → Result ℕ
unread_count ctx a = do
  demand (require_context ctx Module.alerts Action.view)
  ok (count_if (unread_in ctx.workspace_id) a.notifications)
