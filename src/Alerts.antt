-- ===== src/Alerts.antt =====
-- backend/app/services/alerts.py: rules, notifications, and what the end of a run raises. Times are in
-- seconds. The texts of a notification are left out, and so is its execution. SHA-256 and the text of an
-- id are arguments.
pub mod Rules
pub mod Spaced
pub mod Silenced
use Prim.Native.String.{◌++◌ as join}
use appbi_integration.Base.{
  ℕ, zero, suc, ◌+◌, ◌-◌, ◌/◌, String, Bool, true, false, not, ◌&&◌, ◌||◌, Option, none, some, List,
  [], ◌∷◌, ◌++◌, map, ltb, leb, ◌==◌, str_eq, is_some, if◌then◌else◌,
}
use appbi_integration.Base.Lists.{find_first, select, count_if, any, take}
use appbi_integration.Json.Text.{decimal}
use appbi_integration.Permissions.{Module, Action}
use appbi_integration.Context.{RequestContext, require_context}
use appbi_integration.Errors.{Result, ok, err, ◌>>=◌, ◌>>◌, demand, not_found, validation_error}
use appbi_integration.Executions.{Status, succeeded, cancelled, is_terminal, Execution}

-- `AlertEventType`
pub data AlertEvent : Type 0 where
  execution_failed consecutive_failures credential_invalid schedule_missed : AlertEvent
  webhook_auth_failure_burst engine_degraded version_incompatible : AlertEvent

abbrev pub event_value : AlertEvent → String
event_value execution_failed = "EXECUTION_FAILED"
event_value consecutive_failures = "CONSECUTIVE_FAILURES"
event_value credential_invalid = "CREDENTIAL_INVALID"
event_value schedule_missed = "SCHEDULE_MISSED"
event_value webhook_auth_failure_burst = "WEBHOOK_AUTH_FAILURE_BURST"
event_value engine_degraded = "ENGINE_DEGRADED"
event_value version_incompatible = "VERSION_INCOMPATIBLE"

abbrev pub same_event : AlertEvent → AlertEvent → Bool
same_event a b = str_eq (event_value a) (event_value b)

-- `event_type in ALWAYS_ON`
abbrev pub is_always_on : AlertEvent → Bool
is_always_on execution_failed = true
is_always_on credential_invalid = true
is_always_on _ = false

pub record AlertRule : Type 0 where
  pub id : ℕ
  pub workspace_id : ℕ
  pub event_type : AlertEvent
  pub workflow_id : Option ℕ
  pub threshold : ℕ
  pub cooldown_seconds : ℕ
  pub enabled : Bool

pub data NotificationStatus : Type 0 where
  unread read acknowledged : NotificationStatus

pub record Notification : Type 0 where
  pub id : ℕ
  pub workspace_id : ℕ
  pub event_type : AlertEvent
  pub workflow_id : Option ℕ
  pub dedup_key : String
  pub status : NotificationStatus
  pub created_at : ℕ

pub record Alerts : Type 0 where
  pub rules : List AlertRule
  pub notifications : List Notification
  pub next_id : ℕ

pub record Digests : Type 0 where
  pub sha256 : String → String
  pub show_id : ℕ → String

abbrev pub default_cooldown_seconds : ℕ
default_cooldown_seconds = 900

-- `"|".join(…)`
unfoldable pub joined : List String → String
joined [] = ""
joined (part ∷ []) = part
joined (part ∷ next ∷ rest) = join part (join "|" (joined (next ∷ rest)))

abbrev pub part_of : Option String → List String
part_of none = []
part_of (some part) = part ∷ []

abbrev pub shown_id : Digests → Option ℕ → Option String
shown_id g none = none
shown_id g (some id) = some (g.show_id id)

-- `_fingerprint(workspace_id, workflow_id, event_type.value, *parts)`
unfoldable pub fingerprint : Digests → ℕ → Option ℕ → AlertEvent → List String → String
unfolding joined
fingerprint g workspace workflow event parts =
    g.sha256
      (joined (g.show_id workspace ∷ (part_of (shown_id g workflow) ++ event_value event ∷ parts)))

abbrev pub is_rule : ℕ → AlertEvent → AlertRule → Bool
is_rule workspace event r =
    r.workspace_id == workspace && same_event r.event_type event && r.enabled

-- The query of `raise_alert`: a rule of some workflow comes before one for all of them
unfoldable pub rule_for : ℕ → AlertEvent → List AlertRule → Option AlertRule
rule_for workspace event rules =
    find_first (is_rule workspace event)
      (select (λ r. is_some r.workflow_id) rules ++ select (λ r. not (is_some r.workflow_id)) rules)

abbrev pub is_id : ℕ → Option ℕ → Bool
is_id id none = false
is_id id (some other) = other == id

-- `rule.workflow_id and rule.workflow_id != workflow_id`
abbrev pub is_foreign : Option ℕ → Option ℕ → Bool
is_foreign none workflow = false
is_foreign (some id) workflow = not (is_id id workflow)

-- The cooldown under the rule, or `none` if the rules let no alert pass.
abbrev pub cooldown_of : AlertEvent → Option ℕ → Option AlertRule → Option ℕ
cooldown_of event workflow none = if is_always_on event then some default_cooldown_seconds else none
cooldown_of event workflow (some r) =
    if is_foreign r.workflow_id workflow then none else some r.cooldown_seconds

-- The query for a notification inside the cooldown.
abbrev pub is_recent : ℕ → String → ℕ → ℕ → Notification → Bool
is_recent workspace key cooldown now n =
    n.workspace_id == workspace && str_eq n.dedup_key key && leb now (n.created_at + cooldown)

abbrev pub new_notification : ℕ → ℕ → AlertEvent → Option ℕ → String → ℕ → Notification
new_notification id workspace event workflow key now = record {
  id = id;
  workspace_id = workspace;
  event_type = event;
  workflow_id = workflow;
  dedup_key = key;
  status = unread;
  created_at = now;
}

abbrev pub add_notification : Notification → Alerts → Alerts
add_notification n a = record a {
  notifications = a.notifications ++ n ∷ [];
  next_id = suc a.next_id;
}

abbrev pub raise_under :
    Option ℕ → ℕ → AlertEvent → Option ℕ → String → ℕ → Alerts → Option Notification × Alerts
raise_under none workspace event workflow key now a = (none, a)
raise_under (some cooldown) workspace event workflow key now a =
    let n = new_notification a.next_id workspace event workflow key now in
    if any (is_recent workspace key cooldown now) a.notifications
    then (none, a)
    else (some n, add_notification n a)

-- `raise_alert`
unfoldable pub raise_alert :
    Digests → ℕ → AlertEvent → Option ℕ → List String → ℕ → Alerts → Option Notification × Alerts
unfolding rule_for fingerprint
raise_alert g workspace event workflow parts now a =
    raise_under (cooldown_of event workflow (rule_for workspace event a.rules)) workspace event
      workflow (fingerprint g workspace workflow event parts) now a

-- A row at its place in `order_by(queued_at.desc())`.
unfoldable pub place : Execution → List Execution → List Execution
place e [] = e ∷ []
place e (x ∷ rest) =
    let later = place e rest in if ltb e.queued_at x.queued_at then x ∷ later else e ∷ x ∷ rest

unfoldable pub latest_first : List Execution → List Execution
unfolding place
latest_first [] = []
latest_first (e ∷ rest) = place e (latest_first rest)

abbrev pub stops_streak : Status → Bool
stops_streak succeeded = true
stops_streak cancelled = true
stops_streak _ = false

-- The loop over the rows.
unfoldable pub streak_of : List Execution → ℕ
streak_of [] = 0
streak_of (e ∷ rest) =
    let others = streak_of rest in
    if not (is_terminal e.status) then others else if stops_streak e.status then 0 else suc others

-- `_failure_streak`
unfoldable pub failure_streak : List Execution → ℕ → ℕ → ℕ
unfolding latest_first streak_of
failure_streak executions workspace workflow = streak_of (
    take 20 (
      latest_first
        (select (λ e. e.workspace_id == workspace && e.workflow_id == workflow) executions)))

abbrev pub threshold_of : Option AlertRule → ℕ
threshold_of none = 3
threshold_of (some r) = r.threshold

abbrev pub or_unknown : Option String → String
or_unknown none = "UNKNOWN"
or_unknown (some code) = if str_eq code "" then "UNKNOWN" else code

abbrev pub at_least_one : ℕ → ℕ
at_least_one zero = 1
at_least_one (suc n) = suc n

abbrev pub is_credential_error : Option String → Bool
is_credential_error none = false
is_credential_error (some code) =
    str_eq code "NODE_AUTHENTICATION_FAILED" || str_eq code "CREDENTIAL_INVALID"

-- `if test: await raise_alert(…)`
abbrev pub raise_if : Bool → Option Notification × Alerts → Alerts → Alerts
raise_if true raised a = raised.1
raise_if false raised a = a

-- `evaluate_execution`
unfoldable pub evaluate_execution : Digests → List Execution → Execution → ℕ → Alerts → Alerts
unfolding raise_alert failure_streak decimal
evaluate_execution g executions e now a =
    let failed =
      (raise_alert g e.workspace_id execution_failed (some e.workflow_id)
        (or_unknown e.error_code ∷ []) now a).1 in
    let streak = failure_streak executions e.workspace_id e.workflow_id in
    let threshold =
      threshold_of (find_first (is_rule e.workspace_id consecutive_failures) failed.rules) in
    let repeated =
      raise_if (leb threshold streak)
        (raise_alert g e.workspace_id consecutive_failures (some e.workflow_id)
          (decimal (streak / at_least_one threshold) ∷ []) now failed)
        failed in
    if stops_streak e.status
    then a
    else raise_if (is_credential_error e.error_code)
        (raise_alert g e.workspace_id credential_invalid (some e.workflow_id) [] now repeated)
        repeated
