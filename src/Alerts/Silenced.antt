-- ===== src/Alerts/Silenced.antt =====
-- backend/app/services/alerts.py, `raise_alert`: a rule of one workflow and the alerts of the others.
use appbi_integration.Base.{ℕ, Bool, ◌&&◌, ◌==◌}
use appbi_integration.Alerts.{execution_failed, same_event, AlertRule, Alerts}

-- A rule of the workspace for failed runs, enabled or not.
abbrev pub is_for_failures : ℕ → AlertRule → Bool
is_for_failures workspace r =
    r.workspace_id == workspace && same_event r.event_type execution_failed
