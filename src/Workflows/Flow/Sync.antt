-- ===== src/Workflows/Flow/Sync.antt =====
-- backend/app/services/workflows.py, `_sync_trigger_from_graph`: the binding follows the trigger that
-- the graph declares.
use appbi_integration.Base.{
  ℕ, String, Bool, true, false, not, ◌&&◌, Option, none, some, ltb, str_eq, if◌then◌else◌,
}
use appbi_integration.Json.{Json, num, str, Fields, get, truthy}
use appbi_integration.Json.Text.{str_or}
use appbi_integration.Graph.Schema.{as_fields}
use appbi_integration.Graph.Nodes.{raw_key_of}
use appbi_integration.Graph.Credentials.{trigger_of}
use appbi_integration.Errors.{Result, ok, err, ◌>>=◌, uncaught}
use appbi_integration.Executions.{TriggerType, manual, webhook, schedule}
use appbi_integration.Schedules.{validate, next_run_at}
use appbi_integration.Schedules.Parse.{Number, below, at, int_of}
use appbi_integration.Workflows.Flow.{
  inactive, Overlap, skip_if_running, allow, WebhookConfig, blank, scheduled, hooked, Binding, Flow,
  Tools, first_trigger, with_first, new_binding,
}

abbrev pub same_type : TriggerType → TriggerType → Bool
same_type manual manual = true
same_type webhook webhook = true
same_type schedule schedule = true
same_type _ _ = false

-- `TriggerType(declared)`, of `capability.get("trigger_type") or "MANUAL"`
abbrev pub type_of : Option String → Result TriggerType
type_of none = ok manual
type_of (some name) =
    if str_eq name ""
    then ok manual
    else if str_eq name "MANUAL"
    then ok manual
    else if str_eq name "WEBHOOK"
    then ok webhook
    else if str_eq name "SCHEDULE"
    then ok schedule
    else err uncaught

-- `OverlapPolicy(name)`
abbrev pub overlap_of : String → Result Overlap
overlap_of name =
    if str_eq name "SKIP_IF_RUNNING"
    then ok skip_if_running
    else if str_eq name "ALLOW"
    then ok allow
    else err uncaught

abbrev pub or_json : Json → Option Json → Json
or_json default none = default
or_json default (some x) = if truthy x then x else default

-- `min(int(…), limit)`
abbrev pub at_most : ℕ → Option Number → Result Number
at_most limit none = err uncaught
at_most limit (some below) = ok below
at_most limit (some (at n)) = ok (at (if ltb n limit then n else limit))

-- The `config_json` of a webhook.
unfoldable pub webhook_config : Tools → Fields → Result WebhookConfig
unfolding get str_or int_of truthy
webhook_config tools config = do
  size ←
      at_most tools.webhook_max_body_bytes
        (int_of (or_json (num tools.webhook_max_body_bytes) (get "max_body_bytes" config)))
  ok (record {
    method = tools.calendar.upper (str_or "POST" (get "method" config));
    auth_mode = tools.calendar.upper (str_or "HEADER_SIGNATURE" (get "auth_mode" config));
    allowed_content_type = or_json (str "application/json") (get "allowed_content_type" config);
    max_body_bytes = size;
  })

-- `if not binding.public_key: binding.public_key = secrets.token_hex(16)`
abbrev pub key_or_new : String → Option String → Option String
key_or_new new none = some new
key_or_new new (some key) = if str_eq key "" then some new else some key

abbrev pub secret_or_new : Bool → ℕ → Option ℕ → Option ℕ
secret_or_new needed fresh (some ref) = some ref
secret_or_new true fresh none = some fresh
secret_or_new false fresh none = none

abbrev pub some_time : Result ℕ → Result (Option ℕ)
some_time (err e) = err e
some_time (ok t) = ok (some t)

-- `if binding.enabled: binding.next_run_at = schedules.next_run_at(normalized)`
abbrev pub rescheduled : Bool → Result ℕ → Option ℕ → Result (Option ℕ)
rescheduled true next before = some_time next
rescheduled false next before = ok before

-- The branches on the declared type; the binding comes with its new type.
unfoldable pub bound : Tools → ℕ → ℕ → TriggerType → Fields → Binding → Result Binding
unfolding validate next_run_at webhook_config
bound tools now fresh schedule config b = do
  normalized ← validate tools.calendar config tools.timezone
  policy ← overlap_of normalized.overlap_policy
  next ← rescheduled b.enabled (next_run_at tools.calendar normalized now) b.next_run_at
  ok (record b {
    trigger_type = schedule;
    config = scheduled normalized;
    overlap_policy = policy;
    next_run_at = next;
  })
bound tools now fresh webhook config b = do
  settings ← webhook_config tools config
  ok (record b {
    trigger_type = webhook;
    config = hooked settings;
    public_key = key_or_new (tools.token_hex fresh) b.public_key;
    webhook_secret_ref =
        secret_or_new (not (str_eq settings.auth_mode "NONE")) fresh b.webhook_secret_ref;
    next_run_at = none;
  })
bound tools now fresh manual config b =
    ok (record b { trigger_type = manual; config = blank; next_run_at = none })

-- `if changed_type and binding.enabled`: both the binding and the workflow are switched off
abbrev pub switched : Bool → TriggerType → Flow → Binding → Flow
switched true t f b = record f {
  status = inactive;
  trigger_type_cache = t;
  triggers = with_first (record b { enabled = false }) f.triggers;
}
switched false t f b = record f { trigger_type_cache = t; triggers = with_first b f.triggers }

abbrev pub or_binding : Option Binding → Binding
or_binding none = new_binding manual blank
or_binding (some b) = b

-- The part of `_sync_trigger_from_graph` after the binding is there.
unfoldable pub sync_with : Tools → ℕ → ℕ → Flow → Binding → Option Json → Result Flow
unfolding bound raw_key_of get
sync_with tools now fresh f b none = ok (record f { triggers = with_first b f.triggers })
sync_with tools now fresh f b (some node) = do
  declared ← type_of (tools.declared_type (raw_key_of (as_fields (some node))))
  written ← bound tools now fresh declared (as_fields (get "config" (as_fields (some node)))) b
  ok (switched (not (same_type b.trigger_type declared) && b.enabled) declared f written)

-- `_sync_trigger_from_graph(session, ctx, workflow, graph, definitions)`
unfoldable pub sync_trigger : Tools → ℕ → ℕ → Fields → Flow → Result Flow
unfolding sync_with trigger_of
sync_trigger tools now fresh graph f =
    sync_with tools now fresh f (or_binding (first_trigger f.triggers))
      (trigger_of graph tools.definitions)
