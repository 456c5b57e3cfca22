-- ===== src/Triggers/Webhook.antt =====
-- backend/app/services/triggers.py: the webhook gateway. The body comes as a text with its size. HMAC-SHA256
-- over a time stamp and the body, the decoding of a basic authorization, and the secret store are
-- arguments; a comparison of digests is an equation of texts.
use Prim.Native.Char.{code}
use Prim.Native.String.{String}
use appbi_integration.Base.{
  ℕ, zero, suc, ◌-◌, Bool, true, false, not, ◌&&◌, ◌||◌, Option, none, some, List, [], ◌∷◌, ltb,
  ◌==◌, str_eq, is_some, if◌then◌else◌,
}
use appbi_integration.Base.Lists.{find_first}
use appbi_integration.Json.{Json, str}
use appbi_integration.Json.Text.{str_or}
use appbi_integration.Context.{system}
use appbi_integration.Errors.{
  Result, ok, err, ◌>>=◌, ◌>>◌, not_found, uncaught, webhook_rejected, workflow_not_published,
}
use appbi_integration.Executions.{TriggerType, webhook, VersionKind, Execution, Store, Env}
use appbi_integration.Executions.Create.{Request, create}
use appbi_integration.Schedules.Parse.{Number, below, at, read_int}
use appbi_integration.Workflows.Flow.{WebhookConfig, BindingConfig, hooked, Binding}
use appbi_integration.Triggers.{Placed, live_workflow}

abbrev pub signature_tolerance : ℕ
signature_tolerance = 300

-- What the gateway is given: `str.lower` and `str.upper`, the hexdigest of a secret, a time stamp and a
-- body, the password of a basic authorization, the value behind a reference, and the body limit.
pub record Gateway : Type 0 where
  pub lower : String → String
  pub upper : String → String
  pub digest : String → String → String → String
  pub basic_password : String → Option String
  pub secret_at : ℕ → Option String
  pub webhook_max_body_bytes : ℕ

pub record HttpRequest : Type 0 where
  pub method : String
  pub headers : List (String × String)
  pub body : String
  pub body_size : ℕ
  pub content_type : Option String

pub data AuthMode : Type 0 where
  no_auth basic header_signature : AuthMode

-- `binding.config_json or {}`: of another shape, it has none of the entries
abbrev pub config_of : BindingConfig → WebhookConfig
config_of (hooked w) = w
config_of _ = record {
  method = "";
  auth_mode = "";
  allowed_content_type = str "";
  max_body_bytes = at 0;
}

abbrev pub text_or : String → String → String
text_or s fallback = if str_eq s "" then fallback else s

-- `WebhookAuthMode(str(config.get("auth_mode") or "NONE").upper())`
abbrev pub mode_of : String → Result AuthMode
mode_of name =
    if str_eq name "NONE"
    then ok no_auth
    else if str_eq name "BASIC"
    then ok basic
    else if str_eq name "HEADER_SIGNATURE"
    then ok header_signature
    else err uncaught

unfoldable pub starts_with : String → String → Bool
starts_with String.[] s = true
starts_with (String.◌∷◌ c p) String.[] = false
starts_with (String.◌∷◌ c p) (String.◌∷◌ d s) = code c == code d && starts_with p s

unfoldable pub drop_chars : ℕ → String → String
drop_chars zero s = s
drop_chars (suc n) String.[] = String.[]
drop_chars (suc n) (String.◌∷◌ c s) = drop_chars n s

-- `lowered = {key.lower(): value …}`, read at a name: of two equal keys the last one counts
unfoldable pub header_among : Gateway → String → List (String × String) → Option String
header_among g name [] = none
header_among g name ((key, value) ∷ rest) = elim (header_among g name rest) [
  | none ↦ if str_eq (g.lower key) name then some value else none
  | some later ↦ some later
]

-- `lowered.get(name, "")`
unfoldable pub header : Gateway → String → List (String × String) → String
unfolding header_among
header g name headers = elim (header_among g name headers) [ none ↦ "" | some value ↦ value ]

-- `len(raw_body) > min(int(… or limit), limit)`
abbrev pub is_too_large : ℕ → ℕ → Number → Bool
is_too_large limit size below = true
is_too_large limit size (at zero) = ltb limit size
is_too_large limit size (at (suc n)) = ltb (if ltb (suc n) limit then suc n else limit) size

abbrev pub type_refused : Gateway → String → Option String → Bool
type_refused g allowed none = false
type_refused g allowed (some content_type) =
    not (str_eq allowed "*")
    && not (str_eq content_type "")
    && not (starts_with (g.lower allowed) (g.lower content_type))

abbrev pub reject_if : Bool → String → Result (Unit {0})
reject_if true reason = err (webhook_rejected reason)
reject_if false reason = ok tt

abbrev pub secret_of : Gateway → Option ℕ → String
secret_of g none = ""
secret_of g (some ref) = elim (g.secret_at ref) [ none ↦ "" | some value ↦ value ]

abbrev pub password_is : String → Option String → Bool
password_is secret none = false
password_is secret (some password) = str_eq password secret

-- `abs(now - sent_at) > tolerance`, in seconds; a moment before 1970 is far from now
abbrev pub is_far : ℕ → Number → Bool
is_far now below = true
is_far now (at sent) = ltb signature_tolerance (now - sent) || ltb signature_tolerance (sent - now)

abbrev pub in_time : ℕ → Option Number → Result (Unit {0})
in_time now none = err (webhook_rejected "WEBHOOK_AUTH_FAILED")
in_time now (some sent) = reject_if (is_far now sent) "WEBHOOK_SIGNATURE_EXPIRED"

-- `signature[7:] if signature.startswith("sha256=") else signature`
unfoldable pub provided : String → String
unfolding starts_with drop_chars
provided signature = if starts_with "sha256=" signature then drop_chars 7 signature else signature

-- HEADER_SIGNATURE
unfoldable pub check_signature : Gateway → ℕ → String → HttpRequest → Result (Unit {0})
unfolding header read_int provided
check_signature g now secret request = do
  let signature = header g (g.lower "X-AppBI-Signature") request.headers
  let timestamp = header g (g.lower "X-AppBI-Timestamp") request.headers
  reject_if (str_eq signature "" || str_eq timestamp "") "WEBHOOK_AUTH_FAILED"
  in_time now (read_int timestamp)
  reject_if (not (str_eq (g.digest secret timestamp request.body) (provided signature)))
      "WEBHOOK_AUTH_FAILED"

-- BASIC
unfoldable pub check_basic : Gateway → String → HttpRequest → Result (Unit {0})
unfolding header starts_with drop_chars
check_basic g secret request = do
  let given = header g "authorization" request.headers
  reject_if (not (starts_with "basic " (g.lower given))) "WEBHOOK_AUTH_FAILED"
  reject_if (not (password_is secret (g.basic_password (drop_chars 6 given)))) "WEBHOOK_AUTH_FAILED"

-- The part of `authenticate_webhook` after the mode is read.
unfoldable pub check_mode : Gateway → ℕ → String → AuthMode → HttpRequest → Result (Unit {0})
unfolding check_basic check_signature
check_mode g now secret no_auth request = ok tt
check_mode g now secret basic request = do
  reject_if (str_eq secret "") "WEBHOOK_SECRET_MISSING"
  check_basic g secret request
check_mode g now secret header_signature request = do
  reject_if (str_eq secret "") "WEBHOOK_SECRET_MISSING"
  check_signature g now secret request

-- `authenticate_webhook`
unfoldable pub authenticate_webhook : Gateway → ℕ → Binding → HttpRequest → Result (Unit {0})
unfolding check_mode str_or starts_with
authenticate_webhook g now b request = do
  let config = config_of b.config
  reject_if (not (str_eq (g.upper request.method) (g.upper (text_or config.method "POST"))))
      "WEBHOOK_METHOD_NOT_ALLOWED"
  reject_if
      (type_refused g (str_or "application/json" (some config.allowed_content_type))
        request.content_type)
      "WEBHOOK_CONTENT_TYPE_INVALID"
  reject_if (is_too_large g.webhook_max_body_bytes request.body_size config.max_body_bytes)
      "WEBHOOK_BODY_TOO_LARGE"
  mode ← mode_of (g.upper (text_or config.auth_mode "NONE"))
  check_mode g now (secret_of g b.webhook_secret_ref) mode request

abbrev pub is_webhook : TriggerType → Bool
is_webhook webhook = true
is_webhook _ = false

abbrev pub has_public_key : String → Option String → Bool
has_public_key key none = false
has_public_key key (some k) = str_eq k key

abbrev pub is_hook : String → Placed → Bool
is_hook key p = has_public_key key p.binding.public_key && is_webhook p.binding.trigger_type

abbrev pub found_hook : Option Placed → Result Placed
found_hook none = err not_found
found_hook (some p) = if p.binding.enabled then ok p else err not_found

abbrev pub require_true : Bool → Result (Unit {0})
require_true true = ok tt
require_true false = err not_found

-- `resolve_webhook`; the function says which workspaces exist
unfoldable pub resolve_webhook : (ℕ → Bool) → List Placed → Store → String → Result Placed
resolve_webhook exists table s key = do
  p ← found_hook (find_first (is_hook key) table)
  require_true (is_some (live_workflow s p.workflow_id))
  require_true (exists p.workspace_id)
  ok p

abbrev pub webhook_request : ℕ → ℕ → Json → Option String → Request
webhook_request workflow version body key = record {
  workflow_id = workflow;
  kind = VersionKind.published;
  trigger_type = TriggerType.webhook;
  start_payload = body;
  idempotency_key = key;
  retry_of = none;
  version_id = some version;
}

abbrev pub bound_version : Option ℕ → Result ℕ
bound_version none = err workflow_not_published
bound_version (some v) = ok v

-- `handle_webhook`; what the row then says of the request, its size, headers and address, is left out
unfoldable pub handle_webhook :
    Env
    → Gateway
    → (ℕ → Bool)
    → List Placed
    → String
    → HttpRequest
    → Json
    → Option String
    → ℕ
    → ℕ
    → Store
    → Result (Execution × Store)
unfolding resolve_webhook authenticate_webhook create
handle_webhook env g exists table key request body idempotency_key seconds now s = do
  p ← resolve_webhook exists table s key
  authenticate_webhook g seconds p.binding request
  version ← bound_version p.binding.workflow_version_id
  create env (system p.workspace_id) (webhook_request p.workflow_id version body idempotency_key)
      now s s
