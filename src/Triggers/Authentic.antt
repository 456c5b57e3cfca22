-- ===== src/Triggers/Authentic.antt =====
-- backend/app/services/triggers.py: what a webhook that is accepted has shown.
use Prim.Native.String.{String}
use appbi_integration.Base.{
  ℕ, ◌-◌, ◌≤◌, ◌≡◌, refl, ap, ◌∙◌, subst, Bool, true, false, not, ◌||◌, Option, none, some, List,
  ltb, ltb-false, arith, str_eq, is_some, if◌then◌else◌,
}
use appbi_integration.Base.Lists.{find_first}
use appbi_integration.Json.{Json}
use appbi_integration.Json.Text.{str_or}
use appbi_integration.Context.{system}
use appbi_integration.Errors.{ok, err, bind-ok, ok-injective, not_found}
use appbi_integration.Executions.{Execution, Store, Env}
use appbi_integration.Executions.Create.{create}
use appbi_integration.Schedules.Parse.{Number, below, at, read_int}
use appbi_integration.Workflows.Flow.{Binding}
use appbi_integration.Triggers.{Placed, live_workflow}
use appbi_integration.Triggers.Webhook.{
  signature_tolerance, Gateway, HttpRequest, AuthMode, no_auth, basic, header_signature, config_of,
  text_or, mode_of, type_refused, is_too_large, reject_if, secret_of, password_is, is_far, in_time,
  provided, header, starts_with, drop_chars, check_signature, check_basic, check_mode,
  authenticate_webhook, is_hook, found_hook, require_true, resolve_webhook, webhook_request,
  bound_version, handle_webhook,
}

-- A secret that is not blank, and the digest of it over the request, at a time near this one.
abbrev pub IsSigned : Gateway → ℕ → String → HttpRequest → Type 0
IsSigned g now secret request =
    (str_eq secret "" ≡ false)
    × ((sent : ℕ) × (read_int (header g (g.lower "X-AppBI-Timestamp") request.headers)
          ≡ some (at sent))
        × (now - sent ≤ signature_tolerance)
        × (sent - now ≤ signature_tolerance)
        × (str_eq
              (g.digest secret (header g (g.lower "X-AppBI-Timestamp") request.headers)
                request.body)
              (provided (header g (g.lower "X-AppBI-Signature") request.headers))
            ≡ true))

-- A secret that is not blank, as the password of a basic authorization.
abbrev pub HasPassword : Gateway → String → HttpRequest → Type 0
HasPassword g secret request =
    (str_eq secret "" ≡ false)
    × (password_is secret
          (g.basic_password (drop_chars 6 (header g "authorization" request.headers)))
        ≡ true)

abbrev pub Shown : Gateway → ℕ → String → HttpRequest → AuthMode → Type 0
Shown g now secret request no_auth = Unit {0}
Shown g now secret request basic = HasPassword g secret request
Shown g now secret request header_signature = IsSigned g now secret request

not_rejected : (b : Bool) (reason : String) → reject_if b reason ≡ ok tt → b ≡ false
not_rejected true reason h = cc
not_rejected false reason h = refl

in_time-near :
    (now : ℕ) (o : Option Number)
    → in_time now o ≡ ok tt
    → (sent : ℕ) × (o ≡ some (at sent))
      × (now - sent ≤ signature_tolerance)
      × (sent - now ≤ signature_tolerance)
in_time-near now none h = cc
in_time-near now (some below) h = cc
in_time-near now (some (at sent)) h =
    let near = not_rejected (is_far now (at sent)) "WEBHOOK_SIGNATURE_EXPIRED" h in
    let (a, b) =
      both (ltb signature_tolerance (now - sent)) (ltb signature_tolerance (sent - now)) near in
    (
      sent,
      refl,
      ltb-false signature_tolerance (now - sent) a,
      ltb-false signature_tolerance (sent - now) b,
    )
  where
    both : (a b : Bool) → (a || b) ≡ false → (a ≡ false) × (b ≡ false)
    both a b h = ground arith

un_not : (b : Bool) → not b ≡ false → b ≡ true
un_not b h = ground arith

check_signature-IsSigned :
    (g : Gateway) (now : ℕ) (secret : String) (request : HttpRequest)
    → str_eq secret "" ≡ false
    → check_signature g now secret request ≡ ok tt
    → IsSigned g now secret request
unfolding check_signature
check_signature-IsSigned g now secret request filled h =
    let signature = header g (g.lower "X-AppBI-Signature") request.headers in
    let timestamp = header g (g.lower "X-AppBI-Timestamp") request.headers in
    let (a, present, h1) =
      bind-ok (reject_if (str_eq signature "" || str_eq timestamp "") "WEBHOOK_AUTH_FAILED") _ h in
    let (b, timely, h2) = bind-ok (in_time now (read_int timestamp)) _ h1 in
    let (sent, stamped, late, early) = in_time-near now (read_int timestamp) timely in
    (
      filled,
      (
        sent,
        stamped,
        late,
        early,
        un_not (str_eq (g.digest secret timestamp request.body) (provided signature))
            (not_rejected _ "WEBHOOK_AUTH_FAILED" h2),
      ),
    )

check_basic-HasPassword :
    (g : Gateway) (secret : String) (request : HttpRequest)
    → str_eq secret "" ≡ false
    → check_basic g secret request ≡ ok tt
    → HasPassword g secret request
unfolding check_basic
check_basic-HasPassword g secret request filled h =
    let given = header g "authorization" request.headers in
    let (a, marked, h1) =
      bind-ok (reject_if (not (starts_with "basic " (g.lower given))) "WEBHOOK_AUTH_FAILED") _ h in
    (
      filled,
      un_not (password_is secret (g.basic_password (drop_chars 6 given)))
          (not_rejected _ "WEBHOOK_AUTH_FAILED" h1),
    )

check_mode-Shown :
    (g : Gateway) (now : ℕ) (secret : String) (mode : AuthMode) (request : HttpRequest)
    → check_mode g now secret mode request ≡ ok tt
    → Shown g now secret request mode
unfolding check_mode
check_mode-Shown g now secret no_auth request h = tt
check_mode-Shown g now secret basic request h =
    let (a, filled, h1) = bind-ok (reject_if (str_eq secret "") "WEBHOOK_SECRET_MISSING") _ h in
    check_basic-HasPassword g secret request
      (not_rejected (str_eq secret "") "WEBHOOK_SECRET_MISSING" filled) h1
check_mode-Shown g now secret header_signature request h =
    let (a, filled, h1) = bind-ok (reject_if (str_eq secret "") "WEBHOOK_SECRET_MISSING") _ h in
    check_signature-IsSigned g now secret request
      (not_rejected (str_eq secret "") "WEBHOOK_SECRET_MISSING" filled) h1

-- What the gateway has checked of an accepted request: its size, and its proof by the mode of the binding.
abbrev pub Authentic : Gateway → ℕ → Binding → HttpRequest → Type 0
Authentic g now b request =
    (is_too_large g.webhook_max_body_bytes request.body_size (config_of b.config).max_body_bytes
      ≡ false)
    × ((mode : AuthMode) × (mode_of (g.upper (text_or (config_of b.config).auth_mode "NONE"))
          ≡ ok mode)
        × Shown g now (secret_of g b.webhook_secret_ref) request mode)

authenticate_webhook-Authentic :
    (g : Gateway) (now : ℕ) (b : Binding) (request : HttpRequest)
    → authenticate_webhook g now b request ≡ ok tt
    → Authentic g now b request
unfolding authenticate_webhook
authenticate_webhook-Authentic g now b request h =
    let config = config_of b.config in
    let (p, right, h1) =
      bind-ok
        (reject_if (not (str_eq (g.upper request.method) (g.upper (text_or config.method "POST"))))
          "WEBHOOK_METHOD_NOT_ALLOWED")
        _ h in
    let (q, typed, h2) =
      bind-ok
        (reject_if
          (type_refused g (str_or "application/json" (some config.allowed_content_type))
            request.content_type)
          "WEBHOOK_CONTENT_TYPE_INVALID")
        _ h1 in
    let (r, small, h3) =
      bind-ok
        (reject_if (is_too_large g.webhook_max_body_bytes request.body_size config.max_body_bytes)
          "WEBHOOK_BODY_TOO_LARGE")
        _ h2 in
    let (mode, known, h4) = bind-ok (mode_of (g.upper (text_or config.auth_mode "NONE"))) _ h3 in
    (
      not_rejected _ "WEBHOOK_BODY_TOO_LARGE" small,
      (mode, known, check_mode-Shown g now (secret_of g b.webhook_secret_ref) mode request h4),
    )

found_enabled :
    (o : Option Placed) (p : Placed)
    → found_hook o ≡ ok p
    → (o ≡ some p) × (p.binding.enabled ≡ true)
found_enabled none p h = cc
found_enabled (some q) p h = go q.binding.enabled refl h
  where
    go :
        (b : Bool)
        → q.binding.enabled ≡ b
        → (if b then ok q else err not_found) ≡ ok p
        → ◌≡◌ {A = Option Placed} (some q) (some p) × (p.binding.enabled ≡ true)
    go true k same = (
      ap (λ (x : Placed). some x) (ok-injective same),
      subst (λ (x : Placed). x.binding.enabled ≡ true) (ok-injective same) k,
    )
    go false k same = cc

bound_version-some : (o : Option ℕ) (v : ℕ) → bound_version o ≡ ok v → o ≡ some v
bound_version-some none v h = cc
bound_version-some (some w) v h = cc

-- A webhook that makes a run was addressed by the public key of an enabled binding, was not larger than
-- allowed, and was authentic in the mode of the binding: signed with its secret within five minutes, or
-- with its secret as the password, or the mode is NONE. The run is `create`'s, of the pinned version.
pub handle_webhook-Authentic :
    (env : Env) (g : Gateway) (exists : ℕ → Bool) (table : List Placed) (key : String)
    (request : HttpRequest) (body : Json) (idempotency_key : Option String) (seconds now : ℕ)
    (s s' : Store) (e : Execution)
    → handle_webhook env g exists table key request body idempotency_key seconds now s ≡ ok (e, s')
    → (p : Placed) × (version : ℕ) × (find_first (is_hook key) table ≡ some p)
      × (p.binding.enabled ≡ true)
      × Authentic g seconds p.binding request
      × (p.binding.workflow_version_id ≡ some version)
      × (create env
            (system p.workspace_id)
            (webhook_request p.workflow_id version body idempotency_key)
            now
            s
            s
          ≡ ok (e, s'))
unfolding handle_webhook resolve_webhook
handle_webhook-Authentic env g exists table key request body idempotency_key seconds now s s' e h =
    let (p, resolved, h1) = bind-ok (resolve_webhook exists table s key) _ h in
    let (q, found, r1) = bind-ok (found_hook (find_first (is_hook key) table)) _ resolved in
    let (a, live, r2) = bind-ok (require_true (is_some (live_workflow s q.workflow_id))) _ r1 in
    let (b, there, r3) = bind-ok (require_true (exists q.workspace_id)) _ r2 in
    let (c, authentic, h2) = bind-ok (authenticate_webhook g seconds p.binding request) _ h1 in
    let (version, bound, h3) = bind-ok (bound_version p.binding.workflow_version_id) _ h2 in
    let (here, on) =
      found_enabled (find_first (is_hook key) table) p
        (found ∙ ap (λ (x : Placed). ok x) (ok-injective r3)) in
    (
      p,
      version,
      here,
      on,
      authenticate_webhook-Authentic g seconds p.binding request authentic,
      bound_version-some p.binding.workflow_version_id version bound,
      h3,
    )
