-- ===== src/Errors.antt =====
-- backend/app/core/errors.py: the exceptions of the services, and a computation that may raise one.
use appbi_integration.Base.{ℕ, String, List, ◌≡◌, refl}
use appbi_integration.Graph.Issue.{Issue}
use appbi_integration.Permissions.{Module, Action, Role, Verdict, granted, forbidden}

-- The exceptions that the services raise. What they say beside their code is left out.
pub data AppError : Type 0 where
  denied : Module → Action → Role → AppError
  workflow_not_found draft_not_found workflow_not_published : AppError
  workflow_already_running : AppError
  quota_exceeded : ℕ → ℕ → AppError
  workflow_invalid : List Issue → AppError
  execution_not_found execution_not_terminal : AppError
  engine_error : String → AppError
  validation_error : String → AppError
  not_found conflict last_owner draft_conflict : AppError
  role_not_assignable override_invalid password_too_weak : AppError
  invalid_credentials account_locked account_disabled session_revoked : AppError
  password_change_needed no_workspace workspace_refused : AppError
  node_unsupported schedule_invalid credential_invalid : AppError
  webhook_rejected : String → AppError
  uncaught : AppError

-- A raise discards what the request has written: its session is rolled back.
pub data Result {ℓ} (A : Type ℓ) : Type ℓ where
  ok : A → Result A
  err : AppError → Result A

infixl 5 ◌>>=◌ ◌>>◌
abbrev pub ◌>>=◌ {ℓ κ} : {S : Type ℓ} {T : Type κ} → Result S → (S → Result T) → Result T
err refusal >>= rest = err refusal
ok value >>= rest = rest value

-- A check, and what follows if it passes.
abbrev pub ◌>>◌ {κ} : {T : Type κ} → Result (Unit {0}) → Result T → Result T
check >> rest = check >>= λ passed. rest

-- `ctx.require(…)`
abbrev pub demand : Verdict → Result (Unit {0})
demand granted = ok tt
demand (forbidden m a r) = err (denied m a r)

-- Inversion of a chain that succeeds.
pub bind-ok {ℓ κ} :
    {S : Type ℓ} {T : Type κ} (r : Result S) (rest : S → Result T) {t : T}
    → (r >>= rest) ≡ ok t
    → (x : S) × (r ≡ ok x) × (rest x ≡ ok t)
bind-ok (err refusal) rest run = cc
bind-ok (ok x) rest run = (x, refl, run)

pub ok-injective {ℓ} : {A : Type ℓ} {a b : A} → ok a ≡ ok b → a ≡ b
ok-injective h = cc
