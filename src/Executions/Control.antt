-- ===== src/Executions/Control.antt =====
-- backend/app/services/executions.py: `get`, `cancel` and `retry`.
use appbi_integration.Base.{ℕ, String, ◌&&◌, none, some, [], ◌∷◌, ◌++◌, ◌==◌, if◌then◌else◌}
use appbi_integration.Base.Lists.{find_first}
use appbi_integration.Permissions.{Module, Action}
use appbi_integration.Context.{RequestContext, require_context}
use appbi_integration.Executions.{
  cancel_requested, cancelled, is_terminal, Execution, Store, Env, save, Result, ok, err, ◌>>=◌,
  ◌>>◌, demand, execution_not_found, execution_not_terminal, engine_error,
}
use appbi_integration.Executions.Create.{Request, create}
use appbi_integration.Executions.Engine.{EngineStatus, payload_for_engine}
use appbi_integration.Executions.Ingest.{ingest}

-- `get(session, ctx, execution_id)`
unfoldable pub get : Store → RequestContext → ℕ → Result Execution
get s ctx execution_id =
    elim (find_first (λ e. e.id == execution_id && e.workspace_id == ctx.workspace_id)
      s.executions) [ none ↦ err execution_not_found | some e ↦ ok e ]

-- What `adapter.cancel` does.
pub data CancelAnswer : Type 0 where
  stopped : EngineStatus → CancelAnswer
  unreachable : CancelAnswer
  failed : String → CancelAnswer

unfoldable pub record_cancel : ℕ → Store → Store
record_cancel id s = record s {
  audit = s.audit ++ record { action = "execution.cancel_requested"; resource_id = id } ∷ [];
}

abbrev pub request_cancel : Execution → Execution
request_cancel e = record e { status = cancel_requested }

-- The row of a run that was cancelled before it was dispatched.
unfoldable pub cancelled_row : ℕ → Execution → Execution
cancelled_row now e = record e { status = cancelled; ended_at = some now }

-- `cancel` of a run that has not ended.
unfoldable pub cancel_active : Env → CancelAnswer → ℕ → Execution → Store → Result Store
unfolding ingest save record_cancel cancelled_row
cancel_active env answer now e s =
    let asked = request_cancel e in
    let s' = save asked s in
    elim e.engine_ref [
      | none ↦ ok (record_cancel e.id (save (cancelled_row now asked) s'))
      | some ref ↦ elim answer [
        | stopped status ↦ ok (record_cancel e.id (ingest env status now asked s'))
        | unreachable ↦ ok (record_cancel e.id s')
        | failed code ↦ err (engine_error code)
      ]
    ]

-- `cancel(session, ctx, execution_id)`
unfoldable pub cancel : Env → RequestContext → CancelAnswer → ℕ → ℕ → Store → Result Store
unfolding get cancel_active
cancel env ctx answer now execution_id s = do
  demand (require_context ctx Module.executions Action.execute)
  e ← get s ctx execution_id
  if is_terminal e.status then ok s else cancel_active env answer now e s

-- The request that `retry` makes of `create`.
unfoldable pub retry_request : Env → Execution → Request
unfolding payload_for_engine
retry_request env original = record {
  workflow_id = original.workflow_id;
  kind = original.version_kind;
  trigger_type = original.trigger_type;
  start_payload = payload_for_engine env original;
  idempotency_key = none;
  retry_of = some original.id;
  version_id = original.workflow_version_id;
}

-- `retry(session, ctx, execution_id)`
unfoldable pub retry : Env → RequestContext → ℕ → ℕ → Store → Result (Execution × Store)
unfolding get retry_request create
retry env ctx execution_id now s = do
  demand (require_context ctx Module.executions Action.execute)
  original ← get s ctx execution_id
  if is_terminal original.status
      then create env ctx (retry_request env original) now s s
      else err execution_not_terminal
