-- ===== src/Executions/Engine.antt =====
-- backend/app/services/executions.py: `claim_queued`, `dispatch` and `_on_terminal`, with what the
-- engine reports (backend/app/engine/dto.py). What the engine answers is an argument. `dispatch` commits before it calls the engine, so it is two functions: other requests may
-- write between them, and the second writes the row that the first had read.
use Prim.Native.String.{String}
use appbi_integration.Base.{
  ℕ, Bool, true, false, ◌||◌, Option, none, some, List, [], ◌∷◌, ◌++◌, map, leb, ◌==◌, str_eq,
  if◌then◌else◌,
}
use appbi_integration.Base.Lists.{select, take}
use appbi_integration.Json.{Json, null, obj, Fields, end, field, str}
use appbi_integration.Graph.Schema.{put}
use appbi_integration.Graph.Credentials.{collect_credential_ids}
use appbi_integration.Executions.{
  Status, queued, dispatching, running, failed_to_start, is_terminal, Execution, Store, Env, save,
}

-- `EngineNodeResult`, `EngineLogLine` and `EngineExecutionStatus` of backend/app/engine/dto.py. The
-- status is one of the product's own; another text is refused by `ExecutionStatus(…)`.
pub record EngineNodeResult : Type 0 where
  pub node_id : String
  pub node_name : String
  pub status : String
  pub execution_index : ℕ
  pub input_preview : Json
  pub output_preview : Json
  pub error : Json

pub record EngineLogLine : Type 0 where
  pub at : String
  pub level : String
  pub message : String

pub record EngineStatus : Type 0 where
  pub status : Status
  pub started_at : Option ℕ
  pub ended_at : Option ℕ
  pub duration_ms : Option ℕ
  pub error_code : Option String
  pub error_category : Option String
  pub error_message : Option String
  pub failed_node_name : Option String
  pub node_results : List EngineNodeResult
  pub logs : List EngineLogLine
  pub output_summary : Fields
  pub technical : Fields

abbrev pub or_now : Option ℕ → ℕ → Option ℕ
or_now none now = some now
or_now (some t) now = some t

abbrev pub or_old : Option ℕ → Option ℕ → Option ℕ
or_old none old = old
or_old (some t) old = some t

-- `error_code in {"NODE_AUTHENTICATION_FAILED", "CREDENTIAL_INVALID"}`
abbrev is_credential_error : Option String → Bool
is_credential_error none = false
is_credential_error (some code) =
    str_eq code "NODE_AUTHENTICATION_FAILED" || str_eq code "CREDENTIAL_INVALID"

-- `_on_terminal`
unfoldable pub on_terminal : Env → Execution → Store → Store
unfolding collect_credential_ids
on_terminal env e s = record s {
  finished =
      s.finished
      ++ record {
        execution_id = e.id;
        status = e.status;
        invalid_credentials =
            if is_credential_error e.error_code
            then collect_credential_ids e.graph_snapshot env.definitions
            else [];
      }
        ∷ [];
}

-- A row is written, and the run has ended.
unfoldable pub finish : Env → Execution → Store → Store
unfolding on_terminal save
finish env e s = on_terminal env e (save e s)

-- `claim_queued` and the loop's own update: a queued row is claimed for dispatch.
unfoldable pub claim : Execution → Execution
claim e = record e { status = dispatching }

-- `select(…).where(status == QUEUED).order_by(queued_at).limit(limit)`
abbrev pub is_queued : Execution → Bool
is_queued e = elim e.status [ queued ↦ true | _ ↦ false ]

unfoldable pub insert_by_queue : Execution → List Execution → List Execution
insert_by_queue e [] = e ∷ []
insert_by_queue e (f ∷ rest) =
    let later = insert_by_queue e rest in
    if leb e.queued_at f.queued_at then e ∷ f ∷ rest else f ∷ later

unfoldable pub sort_by_queue : List Execution → List Execution
unfolding insert_by_queue
sort_by_queue [] = []
sort_by_queue (e ∷ rest) = insert_by_queue e (sort_by_queue rest)

unfoldable pub claim_queued : Store → ℕ → List Execution
unfolding sort_by_queue
claim_queued s limit = take limit (sort_by_queue (select is_queued s.executions))

-- `_payload_for_engine`
abbrev pub open_sealed : Env → Option String → Option Json
open_sealed env none = none
open_sealed env (some token) = if str_eq token "" then none else env.open_token token

abbrev preview_or_empty : Json → Json
preview_or_empty null = obj end
preview_or_empty preview = preview

unfoldable pub payload_for_engine : Env → Execution → Json
payload_for_engine env e = elim (open_sealed env e.start_payload_sealed) [
  | none ↦ preview_or_empty e.start_payload
  | some payload ↦ payload
]

-- The first half of `dispatch`, up to the commit.
unfoldable pub dispatch_begin : ℕ → Execution → Execution
dispatch_begin now e = record e { status = dispatching; last_seen_at = some now }

-- What `adapter.execute` does: it answers with a reference, or raises.
pub data ExecuteAnswer : Type 0 where
  accepted : String → ExecuteAnswer
  unavailable : String → ExecuteAnswer
  rejected : String → String → String → ExecuteAnswer

-- `{**a, **b}`
unfoldable pub merge : Fields → Fields → Fields
unfolding put
merge a end = a
merge a (field key value b) = merge (put key value a) b

-- The second half of `dispatch`, from the engine's answer on. `e` is the worker's object, as the
-- first half left it; the UPDATE sets the columns that it changed, on the row as it is by then.
unfoldable pub dispatch_end : ExecuteAnswer → ℕ → Execution → Execution → Execution
unfolding put
dispatch_end (accepted ref) now e row = record row {
  engine_ref = some ref;
  status = running;
  started_at = or_now e.started_at now;
  last_seen_at = some now;
}
dispatch_end (unavailable message) now e row = record row {
  status = queued;
  error_code = some "ENGINE_UNAVAILABLE";
  error_summary = some message;
}
dispatch_end (rejected code category message) now e row = record row {
  status = failed_to_start;
  error_code = some code;
  error_category = some category;
  error_summary = some message;
  ended_at = some now;
  technical_metadata = put "dispatch_error" (str message) e.technical_metadata;
}

abbrev pub amend_row : ℕ → (Execution → Execution) → Execution → Execution
amend_row id f row = if row.id == id then f row else row

-- `UPDATE executions SET … WHERE id = …`
unfoldable pub amend : ℕ → (Execution → Execution) → Store → Store
amend id f s = record s { executions = map (amend_row id f) s.executions }

-- A run that the engine refuses has ended.
unfoldable pub dispatch_answered : Env → ExecuteAnswer → ℕ → Execution → Store → Store
unfolding dispatch_end on_terminal amend
dispatch_answered env answer now e s =
    let after = dispatch_end answer now e e in
    let s' = amend e.id (dispatch_end answer now e) s in
    if is_terminal after.status then on_terminal env after s' else s'
