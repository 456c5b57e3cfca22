-- ===== src/Executions/Ingest.antt =====
-- backend/app/services/executions.py: `poll`, `ingest`, `mark_interrupted`; and
-- `_interrupt_if_stale` of backend/app/worker.py. What the engine answers is an argument.
use Prim.Native.String.{String}
use appbi_integration.Base.{
  ℕ, zero, suc, ◌+◌, ◌-◌, Bool, true, false, not, Option, none, some, List, [], ◌∷◌, ◌++◌, map, ltb,
  ◌==◌, str_eq, if◌then◌else◌,
}
use appbi_integration.Base.Lists.{select}
use appbi_integration.Json.{truthy, null, Json, get}
use appbi_integration.Json.Text.{str_or, py_str}
use appbi_integration.Graph.Schema.{as_fields, as_list}
use appbi_integration.Executions.{
  Status, dispatching, running, failed_to_start, engine_interrupted, is_terminal, Execution,
  NodeRow, LogRow, Store, Env, save, Result, ok, err, engine_error,
}
use appbi_integration.Executions.Engine.{
  EngineLogLine, EngineNodeResult, EngineStatus, finish, merge, or_now, or_old,
}

-- `_node_key_for`
-- `str(d.get(key))`
abbrev str_of : Option Json → String
str_of none = "None"
str_of (some x) = py_str x

unfoldable pub node_key_among : String → List Json → String
unfolding str_or py_str get
node_key_among node_id [] = "unknown"
node_key_among node_id (node ∷ nodes) =
    let later = node_key_among node_id nodes in
    if str_eq (str_of (get "id" (as_fields (some node)))) node_id
    then str_or "unknown" (get "node_key" (as_fields (some node)))
    else later

unfoldable pub node_row : Env → Execution → EngineNodeResult → NodeRow
unfolding node_key_among get
node_row env e result = record {
  execution_id = e.id;
  node_id = result.node_id;
  node_key = node_key_among result.node_id (as_list (get "nodes" e.graph_snapshot));
  node_name = result.node_name;
  status = result.status;
  execution_index = result.execution_index;
  input_preview = env.bounded_preview result.input_preview;
  output_preview = env.bounded_preview result.output_preview;
  error = if truthy result.error then env.redact result.error else null;
}

-- `message[:n]`
unfoldable pub clip : ℕ → String → String
clip zero s = String.[]
clip (suc n) String.[] = String.[]
clip (suc n) (String.◌∷◌ c s) = String.◌∷◌ c (clip n s)

abbrev or_time : Option ℕ → ℕ → ℕ
or_time none now = now
or_time (some t) now = t

abbrev pub max_message : ℕ
max_message = 4000

unfoldable pub log_row : Env → Execution → ℕ → ℕ → EngineLogLine → LogRow
unfolding clip
log_row env e now sequence line = record {
  execution_id = e.id;
  sequence = sequence;
  at = or_time (env.parse_time line.at) now;
  level = line.level;
  message = clip max_message line.message;
}

-- `for index, line in enumerate(status.logs)`
unfoldable pub log_rows_from : Env → Execution → ℕ → ℕ → List EngineLogLine → List LogRow
unfolding log_row
log_rows_from env e now index [] = []
log_rows_from env e now index (line ∷ lines) =
    log_row env e now index line ∷ log_rows_from env e now (suc index) lines

-- The rows of the run are deleted, and the reported ones added.
unfoldable pub replace_rows : Env → Execution → EngineStatus → ℕ → Store → Store
unfolding node_row log_rows_from
replace_rows env e status now s = record s {
  node_rows =
      select (λ r. not (r.execution_id == e.id)) s.node_rows
      ++ map (node_row env e) status.node_results;
  log_rows =
      select (λ r. not (r.execution_id == e.id)) s.log_rows
      ++ log_rows_from env e now 0 status.logs;
}

-- `ingest` while the engine still runs: a row that was only being dispatched is running.
unfoldable pub still_running : ℕ → Execution → Execution
still_running now e = elim e.status [
  | dispatching ↦ record e {
    status = running;
    started_at = or_now e.started_at now;
    last_seen_at = some now;
  }
  | _ ↦ record e { last_seen_at = some now }
]

-- The row that `ingest` writes for a run that is no longer running.
unfoldable pub ended_row : EngineStatus → ℕ → Execution → Execution
unfolding merge
ended_row status now e = record e {
  status = status.status;
  started_at = or_old status.started_at e.started_at;
  ended_at = or_now status.ended_at now;
  duration_ms = status.duration_ms;
  error_code = status.error_code;
  error_category = status.error_category;
  error_summary = status.error_message;
  failed_node_name = status.failed_node_name;
  output_summary = status.output_summary;
  technical_metadata = merge e.technical_metadata status.technical;
  last_seen_at = some now;
}

abbrev pub is_running : Status → Bool
is_running running = true
is_running _ = false

-- `ingest(session, execution, status)`
unfoldable pub ingest : Env → EngineStatus → ℕ → Execution → Store → Store
unfolding still_running ended_row replace_rows finish save
ingest env status now e s =
    if is_running status.status
    then save (still_running now e) s
    else finish env (ended_row status now e) (replace_rows env e status now s)

abbrev elapsed : Option ℕ → ℕ → Option ℕ → Option ℕ
elapsed none now old = old
elapsed (some started) now old = some (now - started)

-- The row that `mark_interrupted` writes.
unfoldable pub interrupted_row : String → ℕ → Execution → Execution
interrupted_row reason now e = record e {
  status = engine_interrupted;
  error_code = some "ENGINE_INTERRUPTED";
  error_category = some "ENGINE";
  error_summary = some reason;
  ended_at = some now;
  duration_ms = elapsed e.started_at now e.duration_ms;
}

unfoldable pub mark_interrupted : Env → String → ℕ → Execution → Store → Store
unfolding interrupted_row finish
mark_interrupted env reason now e s = finish env (interrupted_row reason now e) s

-- What `adapter.get_execution` does.
pub data PollAnswer : Type 0 where
  reported : EngineStatus → PollAnswer
  silent : PollAnswer
  unknown_execution : PollAnswer
  refused : String → PollAnswer

-- What `poll` makes of the answer.
unfoldable pub poll_answered : Env → PollAnswer → ℕ → Execution → Store → Result Store
unfolding ingest mark_interrupted
poll_answered env (reported status) now e s = ok (ingest env status now e s)
poll_answered env silent now e s = ok s
poll_answered env unknown_execution now e s =
    ok (mark_interrupted env "Engine không còn thông tin lần chạy này." now e s)
poll_answered env (refused code) now e s = err (engine_error code)

-- `poll(session, execution)`
unfoldable pub poll : Env → PollAnswer → ℕ → Execution → Store → Result Store
unfolding poll_answered
poll env answer now e s = elim e.engine_ref [
  | none ↦ ok s
  | some ref ↦ poll_answered env answer now e s
]

-- The row that `_interrupt_if_stale` writes for a run that was never dispatched.
unfoldable pub never_started_row : ℕ → Execution → Execution
never_started_row now e = record e {
  status = failed_to_start;
  error_code = some "ENGINE_UNAVAILABLE";
  error_category = some "ENGINE";
  error_summary = some "Không dispatch được tới engine trong thời gian cho phép.";
  ended_at = some now;
}

-- `utcnow() - reference > stale_after`
abbrev pub is_stale : Env → ℕ → Execution → Bool
is_stale env now e = ltb (or_time e.last_seen_at e.queued_at + env.stale_after_ms) now

-- What is done with a run that is stale: the engine lost it, or never had it.
unfoldable pub interrupt_stale : Env → ℕ → Execution → Store → Option String → Store
unfolding never_started_row mark_interrupted finish
interrupt_stale env now e s none = finish env (never_started_row now e) s
interrupt_stale env now e s (some ref) =
    mark_interrupted env "Engine không xác nhận lần chạy này trong thời gian cho phép." now e s

-- `_interrupt_if_stale(session, execution)`
unfoldable pub interrupt_if_stale : Env → ℕ → Execution → Store → Store
unfolding interrupt_stale
interrupt_if_stale env now e s =
    if is_terminal e.status
    then s
    else if not (is_stale env now e)
    then s
    else interrupt_stale env now e s e.engine_ref
