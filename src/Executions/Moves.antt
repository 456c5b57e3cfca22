-- ===== src/Executions/Moves.antt =====
-- backend/app/services/executions.py: the life of one row, as a relation. A move is what one
-- operation writes when no other request writes the row between its read and its write. The functions that
-- write do not look at the status themselves; a move has the status that their caller has looked for:
-- the query of `claim_queued` for `claimed`, the rows that `dispatch_loop` has claimed for `begun`
-- and `answered`, the query of `active_executions` for `seen`, `ended` and `interrupted`, and the
-- returns on a terminal status in `_interrupt_if_stale` and `cancel` for the others.
use appbi_integration.Base.{ℕ, String, ◌≡◌, refl, ◌∙◌, true, is_some, arith}
use appbi_integration.Executions.{queued, dispatching, is_terminal, is_active, Execution}
use appbi_integration.Executions.Engine.{
  EngineStatus, ExecuteAnswer, accepted, unavailable, rejected, claim, dispatch_begin, dispatch_end,
}
use appbi_integration.Executions.Ingest.{
  still_running, ended_row, interrupted_row, never_started_row,
}
use appbi_integration.Executions.Control.{request_cancel, cancelled_row}

pub data Move : Execution → Execution → Type 0 where
  claimed : (e : Execution) → e.status ≡ queued → Move e (claim e)
  begun : (e : Execution) (now : ℕ) → e.status ≡ dispatching → Move e (dispatch_begin now e)
  answered :
      (e : Execution) (answer : ExecuteAnswer) (now : ℕ)
      → e.status ≡ dispatching
      → Move e (dispatch_end answer now e e)
  seen : (e : Execution) (now : ℕ) → is_active e.status ≡ true → Move e (still_running now e)
  ended :
      (e : Execution) (status : EngineStatus) (now : ℕ)
      → is_active e.status ≡ true
      → is_terminal status.status ≡ true
      → Move e (ended_row status now e)
  interrupted :
      (e : Execution) (reason : String) (now : ℕ)
      → is_active e.status ≡ true
      → Move e (interrupted_row reason now e)
  never_started :
      (e : Execution) (now : ℕ) → is_active e.status ≡ true → Move e (never_started_row now e)
  asked : (e : Execution) → is_active e.status ≡ true → Move e (request_cancel e)
  stopped : (e : Execution) (now : ℕ) → is_active e.status ≡ true → Move e (cancelled_row now e)

pub data Moves (e : Execution) : Execution → Type 0 where
  here : Moves e e
  next : {f g : Execution} → Moves e f → Move f g → Moves e g

-- A run has an end time exactly when its status is terminal.
abbrev pub IsDated : Execution → Type 0
IsDated e = is_some e.ended_at ≡ is_terminal e.status

-- What no operation may touch: where the run belongs, and what it is frozen to.
pub record SameRun (e f : Execution) : Type 0 where
  pub id : f.id ≡ e.id
  pub workspace_id : f.workspace_id ≡ e.workspace_id
  pub workflow_id : f.workflow_id ≡ e.workflow_id
  pub graph_snapshot : f.graph_snapshot ≡ e.graph_snapshot
  pub start_payload_sealed : f.start_payload_sealed ≡ e.start_payload_sealed
  pub idempotency_key : f.idempotency_key ≡ e.idempotency_key
  pub retry_of : f.retry_of ≡ e.retry_of

SameRun-refl : (e : Execution) → SameRun e e
SameRun-refl e = record {
  id = refl;
  workspace_id = refl;
  workflow_id = refl;
  graph_snapshot = refl;
  start_payload_sealed = refl;
  idempotency_key = refl;
  retry_of = refl;
}

pub Move-SameRun : {e f : Execution} → Move e f → SameRun e f
unfolding claim dispatch_begin dispatch_end still_running ended_row interrupted_row
    never_started_row cancelled_row
Move-SameRun (claimed e h) = ground arith
Move-SameRun (begun e now h) = ground arith
Move-SameRun (answered e (accepted ref) now h) = ground arith
Move-SameRun (answered e (unavailable m) now h) = ground arith
Move-SameRun (answered e (rejected c k m) now h) = ground arith
Move-SameRun (seen e now h) = ground arith
Move-SameRun (ended e status now h t) = ground arith
Move-SameRun (interrupted e reason now h) = ground arith
Move-SameRun (never_started e now h) = ground arith
Move-SameRun (asked e h) = ground arith
Move-SameRun (stopped e now h) = ground arith

pub Move-IsDated : {e f : Execution} → Move e f → IsDated e → IsDated f
unfolding claim dispatch_begin dispatch_end still_running ended_row interrupted_row
    never_started_row cancelled_row
Move-IsDated (claimed e h) d = ground arith
Move-IsDated (begun e now h) d = ground arith
Move-IsDated (answered e (accepted ref) now h) d = ground arith
Move-IsDated (answered e (unavailable m) now h) d = ground arith
Move-IsDated (answered e (rejected c k m) now h) d = ground arith
Move-IsDated (seen e now h) d = ground arith
Move-IsDated (ended e status now h t) d = ground arith
Move-IsDated (interrupted e reason now h) d = ground arith
Move-IsDated (never_started e now h) d = ground arith
Move-IsDated (asked e h) d = ground arith
Move-IsDated (stopped e now h) d = ground arith

SameRun-trans : {e f g : Execution} → SameRun e f → SameRun f g → SameRun e g
SameRun-trans p q = record {
  id = q.id ∙ p.id;
  workspace_id = q.workspace_id ∙ p.workspace_id;
  workflow_id = q.workflow_id ∙ p.workflow_id;
  graph_snapshot = q.graph_snapshot ∙ p.graph_snapshot;
  start_payload_sealed = q.start_payload_sealed ∙ p.start_payload_sealed;
  idempotency_key = q.idempotency_key ∙ p.idempotency_key;
  retry_of = q.retry_of ∙ p.retry_of;
}

pub Moves-SameRun : {e f : Execution} → Moves e f → SameRun e f
Moves-SameRun {e} here = SameRun-refl e
Moves-SameRun (next ms m) = SameRun-trans (Moves-SameRun ms) (Move-SameRun m)
