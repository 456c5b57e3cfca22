-- ===== src/Tests/Lives.antt =====
-- backend/app/services/executions.py and backend/app/worker.py: the later life of a run.
use mathlib.Core.List.{Memᴰ}
use appbi_integration.Base.{◌≡◌, [], refl, inr, true, false, some}
use appbi_integration.Permissions.{Module, Action, granted}
use appbi_integration.Context.{require_context}
use appbi_integration.Executions.{
  running, succeeded, failed, Execution, Store, is_terminal, is_active, ok, save,
}
use appbi_integration.Executions.Create.{new_execution, insert}
use appbi_integration.Executions.Engine.{
  EngineStatus, accepted, claim, dispatch_begin, dispatch_end, dispatch_answered,
}
use appbi_integration.Executions.Ingest.{
  reported, ended_row, ingest, poll, is_stale, interrupt_if_stale,
}
use appbi_integration.Executions.Control.{
  CancelAnswer, unreachable, cancel, cancelled_row, request_cancel,
}
use appbi_integration.Executions.Control
use appbi_integration.Executions.Moves.{
  Moves, here, next, claimed, begun, answered, ended, IsDated, SameRun,
}
use appbi_integration.Executions.Lifecycle.{
  run_history, WritesMove, poll-WritesMove, interrupt_if_stale-WritesMove,
}
use appbi_integration.Executions.Rows.{ingest_replaces}
use appbi_integration.Executions.Cancel.{cancel_settles, cancel_lost}
use appbi_integration.Executions.Reconcile.{active_executions, reconcile, reconcile_ends}
use appbi_integration.Executions.Ingest.{silent, mark_interrupted, interrupt_stale}
use appbi_integration.Executions.{cancelled}
use appbi_integration.Executions.Control.{stopped, cancel_active, record_cancel}
use appbi_integration.Executions.Slots.{IsOnlyRow, Releases, endings_release}
use appbi_integration.Executions.Stopping.{WritesMoves, cancel_active-WritesMoves}
use appbi_integration.Tests.Data.{
  env, ctx, workflow, artefact, request, queued_run, one_run, report,
}

abbrev claimed_run : Execution
claimed_run = claim queued_run

abbrev sent_run : Execution
sent_run = dispatch_begin 11 claimed_run

abbrev running_run : Execution
running_run = dispatch_end (accepted "ref-1") 12 sent_run sent_run

abbrev ended_run : Execution
ended_run = ended_row (report succeeded) 20 running_run

to_end : Moves queued_run ended_run
unfolding new_execution claim dispatch_begin dispatch_end
to_end =
    next
      (next (next (next here (claimed queued_run refl)) (begun claimed_run 11 refl))
        (answered sent_run (accepted "ref-1") 12 refl))
      (ended running_run (report succeeded) 20 refl refl)

run_history_example : IsDated ended_run × SameRun queued_run ended_run
run_history_example = run_history env ctx request workflow artefact 1 10 ended_run to_end

-- The store with the run in flight.
abbrev busy_store : Store
busy_store = save running_run one_run

abbrev polled_store : Store
polled_store = ingest env (report succeeded) 20 running_run busy_store

in_flight : is_active running_run.status ≡ true
unfolding dispatch_end
in_flight = refl

answers_run : poll env (reported (report succeeded)) 20 running_run busy_store ≡ ok polled_store
unfolding poll dispatch_end
answers_run = refl

reports_ended :
    (status : EngineStatus)
    → reported (report succeeded) ≡ reported status
    → (status.status ≡ succeeded)
reports_ended status p = cc

poll-WritesMove_example : WritesMove running_run busy_store polled_store
poll-WritesMove_example =
    poll-WritesMove env (reported (report succeeded)) 20 running_run busy_store polled_store
      in_flight (λ status p. inr (rw (reports_ended status p) refl)) answers_run

interrupt_if_stale-WritesMove_example :
    WritesMove running_run busy_store (interrupt_if_stale env 5000 running_run busy_store)
interrupt_if_stale-WritesMove_example =
    interrupt_if_stale-WritesMove env 5000 running_run busy_store

recent : is_stale env 500 running_run ≡ false
unfolding dispatch_end
recent = refl

ingest_replaces_example :
    ((ingest env
        (report failed)
        25
        running_run
        (ingest env (report succeeded) 20 running_run busy_store)).node_rows
      ≡ (ingest env (report failed) 25 running_run busy_store).node_rows)
    × ((ingest env
          (report failed)
          25
          running_run
          (ingest env (report succeeded) 20 running_run busy_store)).log_rows
        ≡ (ingest env (report failed) 25 running_run busy_store).log_rows)
ingest_replaces_example =
    ingest_replaces env (report succeeded) (report failed) 20 25 running_run running_run busy_store
      refl refl refl

may_execute : require_context ctx Module.executions Action.execute ≡ granted
unfolding require_context
may_execute = refl

waiting_found : Control.get one_run ctx 1 ≡ ok queued_run
unfolding Control.get insert new_execution
waiting_found = refl

cancel_settles_example :
    (s' : Store) × (cancel env ctx unreachable 15 1 one_run ≡ ok s')
    × (Control.get s' ctx 1 ≡ ok (cancelled_row 15 (request_cancel queued_run)))
    × (cancel env ctx unreachable 16 1 s' ≡ ok s')
cancel_settles_example =
    cancel_settles env ctx unreachable unreachable 15 16 1 one_run queued_run may_execute
      waiting_found (unfold new_execution in refl) (unfold new_execution in refl)

-- The store while the dispatch waits for the engine.
abbrev sending_store : Store
sending_store = save sent_run one_run

sending_found : Control.get sending_store ctx 1 ≡ ok sent_run
unfolding Control.get save insert new_execution dispatch_begin claim
sending_found = refl

cancel_lost_example :
    (s' : Store) × (f : Execution) × (cancel env ctx unreachable 15 1 sending_store ≡ ok s')
    × (Control.get s' ctx 1 ≡ ok (cancelled_row 15 (request_cancel sent_run)))
    × (Control.get (dispatch_answered env (accepted "ref-1") 17 sent_run s') ctx 1 ≡ ok f)
    × (f.status ≡ running)
    × (f.ended_at ≡ some 15)
cancel_lost_example =
    cancel_lost env ctx unreachable "ref-1" 15 17 1 sending_store sent_run may_execute sending_found
      (unfold dispatch_begin claim new_execution in refl) (unfold dispatch_begin in refl)

running_found : Control.get busy_store ctx 1 ≡ ok running_run
unfolding Control.get save insert new_execution dispatch_end dispatch_begin claim
running_found = refl

running_picked : Memᴰ running_run (active_executions busy_store 200)
unfolding active_executions save insert new_execution dispatch_end dispatch_begin claim
running_picked = Memᴰ.head refl

long_silent : is_stale env 5000 running_run ≡ true
unfolding dispatch_end dispatch_begin claim new_execution
long_silent = refl

reconcile_ends_example :
    (s' : Store) × (f : Execution) × (reconcile env silent 5000 running_run busy_store ≡ ok s')
    × (Control.get s' ctx 1 ≡ ok f)
    × (is_terminal f.status ≡ true)
    × (f.ended_at ≡ some 5000)
reconcile_ends_example =
    reconcile_ends env ctx 5000 1 200 running_run busy_store running_found running_picked
      long_silent

only_running : IsOnlyRow running_run busy_store
unfolding save insert new_execution dispatch_end dispatch_begin claim
only_running = ([], [], refl, refl, refl)

endings_release_example :
    Releases running_run busy_store (ingest env (report failed) 20 running_run busy_store)
    × Releases running_run busy_store (mark_interrupted env "gone" 20 running_run busy_store)
    × Releases running_run busy_store
        (interrupt_stale env 20 running_run busy_store running_run.engine_ref)
endings_release_example =
    endings_release env (report failed) "gone" 20 running_run busy_store only_running in_flight refl

abbrev stopped_store : Store
stopped_store = record_cancel running_run.id (
    ingest env (report cancelled) 22 (request_cancel running_run)
      (save (request_cancel running_run) busy_store))

stops_run :
    cancel_active env (stopped (report cancelled)) 22 running_run busy_store ≡ ok stopped_store
unfolding cancel_active dispatch_end
stops_run = refl

reports_cancelled :
    (status : EngineStatus)
    → stopped (report cancelled) ≡ stopped status
    → (status.status ≡ cancelled)
reports_cancelled status p = cc

cancel_active-WritesMoves_example : WritesMoves running_run busy_store stopped_store
cancel_active-WritesMoves_example =
    cancel_active-WritesMoves env (stopped (report cancelled)) 22 running_run busy_store
      stopped_store in_flight (λ status p. inr (rw (reports_cancelled status p) refl)) stops_run
