-- ===== src/Tests/Runs.antt =====
-- backend/app/services/executions.py: creating, replaying and retrying a run.
use appbi_integration.Base.{◌≡◌, ◌≢◌, refl, ◌⊎◌, true, some, [], ◌∷◌, ◌++◌, arith}
use appbi_integration.Json.{null}
use appbi_integration.Graph.Issue.{is_ok}
use appbi_integration.Graph.Validate.{validate_graph}
use appbi_integration.Context.{require_context}
use appbi_integration.Executions.{
  queued, succeeded, Execution, Store, is_terminal, ok, err, workflow_already_running, save,
}
use appbi_integration.Executions.Create.{
  get_workflow, lookup_key, by_idempotency_key, check_concurrency, create_row, create,
  workspace_ceiling, new_execution, insert,
}
use appbi_integration.Executions.Create.Quota.{WithinCeiling, WithinWorkflow, create-within}
use appbi_integration.Executions.Create.Replay.{UniqueKeys, create-UniqueKeys, create-replay}
use appbi_integration.Executions.Create.Payload.{create-frozen, retry_resends}
use appbi_integration.Executions.Engine.{payload_for_engine}
use appbi_integration.Executions.Ingest.{ended_row}
use appbi_integration.Executions.Control.{retry, retry_request}
use appbi_integration.Executions.Control
use appbi_integration.Tests.Data.{
  registry, payload, env, ctx, workflow, artefact, request, empty_store, queued_run, one_run,
  report,
}

created_run : create env ctx request 10 empty_store empty_store ≡ ok (queued_run, one_run)
unfolding create create_row new_execution insert require_context is_ok validate_graph
created_run = refl

empty_ceiling : WithinCeiling env 7 empty_store
unfolding workspace_ceiling
empty_ceiling = omega arith

create-within_example : WithinCeiling env 7 one_run × WithinWorkflow env 7 1 one_run
create-within_example =
    create-within env ctx request 10 empty_store empty_store queued_run one_run created_run 7 1
      (empty_ceiling, omega arith)

create-UniqueKeys_example : UniqueKeys one_run
create-UniqueKeys_example =
    create-UniqueKeys env ctx request 10 empty_store empty_store queued_run one_run created_run
      (λ w f k. omega arith)

-- The same key again, in a request whose first look-up came before the first run was committed.
replayed_run : create env ctx request 12 empty_store one_run ≡ ok (queued_run, one_run)
unfolding create new_execution insert require_context
replayed_run = refl

found_workflow : get_workflow empty_store ctx 1 ≡ ok workflow
unfolding get_workflow
found_workflow = refl

held_key : lookup_key one_run ctx 1 (some "key-1") ≡ some queued_run
unfolding by_idempotency_key insert new_execution
held_key = refl

create-replay_example :
    (one_run ≡ one_run)
    × ((lookup_key empty_store ctx 1 (some "key-1") ≡ some queued_run) ⊎ (queued_run ≡ queued_run))
create-replay_example =
    create-replay env ctx request 12 empty_store one_run queued_run one_run replayed_run workflow
      queued_run found_workflow held_key

busy : check_concurrency env one_run 7 1 ≡ err workflow_already_running
unfolding check_concurrency insert new_execution
busy = refl

payload_given : payload ≢ null
payload_given h = cc

create-frozen_example :
    (one_run ≡ empty_store)
    ⊎ ((one_run.executions ≡ empty_store.executions ++ queued_run ∷ [])
        × (queued_run.status ≡ queued)
        × (payload_for_engine env queued_run ≡ payload)
        × (is_ok (validate_graph queued_run.graph_snapshot registry true) ≡ true))
create-frozen_example =
    create-frozen env ctx request 10 empty_store empty_store queued_run one_run (refl, refl)
      payload_given created_run

abbrev done_run : Execution
done_run = ended_row (report succeeded) 20 queued_run

abbrev done_store : Store
done_store = save done_run one_run

abbrev second_run : Execution
second_run = new_execution env ctx (retry_request env done_run) workflow artefact 2 30

abbrev two_runs : Store
two_runs = insert done_store second_run

retried : retry env ctx 1 30 done_store ≡ ok (second_run, two_runs)
unfolding retry create_row new_execution insert save ended_row retry_request require_context is_ok
    validate_graph
retried = refl

done_found : Control.get done_store ctx 1 ≡ ok done_run
unfolding Control.get save insert new_execution ended_row
done_found = refl

sent : payload_for_engine env done_run ≡ payload
unfolding payload_for_engine ended_row new_execution
sent = refl

sent_given : payload_for_engine env done_run ≢ null
unfolding payload_for_engine ended_row new_execution
sent_given h = cc

retry_resends_example :
    (is_terminal done_run.status ≡ true)
    × (two_runs.executions ≡ done_store.executions ++ second_run ∷ [])
    × (second_run.retry_of ≡ some done_run.id)
    × (payload_for_engine env second_run ≡ payload_for_engine env done_run)
retry_resends_example =
    retry_resends env ctx 1 30 done_store done_run second_run two_runs done_found
      (unfold payload_for_engine ended_row new_execution in (refl, refl)) sent_given retried
