-- ===== src/Executions/Lifecycle.antt =====
-- backend/app/services/executions.py and backend/app/worker.py: every operation on a run makes a
-- move, and what follows for its whole life.
use appbi_integration.Base.{
  ℕ, String, ◌≡◌, refl, sym, ap, subst, ◌∙◌, ◌⊎◌, inl, inr, Bool, true, false, not, Option, none,
  some, if◌then◌else◌, arith,
}
use appbi_integration.Context.{RequestContext}
use appbi_integration.Executions.{
  Status, is_terminal, is_active, Execution, Workflow, Store, Env, save, ok,
}
use appbi_integration.Executions.Create.{Request, Artefact, new_execution}
use appbi_integration.Executions.Create.Cases.{ok-injective}
use appbi_integration.Executions.Engine.{EngineStatus, finish}
use appbi_integration.Executions.Ingest.{
  PollAnswer, reported, silent, unknown_execution, refused, still_running, ended_row, is_running,
  interrupted_row, never_started_row, ingest, mark_interrupted, replace_rows, poll, poll_answered,
  interrupt_stale, interrupt_if_stale, is_stale,
}
use appbi_integration.Executions.Moves.{
  Move, Moves, here, next, seen, ended, interrupted, never_started, IsDated, SameRun, Move-IsDated,
  Moves-SameRun,
}

new_execution-IsDated :
    (env : Env) (ctx : RequestContext) (request : Request) (w : Workflow) (a : Artefact)
    (id now : ℕ)
    → IsDated (new_execution env ctx request w a id now)
unfolding new_execution
new_execution-IsDated env ctx request w a id now = refl

Moves-IsDated : {e f : Execution} → IsDated e → Moves e f → IsDated f
Moves-IsDated d here = d
Moves-IsDated d (next ms m) = Move-IsDated m (Moves-IsDated d ms)

-- Through every sequence of moves from its creation, a run has an end time exactly when its status
-- is terminal, and keeps its identity, its graph, its payload, its key and its link to the run that
-- it retries.
pub run_history :
    (env : Env) (ctx : RequestContext) (request : Request) (w : Workflow) (a : Artefact)
    (id now : ℕ) (f : Execution)
    → Moves (new_execution env ctx request w a id now) f
    → IsDated f × SameRun (new_execution env ctx request w a id now) f
run_history env ctx request w a id now f ms =
    (Moves-IsDated (new_execution-IsDated env ctx request w a id now) ms, Moves-SameRun ms)

-- The rows after an operation on `e`: as they were, or with one move of `e` written.
abbrev pub WritesMove : Execution → Store → Store → Type 0
WritesMove e s s' =
    (s'.executions ≡ s.executions)
    ⊎ ((f : Execution) × Move e f × (s'.executions ≡ (save f s).executions))

finish-rows :
    (env : Env) (f : Execution) (s : Store) → (finish env f s).executions ≡ (save f s).executions
unfolding finish
finish-rows env f s = refl

pub ingest-rows :
    (env : Env) (status : EngineStatus) (now : ℕ) (e : Execution) (s : Store)
    → is_active e.status ≡ true
    → (is_running status.status ≡ true) ⊎ (is_terminal status.status ≡ true)
    → WritesMove e s (ingest env status now e s)
unfolding ingest
ingest-rows env status now e s h k = go (is_running status.status) refl
  where
    go :
        (b : Bool)
        → is_running status.status ≡ b
        → WritesMove e s (
            if b
            then save (still_running now e) s
            else finish env (ended_row status now e) (replace_rows env e status now s))
    go true p = inr (still_running now e, seen e now h, refl)
    go false p = elim k [
      | inl r ↦ cc
      | inr t ↦ inr (ended_row status now e, ended e status now h t, refl)
    ]

interrupted-WritesMove :
    (env : Env) (reason : String) (now : ℕ) (e : Execution) (s : Store)
    → is_active e.status ≡ true
    → WritesMove e s (mark_interrupted env reason now e s)
unfolding mark_interrupted
interrupted-WritesMove env reason now e s h =
    inr (interrupted_row reason now e, interrupted e reason now h, refl)

answered-WritesMove :
    (env : Env) (answer : PollAnswer) (now : ℕ) (e : Execution) (s s' : Store)
    → is_active e.status ≡ true
    → ((status : EngineStatus)
        → answer ≡ reported status
        → (is_running status.status ≡ true) ⊎ (is_terminal status.status ≡ true))
    → poll_answered env answer now e s ≡ ok s'
    → WritesMove e s s'
unfolding poll_answered
answered-WritesMove env (reported status) now e s s' h k run =
    subst (WritesMove e s) (ok-injective run) (ingest-rows env status now e s h (k status refl))
answered-WritesMove env silent now e s s' h k run =
    inl (ap (λ (x : Store). x.executions) (sym (ok-injective run)))
answered-WritesMove env unknown_execution now e s s' h k run =
    subst (WritesMove e s) (ok-injective run)
      (interrupted-WritesMove env "Engine không còn thông tin lần chạy này." now e s h)
answered-WritesMove env (refused code) now e s s' h k run = cc

-- A poll of a run in flight that succeeds writes one move of its row, or nothing, if what the
-- engine reports is running or ended.
pub poll-WritesMove :
    (env : Env) (answer : PollAnswer) (now : ℕ) (e : Execution) (s s' : Store)
    → is_active e.status ≡ true
    → ((status : EngineStatus)
        → answer ≡ reported status
        → (is_running status.status ≡ true) ⊎ (is_terminal status.status ≡ true))
    → poll env answer now e s ≡ ok s'
    → WritesMove e s s'
poll-WritesMove env answer now e s s' h k run = go e.engine_ref refl
  where
    poll_at :
        (o : Option String)
        → e.engine_ref ≡ o
        → poll env answer now e s
          ≡ (elim o [ none ↦ ok s | some ref ↦ poll_answered env answer now e s ])
    poll_at o p = unfold poll in rw (p, poll) refl

    go : (o : Option String) → e.engine_ref ≡ o → WritesMove e s s'
    go none p =
        inl (ap (λ (x : Store). x.executions) (sym (ok-injective (sym (poll_at none p) ∙ run))))
    go (some ref) p =
        answered-WritesMove env answer now e s s' h k (sym (poll_at (some ref) p) ∙ run)

unended : (s : Status) → is_terminal s ≡ false → is_active s ≡ true
unended s h = ground arith

-- The reconciler's time-out writes one move of the row, or nothing.
pub interrupt_if_stale-WritesMove :
    (env : Env) (now : ℕ) (e : Execution) (s : Store)
    → WritesMove e s (interrupt_if_stale env now e s)
unfolding interrupt_if_stale
interrupt_if_stale-WritesMove env now e s =
    moves (is_terminal e.status) (is_stale env now e) e.engine_ref refl
  where
    moves :
        (b c : Bool) (o : Option String)
        → is_terminal e.status ≡ b
        → WritesMove e s (if b then s else if not c then s else interrupt_stale env now e s o)
    moves true c o p = inl refl
    moves false false o p = inl refl
    moves false true none p =
        inr (never_started_row now e, never_started e now (unended e.status p), refl)
    moves false true (some ref) p = inr (
      interrupted_row "Engine không xác nhận lần chạy này trong thời gian cho phép." now e,
      interrupted e "Engine không xác nhận lần chạy này trong thời gian cho phép." now
          (unended e.status p),
      refl,
    )

-- The time-out leaves a run alone that has ended or was confirmed recently enough.
pub interrupt_if_stale-fresh :
    (env : Env) (now : ℕ) (e : Execution) (s : Store)
    → (is_terminal e.status ≡ true) ⊎ (is_stale env now e ≡ false)
    → interrupt_if_stale env now e s ≡ s
unfolding interrupt_if_stale
interrupt_if_stale-fresh env now e s = stays (is_terminal e.status) (is_stale env now e)
  where
    stays :
        (b c : Bool)
        → (b ≡ true) ⊎ (c ≡ false)
        → (if b then s else if not c then s else interrupt_stale env now e s e.engine_ref) ≡ s
    stays true c h = refl
    stays false false h = refl
    stays false true h = absurd (elim h [ inl p ↦ cc | inr p ↦ cc ])
