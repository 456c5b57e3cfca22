-- ===== src/Executions/Reconcile.antt =====
-- backend/app/worker.py: what `reconcile_loop` does with one run, and `active_executions` of
-- backend/app/services/executions.py, which picks the runs. A run is polled if it has a reference, and
-- then interrupted if it is stale; both use the worker's own object of the row.
use mathlib.Core.List.{Memᴰ}
use mathlib.Core.List.Memᴰ
use appbi_integration.Base.{
  ℕ, zero, suc, [], ◌∷◌, Bool-cases, inl, inr, leb, arith, &&_split, String, ◌≡◌, refl, ap, ◌∙◌,
  sym, subst, Bool, true, false, Option, none, some, List, if◌then◌else◌,
}
use appbi_integration.Base.Lists.{select, take, all}
use appbi_integration.Context.{RequestContext}
use appbi_integration.Executions.{
  Status, dispatching, running, cancel_requested, is_terminal, Execution, Store, Env, Result, ok,
  ◌>>=◌, save,
}
use appbi_integration.Executions.Engine.{sort_by_queue, insert_by_queue, finish}
use appbi_integration.Executions.Ingest.{
  PollAnswer, reported, silent, unknown_execution, refused, is_running, still_running, ended_row,
  interrupted_row, never_started_row, poll, poll_answered, is_stale, interrupt_stale,
  interrupt_if_stale, mark_interrupted,
}
use appbi_integration.Executions.Control
use appbi_integration.Executions.Lookup.{get-same, get-save}

-- `status in [DISPATCHING, RUNNING, CANCEL_REQUESTED]`
abbrev pub is_in_flight : Execution → Bool
is_in_flight e = elim e.status [
  | dispatching ↦ true
  | running ↦ true
  | cancel_requested ↦ true
  | _ ↦ false
]

unfoldable pub active_executions : Store → ℕ → List Execution
unfolding sort_by_queue
active_executions s limit = take limit (sort_by_queue (select is_in_flight s.executions))

-- The worker's object after the answer.
unfoldable pub answered_row : PollAnswer → ℕ → Execution → Execution
unfolding still_running ended_row interrupted_row
answered_row (reported status) now e =
    if is_running status.status then still_running now e else ended_row status now e
answered_row silent now e = e
answered_row unknown_execution now e =
    interrupted_row "Engine không còn thông tin lần chạy này." now e
answered_row (refused code) now e = e

-- The worker's object after `poll`.
unfoldable pub polled_row : PollAnswer → ℕ → Execution → Execution
unfolding answered_row
polled_row answer now e = elim e.engine_ref [ none ↦ e | some ref ↦ answered_row answer now e ]

-- The body of the loop in `reconcile_loop`, for one of the rows that `active_executions` has picked.
unfoldable pub reconcile : Env → PollAnswer → ℕ → Execution → Store → Result Store
unfolding poll polled_row interrupt_if_stale
reconcile env answer now e s = do
  polled ← poll env answer now e s
  ok (interrupt_if_stale env now (polled_row answer now e) polled)

reconcile-silent :
    (env : Env) (now : ℕ) (e : Execution) (s : Store)
    → reconcile env silent now e s ≡ ok (interrupt_if_stale env now e s)
unfolding reconcile poll polled_row
reconcile-silent env now e s = go e.engine_ref
  where
    go :
        (o : Option String)
        → ((elim o [ none ↦ ok s | some ref ↦ poll_answered env silent now e s ])
            >>= λ (polled : Store). ok (
                interrupt_if_stale env now
                  (elim o [ none ↦ e | some ref ↦ answered_row silent now e ])
                  polled))
          ≡ ok (interrupt_if_stale env now e s)
    go none = refl
    go (some ref) = unfold answered_row poll_answered in refl

get-rows :
    (s t : Store) (ctx : RequestContext) (id : ℕ)
    → s.executions ≡ t.executions
    → Control.get s ctx id ≡ Control.get t ctx id
unfolding Control.get
get-rows s t ctx id h = rw h refl

-- The row that `_interrupt_if_stale` writes for a stale run.
abbrev pub stale_row : ℕ → Execution → Option String → Execution
stale_row now e none = never_started_row now e
stale_row now e (some ref) =
    interrupted_row "Engine không xác nhận lần chạy này trong thời gian cho phép." now e

stale_row-ends :
    (now : ℕ) (e : Execution) (o : Option String)
    → (is_terminal (stale_row now e o).status ≡ true)
      × ((stale_row now e o).ended_at ≡ some now)
      × ((stale_row now e o).id ≡ e.id)
      × ((stale_row now e o).workspace_id ≡ e.workspace_id)
unfolding never_started_row interrupted_row
stale_row-ends now e none = (refl, refl, refl, refl)
stale_row-ends now e (some ref) = (refl, refl, refl, refl)

interrupt_stale-rows :
    (env : Env) (now : ℕ) (e : Execution) (s : Store) (o : Option String)
    → (interrupt_stale env now e s o).executions ≡ (save (stale_row now e o) s).executions
unfolding interrupt_stale mark_interrupted finish
interrupt_stale-rows env now e s none = refl
interrupt_stale-rows env now e s (some ref) = refl

interrupt_if_stale-due :
    (env : Env) (now : ℕ) (e : Execution) (s : Store)
    → is_terminal e.status ≡ false
    → is_stale env now e ≡ true
    → interrupt_if_stale env now e s ≡ interrupt_stale env now e s e.engine_ref
unfolding interrupt_if_stale
interrupt_if_stale-due env now e s live due = rw live (rw due refl)

get-stale :
    (env : Env) (ctx : RequestContext) (now id : ℕ) (e : Execution) (s : Store) (o : Option String)
    → Control.get s ctx id ≡ ok e
    → Control.get (interrupt_stale env now e s o) ctx id ≡ ok (stale_row now e o)
get-stale env ctx now id e s o found =
    let (same, ws) = get-same s ctx id e found in
    let (ends, at, key, place) = stale_row-ends now e o in
    let whole = key ∙ same in
    get-rows (interrupt_stale env now e s o) (save (stale_row now e o) s) ctx id
      (interrupt_stale-rows env now e s o)
    ∙ subst (λ (i : ℕ). Control.get (save (stale_row now e o) s) ctx i ≡ ok (stale_row now e o))
        whole
        (get-save s ctx (stale_row now e o) e (place ∙ ws)
          (subst (λ (i : ℕ). Control.get s ctx i ≡ ok e) (sym whole) found))

take-all :
    (p : Execution → Bool) (n : ℕ) (l : List Execution) → all p l ≡ true → all p (take n l) ≡ true
take-all p zero l h = refl
take-all p (suc n) [] h = refl
take-all p (suc n) (x ∷ l) h =
    let (here, later) = &&_split (p x) (all p l) h in rw here (take-all p n l later)

insert-all :
    (p : Execution → Bool) (e : Execution) (l : List Execution)
    → p e ≡ true
    → all p l ≡ true
    → all p (insert_by_queue e l) ≡ true
unfolding insert_by_queue
insert-all p e [] h k = rw h refl
insert-all p e (f ∷ l) h k =
    let (here, later) = &&_split (p f) (all p l) k in
    elim (Bool-cases (leb e.queued_at f.queued_at)) [
      | inl j ↦ rw j (rw h (rw here later))
      | inr j ↦ rw j (rw here (insert-all p e l h later))
    ]

sort-all :
    (p : Execution → Bool) (l : List Execution) → all p l ≡ true → all p (sort_by_queue l) ≡ true
unfolding sort_by_queue
sort-all p [] h = refl
sort-all p (e ∷ l) h =
    let (here, later) = &&_split (p e) (all p l) h in
    insert-all p e (sort_by_queue l) here (sort-all p l later)

select-all : (p : Execution → Bool) (l : List Execution) → all p (select p l) ≡ true
select-all p [] = refl
select-all p (e ∷ l) = elim (Bool-cases (p e)) [
  | inl j ↦ rw j (rw j (select-all p l))
  | inr j ↦ rw j (select-all p l)
]

Mem-all :
    (p : Execution → Bool) (e : Execution) (l : List Execution)
    → all p l ≡ true
    → Memᴰ e l
    → p e ≡ true
Mem-all p e [] h m = absurd (Memᴰ.not-nil m)
Mem-all p e (x ∷ l) h (Memᴰ.head same) =
    subst (λ (y : Execution). p y ≡ true) (sym same) (&&_split (p x) (all p l) h).0
Mem-all p e (x ∷ l) h (Memᴰ.tail m) = Mem-all p e l (&&_split (p x) (all p l) h).1 m

-- A row that the query picks has not ended.
picked-live :
    (s : Store) (limit : ℕ) (e : Execution)
    → Memᴰ e (active_executions s limit)
    → is_terminal e.status ≡ false
unfolding active_executions
picked-live s limit e m =
    let rows = select is_in_flight s.executions in
    unended e.status (
      Mem-all is_in_flight e (take limit (sort_by_queue rows))
        (take-all is_in_flight limit (sort_by_queue rows)
          (sort-all is_in_flight rows (select-all is_in_flight s.executions)))
        m)
  where
    unended :
        (t : Status)
        → (elim t [ dispatching ↦ true | running ↦ true | cancel_requested ↦ true | _ ↦ false ])
          ≡ true
        → is_terminal t ≡ false
    unended t h = ground arith

-- Take a run that the reconciler's query picks, so one that is dispatching, running or asked to be cancelled. If
-- the engine stays silent about it and it was last confirmed too long ago, the reconciler's turn on it
-- succeeds and ends it at that moment.
pub reconcile_ends :
    (env : Env) (ctx : RequestContext) (now id limit : ℕ) (e : Execution) (s : Store)
    → Control.get s ctx id ≡ ok e
    → Memᴰ e (active_executions s limit)
    → is_stale env now e ≡ true
    → (s' : Store) × (f : Execution) × (reconcile env silent now e s ≡ ok s')
      × (Control.get s' ctx id ≡ ok f)
      × (is_terminal f.status ≡ true)
      × (f.ended_at ≡ some now)
reconcile_ends env ctx now id limit e s found picked due =
    let (ends, at, key, place) = stale_row-ends now e e.engine_ref in
    (
      interrupt_stale env now e s e.engine_ref,
      stale_row now e e.engine_ref,
      reconcile-silent env now e s
          ∙ ap ok (interrupt_if_stale-due env now e s (picked-live s limit e picked) due),
      get-stale env ctx now id e s e.engine_ref found,
      ends,
      at,
    )
