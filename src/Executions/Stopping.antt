-- ===== src/Executions/Stopping.antt =====
-- backend/app/services/executions.py: `cancel` as moves of the row. It writes the row twice, or lets
-- `ingest` write it the second time.
use appbi_integration.Base.{
  ℕ, String, ◌≡◌, refl, ap, ◌∙◌, subst, true, Option, none, some, List, [], ◌∷◌, map, ◌==◌, ==_refl,
  Bool-cases, inl, inr, ◌⊎◌,
}
use appbi_integration.Executions.{
  is_terminal, is_active, Execution, Store, Env, Result, ok, err, save, write_row, engine_error,
}
use appbi_integration.Executions.Create.Cases.{ok-injective}
use appbi_integration.Executions.Engine.{EngineStatus}
use appbi_integration.Executions.Ingest.{is_running, ingest}
use appbi_integration.Executions.Control.{
  CancelAnswer, stopped, unreachable, failed, record_cancel, request_cancel, cancelled_row,
  cancel_active,
}
use appbi_integration.Executions.Moves.{Move, Moves, here, next, asked, Move-SameRun}
use appbi_integration.Executions.Moves
use appbi_integration.Executions.Lifecycle.{WritesMove, ingest-rows}

write_twice : (f g x : Execution) → g.id ≡ f.id → write_row g (write_row f x) ≡ write_row g x
write_twice f g x same = rw same (elim (Bool-cases (x.id == f.id)) [
  | inl q ↦ rw q (rw (==_refl f.id) refl)
  | inr q ↦ rw q (rw q refl)
])

rows_twice :
    (f g : Execution) (l : List Execution)
    → g.id ≡ f.id
    → map (write_row g) (map (write_row f) l) ≡ map (write_row g) l
rows_twice f g [] same = refl
rows_twice f g (x ∷ l) same =
    ap (λ (y : Execution). y ∷ map (write_row g) (map (write_row f) l)) (write_twice f g x same)
    ∙ ap (λ (rest : List Execution). write_row g x ∷ rest) (rows_twice f g l same)

-- Writing a row twice is writing it the second time.
pub save-save :
    (f g : Execution) (s : Store)
    → g.id ≡ f.id
    → (save g (save f s)).executions ≡ (save g s).executions
unfolding save
save-save f g s same = rows_twice f g s.executions same

-- The rows after an operation on `e`: a row that moves lead to is written.
abbrev pub WritesMoves : Execution → Store → Store → Type 0
WritesMoves e s s' = (f : Execution) × Moves e f × (s'.executions ≡ (save f s).executions)

cancelled_undispatched :
    (now : ℕ) (e : Execution) (s : Store)
    → is_active e.status ≡ true
    → WritesMoves e s (
        record_cancel e.id
          (save (cancelled_row now (request_cancel e)) (save (request_cancel e) s)))
unfolding record_cancel
cancelled_undispatched now e s h = (
  cancelled_row now (request_cancel e),
  next (next here (asked e h)) (Moves.stopped (request_cancel e) now refl),
  save-save (request_cancel e) (cancelled_row now (request_cancel e)) s
      (unfold cancelled_row in refl),
)

cancelled_later :
    (e : Execution) (s : Store)
    → is_active e.status ≡ true
    → WritesMoves e s (record_cancel e.id (save (request_cancel e) s))
unfolding record_cancel
cancelled_later e s h = (request_cancel e, next here (asked e h), refl)

after_move :
    (e : Execution) (s s' : Store)
    → is_active e.status ≡ true
    → WritesMove (request_cancel e) (save (request_cancel e) s) s'
    → WritesMoves e s (record_cancel e.id s')
unfolding record_cancel
after_move e s s' h (inl p) = (request_cancel e, next here (asked e h), p)
after_move e s s' h (inr (f, m, p)) =
    (f, next (next here (asked e h)) m, p ∙ save-save (request_cancel e) f s (Move-SameRun m).id)

-- A cancellation of a run in flight that succeeds writes a row that moves lead to, if what the
-- engine reports is running or ended.
pub cancel_active-WritesMoves :
    (env : Env) (answer : CancelAnswer) (now : ℕ) (e : Execution) (s s' : Store)
    → is_active e.status ≡ true
    → ((status : EngineStatus)
        → answer ≡ stopped status
        → (is_running status.status ≡ true) ⊎ (is_terminal status.status ≡ true))
    → cancel_active env answer now e s ≡ ok s'
    → WritesMoves e s s'
unfolding cancel_active
cancel_active-WritesMoves env answer now e s s' h k run = go e.engine_ref answer refl run
  where
    told :
        (answer' : CancelAnswer)
        → answer ≡ answer'
        → ◌≡◌ {A = Result Store}
            (elim answer' [
              | stopped status ↦ ok (
                  record_cancel e.id
                    (ingest env status now (request_cancel e) (save (request_cancel e) s)))
              | unreachable ↦ ok (record_cancel e.id (save (request_cancel e) s))
              | failed code ↦ err (engine_error code)
            ])
            (ok s')
        → WritesMoves e s s'
    told (stopped status) p q = subst (WritesMoves e s) (ok-injective q) (
        after_move e s (ingest env status now (request_cancel e) (save (request_cancel e) s)) h (
          ingest-rows env status now (request_cancel e) (save (request_cancel e) s) refl
            (k status p)))
    told unreachable p q = subst (WritesMoves e s) (ok-injective q) (cancelled_later e s h)
    told (failed code) p q = cc

    go :
        (o : Option String) (answer' : CancelAnswer)
        → answer ≡ answer'
        → ◌≡◌ {A = Result Store}
            (elim o [
              | none ↦ ok (
                  record_cancel e.id
                    (save (cancelled_row now (request_cancel e)) (save (request_cancel e) s)))
              | some ref ↦ elim answer' [
                | stopped status ↦ ok (
                    record_cancel e.id
                      (ingest env status now (request_cancel e) (save (request_cancel e) s)))
                | unreachable ↦ ok (record_cancel e.id (save (request_cancel e) s))
                | failed code ↦ err (engine_error code)
              ]
            ])
            (ok s')
        → WritesMoves e s s'
    go none answer' p q =
        subst (WritesMoves e s) (ok-injective q) (cancelled_undispatched now e s h)
    go (some ref) answer' p q = told answer' p q
