-- ===== src/Executions/Rows.antt =====
-- backend/app/services/executions.py: the node results and the log lines that `ingest` writes.
use appbi_integration.Base.{
  ℕ, suc, ◌≡◌, refl, sym, ap, ◌∙◌, Bool, false, not, List, [], ◌∷◌, ◌++◌, map, ◌==◌, ==_refl, arith,
  Bool-cases, inl, inr,
}
use appbi_integration.Base.Lists.{select}
use appbi_integration.Executions.{Execution, NodeRow, LogRow, Store, Env}
use appbi_integration.Executions.Engine.{EngineStatus, EngineNodeResult, EngineLogLine}
use appbi_integration.Executions.Ingest.{
  node_row, log_row, log_rows_from, replace_rows, ingest, is_running,
}

append_nil {ℓ} : {A : Type ℓ} (xs : List A) → xs ++ [] ≡ xs
append_nil [] = refl
append_nil (x ∷ xs) = ap (λ l. x ∷ l) (append_nil xs)

module _ {ℓ} {A : Type ℓ} (p : A → Bool) where
  select-append : (xs ys : List A) → select p (xs ++ ys) ≡ select p xs ++ select p ys
  select-append [] ys = refl
  select-append (x ∷ xs) ys = ground (arith, select-append xs ys)

  select-select : (xs : List A) → select p (select p xs) ≡ select p xs
  select-select [] = refl
  select-select (x ∷ xs) = elim (Bool-cases (p x)) [
    | inl h ↦ rw h (rw h (ap (λ (l : List A). x ∷ l) (select-select xs)))
    | inr h ↦ rw h (select-select xs)
  ]

  -- Replacing what `p` does not select, twice, is the second replacement.
  replace_twice :
      (xs ys zs : List A)
      → select p ys ≡ []
      → select p (select p xs ++ ys) ++ zs ≡ select p xs ++ zs
  replace_twice xs ys zs h =
      ap (λ (l : List A). l ++ zs)
        (select-append (select p xs) ys
          ∙ rw h (append_nil (select p (select p xs)) ∙ select-select xs))

row_of_run :
    (env : Env) (e : Execution) (r : EngineNodeResult) → (node_row env e r).execution_id ≡ e.id
unfolding node_row
row_of_run env e r = refl

log_of_run :
    (env : Env) (e : Execution) (now index : ℕ) (line : EngineLogLine)
    → (log_row env e now index line).execution_id ≡ e.id
unfolding log_row
log_of_run env e now index line = refl

no_node_rows :
    (env : Env) (e f : Execution) (results : List EngineNodeResult)
    → e.id ≡ f.id
    → select (λ (r : NodeRow). not (r.execution_id == f.id)) (map (node_row env e) results) ≡ []
no_node_rows env e f [] same = refl
no_node_rows env e f (r ∷ results) same =
    rw (row_of_run env e r) (rw same (rw (==_refl f.id) (no_node_rows env e f results same)))

no_log_rows :
    (env : Env) (e f : Execution) (now index : ℕ) (lines : List EngineLogLine)
    → e.id ≡ f.id
    → select (λ (r : LogRow). not (r.execution_id == f.id)) (log_rows_from env e now index lines)
      ≡ []
unfolding log_rows_from
no_log_rows env e f now index [] same = refl
no_log_rows env e f now index (line ∷ lines) same =
    rw (log_of_run env e now index line)
      (rw same (rw (==_refl f.id) (no_log_rows env e f now (suc index) lines same)))

ingest_ended :
    (env : Env) (status : EngineStatus) (now : ℕ) (e : Execution) (s : Store)
    → is_running status.status ≡ false
    → ((ingest env status now e s).node_rows ≡ (replace_rows env e status now s).node_rows)
      × ((ingest env status now e s).log_rows ≡ (replace_rows env e status now s).log_rows)
unfolding ingest
ingest_ended env status now e s h = rw h (refl, refl)

-- Ingesting two reports that a run has ended leaves the node results and the log lines of the second
-- alone, as if the first had not come: no row of the run is kept twice.
pub ingest_replaces :
    (env : Env) (first second : EngineStatus) (t u : ℕ) (e f : Execution) (s : Store)
    → e.id ≡ f.id
    → is_running first.status ≡ false
    → is_running second.status ≡ false
    → ((ingest env second u f (ingest env first t e s)).node_rows
        ≡ (ingest env second u f s).node_rows)
      × ((ingest env second u f (ingest env first t e s)).log_rows
          ≡ (ingest env second u f s).log_rows)
unfolding replace_rows
ingest_replaces env first second t u e f s same p q =
    let (nodes, logs) = ingest_ended env first t e s p in
    let (nodes', logs') = ingest_ended env second u f (ingest env first t e s) q in
    let (nodes'', logs'') = ingest_ended env second u f s q in
    (
      nodes'
          ∙ ap
              (λ (l : List NodeRow).
                select (λ r. not (r.execution_id == f.id)) l
                ++ map (node_row env f) second.node_results)
              (nodes ∙ rw same refl)
          ∙ replace_twice (λ (r : NodeRow). not (r.execution_id == f.id)) s.node_rows
              (map (node_row env e) first.node_results) (map (node_row env f) second.node_results)
              (no_node_rows env e f first.node_results same)
          ∙ sym nodes'',
      logs'
          ∙ ap
              (λ (l : List LogRow).
                select (λ r. not (r.execution_id == f.id)) l ++ log_rows_from env f u 0 second.logs)
              (logs ∙ rw same refl)
          ∙ replace_twice (λ (r : LogRow). not (r.execution_id == f.id)) s.log_rows
              (log_rows_from env e t 0 first.logs) (log_rows_from env f u 0 second.logs)
              (no_log_rows env e f t 0 first.logs same)
          ∙ sym logs'',
    )
