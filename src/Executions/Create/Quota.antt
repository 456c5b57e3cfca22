-- ===== src/Executions/Create/Quota.antt =====
-- backend/app/services/executions.py: the two ceilings on the runs in flight.
use mathlib.Core.Path.{subst₂}
use appbi_integration.Base.{
  ℕ, suc, ◌+◌, ◌≤◌, ◌<◌, ◌≡◌, refl, sym, ap, subst, ◌∙◌, inl, inr, Bool, true, false, [], ◌∷◌,
  if◌then◌else◌, arith, Bool-cases,
}
use appbi_integration.Base.Lists.{count_if, count_if-append}
use appbi_integration.Context.{RequestContext}
use appbi_integration.Executions.{
  Execution, Store, Env, ok, active_in_workspace, active_in_workflow,
}
use appbi_integration.Executions.Create.{
  Request, check_concurrency, new_execution, insert, create, workspace_ceiling,
}
use appbi_integration.Executions.Create.Cases.{Outcome, created, replayed, create_cases}

-- No more runs of the workspace are in flight than its ceiling.
abbrev pub WithinCeiling : Env → ℕ → Store → Type 0
WithinCeiling env workspace s =
    count_if (active_in_workspace workspace) s.executions ≤ workspace_ceiling env s workspace

-- No more runs of the workflow are in flight than the setting allows.
abbrev pub WithinWorkflow : Env → ℕ → ℕ → Store → Type 0
WithinWorkflow env workspace workflow s =
    count_if (active_in_workflow workspace workflow) s.executions ≤ env.max_per_workflow

-- A check that passes leaves room for one more.
check_concurrency-room :
    (env : Env) (s : Store) (workspace workflow : ℕ)
    → check_concurrency env s workspace workflow ≡ ok tt
    → (count_if (active_in_workflow workspace workflow) s.executions < env.max_per_workflow)
      × (count_if (active_in_workspace workspace) s.executions < workspace_ceiling env s workspace)
unfolding check_concurrency
check_concurrency-room env s workspace workflow h = ground arith

insert-count :
    (p : Execution → Bool) (s : Store) (e : Execution)
    → count_if p (insert s e).executions ≡ count_if p s.executions + (if p e then 1 else 0)
unfolding insert
insert-count p s e =
    count_if-append p s.executions (e ∷ []) ∙ ap (λ (n : ℕ). count_if p s.executions + n) (go (p e))
  where
    go : (b : Bool) → (if b then suc 0 else 0) ≡ (if b then 1 else 0)
    go true = refl
    go false = refl

insert-ceiling :
    (env : Env) (s : Store) (e : Execution) (workspace : ℕ)
    → workspace_ceiling env (insert s e) workspace ≡ workspace_ceiling env s workspace
unfolding insert workspace_ceiling
insert-ceiling env s e workspace = refl

-- One more row stays within a bound that has room for it, if it counts at all.
pub insert-bound :
    (p : Execution → Bool) (s : Store) (e : Execution) (n : ℕ)
    → (p e ≡ true → count_if p s.executions < n)
    → count_if p s.executions ≤ n
    → count_if p (insert s e).executions ≤ n
insert-bound p s e n room h = elim (Bool-cases (p e)) [
  | inl counts ↦ rw (insert-count p s e) (rw counts (omega (arith, room counts)))
  | inr other ↦ rw (insert-count p s e) (rw other (omega arith))
]

workspace_of :
    (e : Execution) (workspace : ℕ)
    → active_in_workspace workspace e ≡ true
    → e.workspace_id ≡ workspace
workspace_of e workspace h = ground arith

workflow_of :
    (e : Execution) (workspace workflow : ℕ)
    → active_in_workflow workspace workflow e ≡ true
    → (e.workspace_id ≡ workspace) × (e.workflow_id ≡ workflow)
workflow_of e workspace workflow h = ground arith

module _ (env : Env) (ctx : RequestContext) (request : Request) (now : ℕ) (before s : Store)
    (e : Execution) (s' : Store) (run : create env ctx request now before s ≡ ok (e, s')) where
  -- A successful `create` keeps a workspace within its ceiling and a workflow within its limit, if
  -- they were so behind the lock, whatever was committed between its first look-up and the lock.
  pub create-within :
      (workspace workflow : ℕ)
      → WithinCeiling env workspace s × WithinWorkflow env workspace workflow s
      → WithinCeiling env workspace s' × WithinWorkflow env workspace workflow s'
  create-within workspace workflow h = go (create_cases env ctx request now before s e s' run)
    where
      go :
          Outcome env ctx request now before s e s'
          → WithinCeiling env workspace s' × WithinWorkflow env workspace workflow s'
      go (replayed r) = rw r.unchanged h
      go (created c) =
          let (wf_room, ws_room) =
            check_concurrency-room env s ctx.workspace_id c.workflow.id c.room in
          let in_ws : (e.workspace_id ≡ ctx.workspace_id) =
            ap (λ (x : Execution). x.workspace_id) c.row ∙ unfold new_execution in refl in
          let in_wf : (e.workflow_id ≡ c.workflow.id) =
            ap (λ (x : Execution). x.workflow_id) c.row ∙ unfold new_execution in refl in
          rw c.store (
            rw (insert-ceiling env s e workspace) (
                insert-bound (active_in_workspace workspace) s e (workspace_ceiling env s workspace)
                  (λ counts.
                    subst
                      (λ (w : ℕ).
                        count_if (active_in_workspace w) s.executions < workspace_ceiling env s w)
                      (sym in_ws ∙ workspace_of e workspace counts) ws_room)
                  h.0),
            insert-bound (active_in_workflow workspace workflow) s e env.max_per_workflow
                (λ counts.
                  subst₂
                    (λ (w f : ℕ).
                      count_if (active_in_workflow w f) s.executions < env.max_per_workflow)
                    (sym in_ws ∙ (workflow_of e workspace workflow counts).0)
                    (sym in_wf ∙ (workflow_of e workspace workflow counts).1) wf_room)
                h.1,
          )
