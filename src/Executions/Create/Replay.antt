-- ===== src/Executions/Create/Replay.antt =====
-- backend/app/services/executions.py: the idempotency key.
use mathlib.Core.Path.{subst₂}
use appbi_integration.Executions.Create.Quota.{insert-bound}
use appbi_integration.Base.{
  ℕ, ◌≤◌, ◌<◌, String, ◌≡◌, refl, sym, ap, subst, ◌∙◌, ◌⊎◌, inl, inr, Bool, true, Option, none,
  some, List, [], ◌∷◌, arith, eq_iff, unsome,
}
use appbi_integration.Base.Lists.{count_if, find_first}
use appbi_integration.Context.{RequestContext}
use appbi_integration.Executions.{Execution, Workflow, Store, Env, AppError, ok, err}
use appbi_integration.Executions.Create.{
  Request, Artefact, get_workflow, by_idempotency_key, check_concurrency, new_execution, lookup_key,
  has_key, key_is, create_locked, create,
}
use appbi_integration.Executions.Create.Cases.{
  Outcome, created, replayed, create_cases, ok-injective,
}

-- The unique index: no two rows of one workflow have the same key.
abbrev pub UniqueKeys : Store → Type 0
UniqueKeys s =
    (workspace workflow : ℕ) (key : String)
    → count_if (has_key workspace workflow key) s.executions ≤ 1

find_first-none :
    (p : Execution → Bool) (l : List Execution) → find_first p l ≡ none → count_if p l ≡ 0
find_first-none p [] h = refl
find_first-none p (x ∷ l) h = ground (arith, find_first-none p l)

key_is-some : (key : String) (o : Option String) → key_is key o ≡ true → o ≡ some key
key_is-some key none h = cc
key_is-some key (some k) h = ap some ((eq_iff k key).0 h)

-- The rows that a lookup by key and the unique index agree on.
row_has_key :
    (env : Env) (ctx : RequestContext) (request : Request) (w : Workflow) (a : Artefact)
    (id now workspace workflow : ℕ) (key : String)
    → has_key workspace workflow key (new_execution env ctx request w a id now) ≡ true
    → (workspace ≡ ctx.workspace_id) × (workflow ≡ w.id) × (request.idempotency_key ≡ some key)
unfolding new_execution
row_has_key env ctx request w a id now workspace workflow key h =
    (ground arith, ground arith, key_is-some key request.idempotency_key (ground arith))

lookup_key-none :
    (s : Store) (ctx : RequestContext) (workflow : ℕ) (o : Option String) (key : String)
    → o ≡ some key
    → lookup_key s ctx workflow o ≡ none
    → count_if (has_key ctx.workspace_id workflow key) s.executions ≡ 0
unfolding by_idempotency_key
lookup_key-none s ctx workflow none key p h = cc
lookup_key-none s ctx workflow (some k) key p h =
    subst (λ (j : String). count_if (has_key ctx.workspace_id workflow j) s.executions ≡ 0)
      (unsome p) (find_first-none (has_key ctx.workspace_id workflow k) s.executions h)

none_held :
    (s : Store) {w f : ℕ} (workspace workflow : ℕ) (key : String)
    → workspace ≡ w
    → workflow ≡ f
    → count_if (has_key w f key) s.executions ≡ 0
    → count_if (has_key workspace workflow key) s.executions < 1
none_held s workspace workflow key p q r =
    subst₂ (λ (a b : ℕ). count_if (has_key a b key) s.executions < 1) (sym p) (sym q)
      (omega (arith, r))

module _ (env : Env) (ctx : RequestContext) (request : Request) (now : ℕ) (before s : Store)
    (e : Execution) (s' : Store) (run : create env ctx request now before s ≡ ok (e, s')) where
  -- A successful `create` makes no second row with a key of the same workflow, if there was none
  -- behind the lock, whatever was committed between its first look-up and the lock.
  pub create-UniqueKeys : UniqueKeys s → UniqueKeys s'
  create-UniqueKeys h = go (create_cases env ctx request now before s e s' run)
    where
      go : Outcome env ctx request now before s e s' → UniqueKeys s'
      go (replayed r) = subst UniqueKeys (sym r.unchanged) h
      go (created c) = λ workspace workflow key. rw c.store (
          insert-bound (has_key workspace workflow key) s e 1
            (λ holds.
              let (ws, wf, k) =
                row_has_key env ctx request c.workflow c.artefact s.next_id now workspace workflow
                  key
                  (subst (λ (x : Execution). has_key workspace workflow key x ≡ true) c.row
                    holds) in
              none_held s workspace workflow key ws wf
                (lookup_key-none s ctx c.workflow.id request.idempotency_key key k c.no_key))
            (h workspace workflow key))

  -- If the workflow is found and the store behind the lock holds the key, a successful `create`
  -- inserts nothing: the row that is returned holds the key there or in the store of the first
  -- look-up.
  pub create-replay :
      (w : Workflow) (winner : Execution)
      → get_workflow before ctx request.workflow_id ≡ ok w
      → lookup_key s ctx w.id request.idempotency_key ≡ some winner
      → (s' ≡ s) × ((lookup_key before ctx w.id request.idempotency_key ≡ some e) ⊎ (winner ≡ e))
  create-replay w winner found held = go (create_cases env ctx request now before s e s' run)
    where
      go :
          Outcome env ctx request now before s e s'
          → (s' ≡ s)
            × ((lookup_key before ctx w.id request.idempotency_key ≡ some e) ⊎ (winner ≡ e))
      go (replayed r) =
          let same = ok-injective (sym r.found ∙ found) in
          (
            r.unchanged,
            elim r.holds [
              | inl old ↦ inl (
                  subst
                    (λ (x : Workflow). lookup_key before ctx x.id request.idempotency_key ≡ some e)
                    same old)
              | inr now_held ↦ inr (
                  unsome (
                    sym held
                    ∙ subst
                        (λ (x : Workflow). lookup_key s ctx x.id request.idempotency_key ≡ some e)
                        same now_held))
            ],
          )
      go (created c) =
          let same = ok-injective (sym c.found ∙ found) in
          let absent =
            subst (λ (x : Workflow). lookup_key s ctx x.id request.idempotency_key ≡ none) same
              c.no_key in
          cc

-- Behind the lock, a refusal for concurrency does not hide the run that holds the key: it is
-- returned in place of the refusal.
pub create_locked-replay :
    (env : Env) (ctx : RequestContext) (request : Request) (w : Workflow) (now : ℕ) (s : Store)
    (refusal : AppError) (winner : Execution)
    → check_concurrency env s ctx.workspace_id w.id ≡ err refusal
    → lookup_key s ctx w.id request.idempotency_key ≡ some winner
    → create_locked env ctx request w now s ≡ ok (winner, s)
unfolding create_locked
create_locked-replay env ctx request w now s refusal winner p q = rw p (rw q refl)
