-- ===== src/Executions/Create/Cases.antt =====
-- backend/app/services/executions.py: what a successful `create` has done.
use appbi_integration.Base.{
  ℕ, ◌≡◌, refl, sym, ap, ◌∙◌, ◌⊎◌, inl, inr, Bool, true, false, Option, none, some, if◌then◌else◌,
}
use appbi_integration.Graph.Issue.{is_ok}
use appbi_integration.Graph.Validate.{validate_graph}
use appbi_integration.Permissions.{Module, Action}
use appbi_integration.Context.{RequestContext, require_context}
use appbi_integration.Executions.{
  Execution, Workflow, Store, Env, workflow_invalid, Result, ok, err, demand,
}
pub use appbi_integration.Errors.{bind-ok, ok-injective}
use appbi_integration.Executions.Create.{
  Request, Artefact, get_workflow, check_concurrency, resolve_artefact, new_execution, insert,
  insert_unless, after_check, unless_known, lookup_key, create_row, create_locked, create,
}

-- A new row was inserted behind the lock.
pub record Created (env : Env) (ctx : RequestContext) (request : Request) (now : ℕ)
    (before s : Store) (e : Execution) (s' : Store) : Type 0 where
  pub workflow : Workflow
  pub artefact : Artefact
  pub found : get_workflow before ctx request.workflow_id ≡ ok workflow
  pub room : check_concurrency env s ctx.workspace_id workflow.id ≡ ok tt
  pub no_key : lookup_key s ctx workflow.id request.idempotency_key ≡ none
  pub resolved : resolve_artefact s workflow request.kind request.version_id ≡ ok artefact
  pub valid : is_ok (validate_graph artefact.graph env.definitions true) ≡ true
  pub row : e ≡ new_execution env ctx request workflow artefact s.next_id now
  pub store : s' ≡ insert s e

-- The row that holds the key was returned, and nothing written.
pub record Replayed (ctx : RequestContext) (request : Request) (before s : Store) (e : Execution)
    (s' : Store) : Type 0 where
  pub workflow : Workflow
  pub found : get_workflow before ctx request.workflow_id ≡ ok workflow
  pub holds :
      (lookup_key before ctx workflow.id request.idempotency_key ≡ some e)
      ⊎ (lookup_key s ctx workflow.id request.idempotency_key ≡ some e)
  pub unchanged : s' ≡ s

pub data Outcome (env : Env) (ctx : RequestContext) (request : Request) (now : ℕ) (before s : Store)
    (e : Execution) (s' : Store) : Type 0 where
  created : Created env ctx request now before s e s' → Outcome env ctx request now before s e s'
  replayed : Replayed ctx request before s e s' → Outcome env ctx request now before s e s'

module _ (env : Env) (ctx : RequestContext) (request : Request) (now : ℕ) (before s : Store)
    (e : Execution) (s' : Store) where
  module _ (w : Workflow) (found : get_workflow before ctx request.workflow_id ≡ ok w) where
    inserted :
        (a : Artefact) (b : Bool) (o : Option Execution)
        → check_concurrency env s ctx.workspace_id w.id ≡ ok tt
        → resolve_artefact s w request.kind request.version_id ≡ ok a
        → is_ok (validate_graph a.graph env.definitions true) ≡ b
        → lookup_key s ctx w.id request.idempotency_key ≡ o
        → (if b
            then insert_unless o (new_execution env ctx request w a s.next_id now) s
            else err (workflow_invalid (validate_graph a.graph env.definitions true).issues))
          ≡ ok (e, s')
        → Outcome env ctx request now before s e s'
    inserted a false o room r p q h = cc
    inserted a true (some winner) room r p q h =
        let same = ok-injective h in
        replayed (record {
          workflow = w;
          found = found;
          holds = inr (q ∙ ap (λ (x : Execution × Store). some x.0) same);
          unchanged = sym (ap (λ (x : Execution × Store). x.1) same);
        })
    inserted a true none room r p q h =
        let same = ok-injective h in
        created (record {
          workflow = w;
          artefact = a;
          found = found;
          room = room;
          no_key = q;
          resolved = r;
          valid = p;
          row = sym (ap (λ (x : Execution × Store). x.0) same);
          store =
              sym (ap (λ (x : Execution × Store). x.1) same)
              ∙ ap (λ (x : Execution × Store). insert s x.0) same;
        })

    row_cases :
        check_concurrency env s ctx.workspace_id w.id ≡ ok tt
        → create_row env ctx request w now s ≡ ok (e, s')
        → Outcome env ctx request now before s e s'
    unfolding create_row
    row_cases room h =
        let (a, r, rest) = bind-ok (resolve_artefact s w request.kind request.version_id) _ h in
        inserted a (is_ok (validate_graph a.graph env.definitions true))
          (lookup_key s ctx w.id request.idempotency_key) room r refl refl rest

    locked_cases :
        create_locked env ctx request w now s ≡ ok (e, s')
        → Outcome env ctx request now before s e s'
    unfolding create_locked
    locked_cases h =
        go (check_concurrency env s ctx.workspace_id w.id)
          (lookup_key s ctx w.id request.idempotency_key) refl refl h
      where
        go :
            (c : Result (Unit {0})) (o : Option Execution)
            → check_concurrency env s ctx.workspace_id w.id ≡ c
            → lookup_key s ctx w.id request.idempotency_key ≡ o
            → after_check c o s (create_row env ctx request w now s) ≡ ok (e, s')
            → Outcome env ctx request now before s e s'
        go (ok done) o p q k = row_cases p k
        go (err refusal) none p q k = cc
        go (err refusal) (some winner) p q k =
            let same = ok-injective k in
            replayed (record {
              workflow = w;
              found = found;
              holds = inr (q ∙ ap (λ (x : Execution × Store). some x.0) same);
              unchanged = sym (ap (λ (x : Execution × Store). x.1) same);
            })

    looked_up :
        (o : Option Execution)
        → lookup_key before ctx w.id request.idempotency_key ≡ o
        → unless_known o s (create_locked env ctx request w now s) ≡ ok (e, s')
        → Outcome env ctx request now before s e s'
    looked_up none p h = locked_cases h
    looked_up (some existing) p h =
        let same = ok-injective h in
        replayed (record {
          workflow = w;
          found = found;
          holds = inl (p ∙ ap (λ (x : Execution × Store). some x.0) same);
          unchanged = sym (ap (λ (x : Execution × Store). x.1) same);
        })

  pub create_cases :
      create env ctx request now before s ≡ ok (e, s') → Outcome env ctx request now before s e s'
  unfolding create
  create_cases h =
      let (u, allowed_, rest) =
        bind-ok (demand (require_context ctx Module.workflows Action.execute)) _ h in
      let (w, found, more) = bind-ok (get_workflow before ctx request.workflow_id) _ rest in
      looked_up w found (lookup_key before ctx w.id request.idempotency_key) refl more
