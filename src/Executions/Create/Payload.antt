-- ===== src/Executions/Create/Payload.antt =====
-- backend/app/services/executions.py: what a run is frozen to, and the payload that it and its
-- retries send to the engine. The vault is a parameter; the code relies on its opening what it
-- sealed (backend/app/core/payload_vault.py, Fernet over JSON, under one key).
use appbi_integration.Base.{
  str_eq, ℕ, ◌≡◌, ◌≢◌, refl, sym, ap, subst, ◌∙◌, Bool, true, false, some, ◌⊎◌, inl, inr,
  if◌then◌else◌, [], ◌∷◌, ◌++◌,
}
use appbi_integration.Json.{Json, null, boolean, Fields}
use appbi_integration.Graph.Issue.{is_ok}
use appbi_integration.Graph.Validate.{validate_graph}
use appbi_integration.Context.{RequestContext, require_context}
use appbi_integration.Permissions.{Module, Action}
use appbi_integration.Executions.{
  queued, Execution, Workflow, Store, Env, ok, err, is_terminal, demand, execution_not_terminal,
}
use appbi_integration.Executions.Create.{Request, Artefact, new_execution, insert, seal, create}
use appbi_integration.Executions.Create.Cases.{
  Created, Outcome, created, replayed, create_cases, bind-ok, ok-injective,
}
use appbi_integration.Executions.Engine.{payload_for_engine, open_sealed}
use appbi_integration.Executions.Control.{retry, retry_request}
use appbi_integration.Executions.Control

-- The vault seals a payload in a token that is not empty, and opens it again.
abbrev pub VaultOpens : Env → Json → Type 0
VaultOpens env payload =
    (str_eq (env.seal_token payload) "" ≡ false)
    × (env.open_token (env.seal_token payload) ≡ some payload)

token_opened :
    (env : Env) (payload : Json)
    → VaultOpens env payload
    → open_sealed env (some (env.seal_token payload)) ≡ some payload
token_opened env payload (filled, opened) = rw filled opened

open_sealed-seal :
    (env : Env) (payload : Json)
    → VaultOpens env payload
    → payload ≢ null
    → open_sealed env (seal env payload) ≡ some payload
unfolding seal
open_sealed-seal env null vault h = absurd (h refl)
open_sealed-seal env (boolean b) vault h = token_opened env (boolean b) vault
open_sealed-seal env payload vault h = token_opened env payload vault

payload_opened :
    (env : Env) (e : Execution) {payload : Json}
    → open_sealed env e.start_payload_sealed ≡ some payload
    → payload_for_engine env e ≡ payload
unfolding payload_for_engine
payload_opened env e p = rw (p, payload_for_engine) refl

new_execution-payload :
    (env : Env) (ctx : RequestContext) (request : Request) (w : Workflow) (a : Artefact)
    (id now : ℕ)
    → VaultOpens env request.start_payload
    → request.start_payload ≢ null
    → payload_for_engine env (new_execution env ctx request w a id now) ≡ request.start_payload
unfolding new_execution
new_execution-payload env ctx request w a id now vault h =
    payload_opened env (new_execution env ctx request w a id now)
      (open_sealed-seal env request.start_payload vault h)

-- If the payload is not JSON's null and the vault opens the token that it seals it in, a
-- successful `create` has written nothing, or has added one row: it is queued, sends the engine
-- exactly the caller's payload, and is frozen to a graph that validates with its trigger.
pub create-frozen :
    (env : Env) (ctx : RequestContext) (request : Request) (now : ℕ) (before s : Store)
    (e : Execution) (s' : Store)
    → VaultOpens env request.start_payload
    → request.start_payload ≢ null
    → create env ctx request now before s ≡ ok (e, s')
    → (s' ≡ s)
      ⊎ ((s'.executions ≡ s.executions ++ e ∷ [])
          × (e.status ≡ queued)
          × (payload_for_engine env e ≡ request.start_payload)
          × (is_ok (validate_graph e.graph_snapshot env.definitions true) ≡ true))
create-frozen env ctx request now before s e s' vault h run =
    go (create_cases env ctx request now before s e s' run)
  where
    go :
        Outcome env ctx request now before s e s'
        → (s' ≡ s)
          ⊎ ((s'.executions ≡ s.executions ++ e ∷ [])
              × (e.status ≡ queued)
              × (payload_for_engine env e ≡ request.start_payload)
              × (is_ok (validate_graph e.graph_snapshot env.definitions true) ≡ true))
    go (replayed r) = inl r.unchanged
    go (created c) =
        let frozen : (e.graph_snapshot ≡ c.artefact.graph) =
          ap (λ (x : Execution). x.graph_snapshot) c.row ∙ unfold new_execution in refl in
        inr (
          ap (λ (x : Store). x.executions) c.store ∙ unfold insert in refl,
          ap (λ (x : Execution). x.status) c.row ∙ unfold new_execution in refl,
          ap (payload_for_engine env) c.row
              ∙ new_execution-payload env ctx request c.workflow c.artefact s.next_id now vault h,
          subst (λ (g : Fields). is_ok (validate_graph g env.definitions true) ≡ true) (sym frozen)
              c.valid,
        )

Created-of_retry :
    (env : Env) (ctx : RequestContext) (original : Execution) (now : ℕ) (s : Store) (e : Execution)
    (s' : Store)
    → Outcome env ctx (retry_request env original) now s s e s'
    → Created env ctx (retry_request env original) now s s e s'
unfolding retry_request
Created-of_retry env ctx original now s e s' (created c) = c
Created-of_retry env ctx original now s e s' (replayed r) =
    absurd (elim r.holds [ inl h ↦ cc | inr h ↦ cc ])

-- If what the original run sends the engine is not JSON's null and the vault opens the token that
-- it seals it in, a successful retry is of a run that has ended, and adds one row: it names the
-- original and sends the engine the same payload. No row that was there changes.
pub retry_resends :
    (env : Env) (ctx : RequestContext) (execution_id now : ℕ) (s : Store) (original e : Execution)
    (s' : Store)
    → Control.get s ctx execution_id ≡ ok original
    → VaultOpens env (payload_for_engine env original)
    → payload_for_engine env original ≢ null
    → retry env ctx execution_id now s ≡ ok (e, s')
    → (is_terminal original.status ≡ true)
      × (s'.executions ≡ s.executions ++ e ∷ [])
      × (e.retry_of ≡ some original.id)
      × (payload_for_engine env e ≡ payload_for_engine env original)
unfolding retry
retry_resends env ctx execution_id now s original e s' found vault given h =
    let (u, permitted, rest) =
      bind-ok (demand (require_context ctx Module.executions Action.execute)) _ h in
    let (o, found', more) = bind-ok (Control.get s ctx execution_id) _ rest in
    go (is_terminal original.status) refl (
      subst
        (λ (x : Execution).
          (if is_terminal x.status
            then create env ctx (retry_request env x) now s s
            else err execution_not_terminal)
          ≡ ok (e, s'))
        (ok-injective (sym found' ∙ found)) more)
  where
    go :
        (b : Bool)
        → is_terminal original.status ≡ b
        → (if b
            then create env ctx (retry_request env original) now s s
            else err execution_not_terminal)
          ≡ ok (e, s')
        → (is_terminal original.status ≡ true)
          × (s'.executions ≡ s.executions ++ e ∷ [])
          × (e.retry_of ≡ some original.id)
          × (payload_for_engine env e ≡ payload_for_engine env original)
    go false ended run = cc
    go true ended run =
        let c =
          Created-of_retry env ctx original now s e s'
            (create_cases env ctx (retry_request env original) now s s e s' run) in
        (
          ended,
          ap (λ (x : Store). x.executions) c.store ∙ unfold insert in refl,
          ap (λ (x : Execution). x.retry_of) c.row ∙ unfold new_execution retry_request in refl,
          ap (payload_for_engine env) c.row
              ∙ new_execution-payload env ctx (retry_request env original) c.workflow c.artefact
                  s.next_id now (unfold retry_request in vault) (unfold retry_request in given)
              ∙ unfold retry_request in refl,
        )
