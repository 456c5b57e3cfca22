-- ===== src/Workflows/Flow/Requests.antt =====
-- backend/app/services/workflows.py: what one request changes in the tables of workflows.
use appbi_integration.Base.{
  str_eq, ◌⊎◌, unsome, &&_split, ℕ, suc, String, ◌≡◌, refl, ap, subst, Bool, true, Option, none,
  some, List, [], ◌∷◌, ◌++◌, map, ◌==◌, Bool-cases, inl, inr,
}
use appbi_integration.Base.Lists.{find_first, all}
use appbi_integration.Json.{Fields}
use appbi_integration.Graph.Text.{strip}
use appbi_integration.Graph.Dict.{lookup}
use appbi_integration.Graph.Schema.{empty_graph}
use appbi_integration.Permissions.{Module, Action}
use appbi_integration.Context.{RequestContext, require_context}
use appbi_integration.Errors.{Result, ok, err, demand, bind-ok, ok-injective}
use appbi_integration.Executions.{TriggerType, manual}
use appbi_integration.Workflows.Flow.{
  BindingConfig, blank, Flow, FlowVersion, Flows, Tools, is_flow, found_flow, get_flow, draft_of,
  write_flow, write_flow_row,
}
use appbi_integration.Workflows.Flow.Sync.{sync_trigger}
use appbi_integration.Workflows.Flow.Edit.{
  trigger_definition, check_name, new_flow, add_flow, create_flow, renamed, rename, same_revision,
  saved_draft, save_draft, duplicate, delete,
}
use appbi_integration.Workflows.Flow.Publish.{
  validate_draft, max_number, publish, activate, deactivate,
}
use appbi_integration.Workflows.Flow.Synced.{agrees, sync_trigger-Keeps}

-- A request on the workflows; `saves` and `deletes` come with their moment.
pub data FlowRequest : Type 0 where
  creates : RequestContext → String → String → ℕ → FlowRequest
  renames : RequestContext → ℕ → Option String → FlowRequest
  saves : RequestContext → ℕ → Fields → ℕ → ℕ → FlowRequest
  validates : RequestContext → ℕ → Bool → FlowRequest
  publishes : RequestContext → ℕ → Option ℕ → FlowRequest
  activates : RequestContext → ℕ → Option ℕ → ℕ → FlowRequest
  deactivates : RequestContext → ℕ → FlowRequest
  duplicates : RequestContext → ℕ → ℕ → FlowRequest
  deletes : RequestContext → ℕ → ℕ → FlowRequest

abbrev pub second {ℓ} : {A : Type ℓ} → Result (A × Flows) → Result Flows
second (ok (a, s)) = ok s
second (err e) = err e

-- The request, with no other between its reads and its writes.
unfoldable pub serve : Tools → FlowRequest → Flows → Result Flows
unfolding create_flow rename save_draft validate_draft publish activate deactivate duplicate delete
serve tools (creates ctx name key now) s = second (create_flow tools ctx name key now s)
serve tools (renames ctx id name) s = rename ctx id name s
serve tools (saves ctx id graph expected now) s =
    second (save_draft tools ctx id graph expected now s)
serve tools (validates ctx id with_engine) s = second (validate_draft tools ctx id with_engine s)
serve tools (publishes ctx id expected) s = second (publish tools ctx id expected s)
serve tools (activates ctx id number now) s = activate tools ctx id number now s
serve tools (deactivates ctx id) s = deactivate ctx id s
serve tools (duplicates ctx id now) s = second (duplicate tools ctx id now s)
serve tools (deletes ctx id now) s = delete tools ctx id now s

-- What one request did: status and trigger agree where they did, and the versions are the ones that
-- were, with one more at most, whose number is the next of its workflow.
pub record FlowChange (s d : Flows) : Type 0 where
  pub agreed : all agrees s.flows ≡ true → all agrees d.flows ≡ true
  pub grown :
      (d.versions ≡ s.versions)
      ⊎ ((v : FlowVersion) × (v.version_number ≡ suc (max_number v.workflow_id s.versions))
          × (d.versions ≡ s.versions ++ v ∷ []))

pub get_flow-find :
    (s : Flows) (ctx : RequestContext) (id : ℕ) (f : Flow)
    → get_flow s ctx id ≡ ok f
    → find_first (is_flow ctx.workspace_id id) s.flows ≡ some f
unfolding get_flow
get_flow-find s ctx id f h = go _ h
  where
    go : (o : Option Flow) → found_flow o ≡ ok f → o ≡ some f
    go none p = cc
    go (some g) p = cc

pub second-ok {ℓ} :
    {A : Type ℓ} (r : Result (A × Flows)) (d : Flows) → second r ≡ ok d → (a : A) × (r ≡ ok (a, d))
second-ok (ok (a, s)) d h = (a, ap (λ (x : Flows). ok (a, x)) (ok-injective h))
second-ok (err e) d h = cc

pub all-found :
    (p q : Flow → Bool) (l : List Flow) (f : Flow)
    → all p l ≡ true
    → find_first q l ≡ some f
    → p f ≡ true
all-found p q [] f h k = cc
all-found p q (x ∷ l) f h k = elim (Bool-cases (q x)) [
  | inl j ↦ subst (λ (y : Flow). p y ≡ true) (unsome (rw j at k)) ((&&_split (p x) (all p l) h).0)
  | inr j ↦ all-found p q l f ((&&_split (p x) (all p l) h).1) (rw j at k)
]

pub all-write :
    (p : Flow → Bool) (f : Flow) (l : List Flow)
    → p f ≡ true
    → all p l ≡ true
    → all p (map (write_flow_row f) l) ≡ true
all-write p f [] h k = refl
all-write p f (x ∷ l) h k =
    let (first, rest) = &&_split (p x) (all p l) k in
    elim (Bool-cases (x.id == f.id)) [
      | inl j ↦ rw j (rw h (all-write p f l h rest))
      | inr j ↦ rw j (rw first (all-write p f l h rest))
    ]

all-add :
    (p : Flow → Bool) (f : Flow) (l : List Flow)
    → p f ≡ true
    → all p l ≡ true
    → all p (l ++ f ∷ []) ≡ true
all-add p f [] h k = rw h refl
all-add p f (x ∷ l) h k =
    let (first, rest) = &&_split (p x) (all p l) k in rw first (all-add p f l h rest)

-- A request that writes one row that it read.
pub wrote :
    (s : Flows) (n : ℕ) (ctx : RequestContext) (id : ℕ) (f f' : Flow)
    → find_first (is_flow ctx.workspace_id id) s.flows ≡ some f
    → (agrees f ≡ true → agrees f' ≡ true)
    → FlowChange s (write_flow f' (record s { next_id = n }))
unfolding write_flow
wrote s n ctx id f f' found kept = record {
  agreed = λ h.
      all-write agrees f' s.flows
        (kept (all-found agrees (is_flow ctx.workspace_id id) s.flows f h found)) h;
  grown = inl refl;
}

pub opened : (s : Flows) (f : Flow) → agrees f ≡ true → FlowChange s (add_flow f s)
opened s f h = record { agreed = all-add agrees f s.flows h; grown = inl refl }

renamed-agrees :
    (o : Option String) (f f' : Flow) → renamed o f ≡ ok f' → agrees f ≡ true → agrees f' ≡ true
renamed-agrees none f f' h k = subst (λ (x : Flow). agrees x ≡ true) (ok-injective h) k
renamed-agrees (some name) f f' h k = elim (Bool-cases (str_eq (strip name) "")) [
  | inl j ↦ cc (rw j at h)
  | inr j ↦ subst (λ (x : Flow). agrees x ≡ true) (ok-injective (rw j at h)) k
]

pub rename-FlowChange :
    (ctx : RequestContext) (id : ℕ) (name : Option String) (s d : Flows)
    → rename ctx id name s ≡ ok d
    → FlowChange s d
unfolding rename
rename-FlowChange ctx id name s d h =
    let (a, p, h1) = bind-ok (demand (require_context ctx Module.workflows Action.edit)) _ h in
    let (f, found, h2) = bind-ok (get_flow s ctx id) _ h1 in
    let (f', did, h3) = bind-ok (renamed name f) _ h2 in
    subst (λ (x : Flows). FlowChange s x) (ok-injective h3)
      (wrote s s.next_id ctx id f f' (get_flow-find s ctx id f found)
        (renamed-agrees name f f' did))

pub new_flow-agrees :
    (tools : Tools) (id workspace : ℕ) (name : String) (t : TriggerType) (config : BindingConfig)
    (graph : Fields)
    → agrees (new_flow tools id workspace name t config graph) ≡ true
unfolding new_flow
new_flow-agrees tools id workspace name t config graph = refl

pub create_flow-FlowChange :
    (tools : Tools) (ctx : RequestContext) (name key : String) (now : ℕ) (s d : Flows) (new : ℕ)
    → create_flow tools ctx name key now s ≡ ok (new, d)
    → FlowChange s d
unfolding create_flow
create_flow-FlowChange tools ctx name key now s d new h =
    let (a, p, h1) = bind-ok (demand (require_context ctx Module.workflows Action.create)) _ h in
    let (named, q, h2) = bind-ok (check_name (strip name)) _ h1 in
    let (definition, r, h3) = bind-ok (trigger_definition (lookup key tools.definitions)) _ h2 in
    let graph = empty_graph key (some definition) in
    let fresh = new_flow tools s.next_id ctx.workspace_id named manual blank graph in
    let (f, did, h4) = bind-ok (sync_trigger tools now (suc s.next_id) graph fresh) _ h3 in
    subst (λ (x : Flows). FlowChange s x) (ap (λ (x : ℕ × Flows). x.1) (ok-injective h4))
      (opened s f (
        (sync_trigger-Keeps tools now (suc s.next_id) graph fresh f did).agreed
          (new_flow-agrees tools s.next_id ctx.workspace_id named manual blank graph)))

pub save_draft-FlowChange :
    (tools : Tools) (ctx : RequestContext) (id : ℕ) (graph : Fields) (expected now : ℕ)
    (s d : Flows) (new : ℕ)
    → save_draft tools ctx id graph expected now s ≡ ok (new, d)
    → FlowChange s d
unfolding save_draft
save_draft-FlowChange tools ctx id graph expected now s d new h =
    let (a, p, h1) = bind-ok (demand (require_context ctx Module.workflows Action.edit)) _ h in
    let (f, found, h2) = bind-ok (get_flow s ctx id) _ h1 in
    let (old, has, h3) = bind-ok (draft_of f.draft) _ h2 in
    let (b, same, h4) = bind-ok (same_revision expected old.revision) _ h3 in
    let drafted = record f { draft = some (saved_draft tools graph old) } in
    let (f', did, h5) = bind-ok (sync_trigger tools now s.next_id graph drafted) _ h4 in
    subst (λ (x : Flows). FlowChange s x) (ap (λ (x : ℕ × Flows). x.1) (ok-injective h5))
      (wrote s (suc s.next_id) ctx id f f' (get_flow-find s ctx id f found)
        (sync_trigger-Keeps tools now s.next_id graph drafted f' did).agreed)
