-- ===== src/Workflows/Flow/Served.antt =====
-- backend/app/services/workflows.py: any sequence of requests on the workflows.
use appbi_integration.Base.{
  ℕ, suc, ◌≡◌, refl, sym, ap, subst, Bool, true, not, Option, some, List, [], ◌∷◌, ◌++◌, map, inr,
  ==_refl,
}
use appbi_integration.Base.Lists.{any}
use Prim.Native.String.{◌++◌ as join}
use appbi_integration.Graph.Issue.{is_ok, max_name_length}
use appbi_integration.Graph.Validate.{validate_graph}
use appbi_integration.Permissions.{Module, Action}
use appbi_integration.Context.{RequestContext, require_context}
use appbi_integration.Errors.{
  ok, err, demand, bind-ok, ok-injective, workflow_invalid, credential_invalid, conflict,
  workflow_already_running,
}
use appbi_integration.Workflows.Flow.{
  FlowStatus, Binding, Draft, Flow, FlowVersion, Flows, Tools, Report, get_flow, draft_of,
  write_flow, first_trigger,
}
use appbi_integration.Workflows.Flow.Sync.{sync_trigger}
use appbi_integration.Workflows.Flow.Edit.{
  take_chars, new_flow, config_of_first, duplicate, is_active_flow, released, refuse_if, delete,
}
use appbi_integration.Workflows.Flow.Publish.{
  credential_issues, is_blocking, validate_draft, revision_if_given, certify, max_number,
  new_version, add_version, publish, wanted_version, trigger_or_refuse, next_if_schedule, switch_on,
  activate, switched_off, deactivate,
}
use appbi_integration.Workflows.Flow.Synced.{
  agrees, consistent, first_trigger-with_first, sync_trigger-Keeps,
}
use appbi_integration.Workflows.Flow.Requests.{
  FlowRequest, creates, renames, saves, validates, publishes, activates, deactivates, duplicates,
  deletes, serve, second-ok, FlowChange, get_flow-find, wrote, opened, rename-FlowChange,
  create_flow-FlowChange, save_draft-FlowChange, new_flow-agrees,
}

validate_draft-FlowChange :
    (tools : Tools) (ctx : RequestContext) (id : ℕ) (with_engine : Bool) (s d : Flows)
    (report : Report)
    → validate_draft tools ctx id with_engine s ≡ ok (report, d)
    → FlowChange s d
unfolding validate_draft
validate_draft-FlowChange tools ctx id with_engine s d report h =
    let (a, p, h1) = bind-ok (demand (require_context ctx Module.workflows Action.view)) _ h in
    let (f, found, h2) = bind-ok (get_flow s ctx id) _ h1 in
    let (draft, has, h3) = bind-ok (draft_of f.draft) _ h2 in
    subst (λ (x : Flows). FlowChange s x) (ap (λ (x : Report × Flows). x.1) (ok-injective h3))
      (wrote s s.next_id ctx id f _ (get_flow-find s ctx id f found) (λ k. k))

-- The versions are those that were after a validation.
pub validate_draft-versions :
    (tools : Tools) (ctx : RequestContext) (id : ℕ) (with_engine : Bool) (s d : Flows)
    (report : Report)
    → validate_draft tools ctx id with_engine s ≡ ok (report, d)
    → d.versions ≡ s.versions
unfolding validate_draft write_flow
validate_draft-versions tools ctx id with_engine s d report h =
    let (a, p, h1) = bind-ok (demand (require_context ctx Module.workflows Action.view)) _ h in
    let (f, found, h2) = bind-ok (get_flow s ctx id) _ h1 in
    let (draft, has, h3) = bind-ok (draft_of f.draft) _ h2 in
    ap (λ (x : Report × Flows). x.1.versions) (sym (ok-injective h3))

frozen :
    (s middle : Flows) (ctx : RequestContext) (id : ℕ) (row : Flow) (draft : Draft)
    → FlowChange s middle
    → middle.versions ≡ s.versions
    → get_flow middle ctx id ≡ ok row
    → FlowChange s (add_version (new_version middle.next_id row draft middle.versions) row middle)
unfolding add_version new_version
frozen s middle ctx id row draft change same found = record {
  agreed = λ h.
      (wrote middle middle.next_id ctx id row
          (record row { published_version_id = some middle.next_id })
          (get_flow-find middle ctx id row found) (λ k. k)).agreed
        (change.agreed h);
  grown = inr (
    new_version middle.next_id row draft middle.versions,
    ap (λ (l : List FlowVersion). suc (max_number row.id l)) same,
    ap (λ (l : List FlowVersion). l ++ new_version middle.next_id row draft middle.versions ∷ [])
        same,
  );
}

publish-FlowChange :
    (tools : Tools) (ctx : RequestContext) (id : ℕ) (expected : Option ℕ) (s d : Flows) (number : ℕ)
    → publish tools ctx id expected s ≡ ok (number, d)
    → FlowChange s d
unfolding publish
publish-FlowChange tools ctx id expected s d number h =
    let (a, p, h1) = bind-ok (demand (require_context ctx Module.workflows Action.publish)) _ h in
    let (f, found, h2) = bind-ok (get_flow s ctx id) _ h1 in
    let (draft, has, h3) = bind-ok (draft_of f.draft) _ h2 in
    let (b, same, h4) = bind-ok (revision_if_given expected draft.revision) _ h3 in
    let (outcome, examined, h5) = bind-ok (validate_draft tools ctx id true s) _ h4 in
    let (c, certified, h6) = bind-ok (certify outcome.0) _ h5 in
    let (row, again, h7) = bind-ok (get_flow outcome.1 ctx id) _ h6 in
    subst (λ (x : Flows). FlowChange s x) (ap (λ (x : ℕ × Flows). x.1) (ok-injective h7))
      (frozen s outcome.1 ctx id row draft
        (validate_draft-FlowChange tools ctx id true s outcome.1 outcome.0 examined)
        (validate_draft-versions tools ctx id true s outcome.1 outcome.0 examined) again)

on-agrees :
    (v : FlowVersion) (next : Option ℕ) (b : Binding) (f : Flow)
    → agrees (switch_on v next b f) ≡ true
on-agrees v next b f =
    rw
      (first_trigger-with_first
        (record b { workflow_version_id = some v.id; enabled = true; next_run_at = next })
        f.triggers)
      (==_refl v.id)

off-agrees :
    (f : Flow)
    → agrees (record f { status = FlowStatus.inactive; triggers = switched_off f.triggers }) ≡ true
off-agrees f = go f.triggers
  where
    go :
        (l : List Binding)
        → consistent FlowStatus.inactive f.active_version_id (first_trigger (switched_off l)) ≡ true
    go [] = refl
    go (b ∷ rest) = refl

gone-agrees :
    (f : Flow) (now : ℕ)
    → agrees (record f {
      deleted_at = some now;
      status = FlowStatus.deleted;
      triggers = map released f.triggers;
    })
      ≡ true
gone-agrees f now = go f.triggers
  where
    go :
        (l : List Binding)
        → consistent FlowStatus.deleted f.active_version_id (first_trigger (map released l)) ≡ true
    go [] = refl
    go (b ∷ rest) = refl

activate-FlowChange :
    (tools : Tools) (ctx : RequestContext) (id : ℕ) (number : Option ℕ) (now : ℕ) (s d : Flows)
    → activate tools ctx id number now s ≡ ok d
    → FlowChange s d
unfolding activate
activate-FlowChange tools ctx id number now s d h =
    let (a, p, h1) = bind-ok (demand (require_context ctx Module.workflows Action.publish)) _ h in
    let (f, found, h2) = bind-ok (get_flow s ctx id) _ h1 in
    let (v, chosen, h3) =
      bind-ok (wanted_version f number f.published_version_id s.versions) _ h2 in
    let result = validate_graph v.graph tools.definitions true in
    let (b, valid, h4) =
      bind-ok (refuse_if (not (is_ok result)) (err (workflow_invalid result.issues))) _ h3 in
    let (c, usable, h5) =
      bind-ok
        (refuse_if (any is_blocking (credential_issues tools ctx s.credentials result).0)
          (err credential_invalid))
        _ h4 in
    let (binding, there, h6) = bind-ok (trigger_or_refuse (first_trigger f.triggers)) _ h5 in
    let (next, fires, h7) = bind-ok (next_if_schedule tools now binding) _ h6 in
    subst (λ (x : Flows). FlowChange s x) (ok-injective h7)
      (wrote s s.next_id ctx id f (switch_on v next binding f) (get_flow-find s ctx id f found)
        (λ k. on-agrees v next binding f))

deactivate-FlowChange :
    (ctx : RequestContext) (id : ℕ) (s d : Flows) → deactivate ctx id s ≡ ok d → FlowChange s d
unfolding deactivate
deactivate-FlowChange ctx id s d h =
    let (a, p, h1) = bind-ok (demand (require_context ctx Module.workflows Action.publish)) _ h in
    let (f, found, h2) = bind-ok (get_flow s ctx id) _ h1 in
    subst (λ (x : Flows). FlowChange s x) (ok-injective h2)
      (wrote s s.next_id ctx id f _ (get_flow-find s ctx id f found) (λ k. off-agrees f))

delete-FlowChange :
    (tools : Tools) (ctx : RequestContext) (id now : ℕ) (s d : Flows)
    → delete tools ctx id now s ≡ ok d
    → FlowChange s d
unfolding delete
delete-FlowChange tools ctx id now s d h =
    let (a, p, h1) = bind-ok (demand (require_context ctx Module.workflows Action.delete)) _ h in
    let (f, found, h2) = bind-ok (get_flow s ctx id) _ h1 in
    let (b, off, h3) = bind-ok (refuse_if (is_active_flow f.status) (err conflict)) _ h2 in
    let (c, idle, h4) =
      bind-ok (refuse_if (tools.has_active_run f.workspace_id f.id) (err workflow_already_running))
        _ h3 in
    subst (λ (x : Flows). FlowChange s x) (ok-injective h4)
      (wrote s s.next_id ctx id f _ (get_flow-find s ctx id f found) (λ k. gone-agrees f now))

duplicate-FlowChange :
    (tools : Tools) (ctx : RequestContext) (id now : ℕ) (s d : Flows) (new : ℕ)
    → duplicate tools ctx id now s ≡ ok (new, d)
    → FlowChange s d
unfolding duplicate
duplicate-FlowChange tools ctx id now s d new h =
    let (a, p, h1) = bind-ok (demand (require_context ctx Module.workflows Action.create)) _ h in
    let (source, found, h2) = bind-ok (get_flow s ctx id) _ h1 in
    let (draft, has, h3) = bind-ok (draft_of source.draft) _ h2 in
    let named = take_chars max_name_length (join source.name " (copy)") in
    let config = config_of_first (first_trigger source.triggers) in
    let copy =
      new_flow tools s.next_id ctx.workspace_id named source.trigger_type_cache config
        draft.graph in
    let (f, did, h4) = bind-ok (sync_trigger tools now (suc s.next_id) draft.graph copy) _ h3 in
    subst (λ (x : Flows). FlowChange s x) (ap (λ (x : ℕ × Flows). x.1) (ok-injective h4))
      (opened s f (
        (sync_trigger-Keeps tools now (suc s.next_id) draft.graph copy f did).agreed (
          new_flow-agrees tools s.next_id ctx.workspace_id named source.trigger_type_cache config
            draft.graph)))

-- A request that succeeds makes such a change.
pub serve-FlowChange :
    (tools : Tools) (r : FlowRequest) (s d : Flows) → serve tools r s ≡ ok d → FlowChange s d
unfolding serve
serve-FlowChange tools (creates ctx name key now) s d h =
    let (n, p) = second-ok _ d h in create_flow-FlowChange tools ctx name key now s d n p
serve-FlowChange tools (renames ctx id name) s d h = rename-FlowChange ctx id name s d h
serve-FlowChange tools (saves ctx id graph expected now) s d h =
    let (n, p) = second-ok _ d h in save_draft-FlowChange tools ctx id graph expected now s d n p
serve-FlowChange tools (validates ctx id with_engine) s d h =
    let (n, p) = second-ok _ d h in validate_draft-FlowChange tools ctx id with_engine s d n p
serve-FlowChange tools (publishes ctx id expected) s d h =
    let (n, p) = second-ok _ d h in publish-FlowChange tools ctx id expected s d n p
serve-FlowChange tools (activates ctx id number now) s d h =
    activate-FlowChange tools ctx id number now s d h
serve-FlowChange tools (deactivates ctx id) s d h = deactivate-FlowChange ctx id s d h
serve-FlowChange tools (duplicates ctx id now) s d h =
    let (n, p) = second-ok _ d h in duplicate-FlowChange tools ctx id now s d n p
serve-FlowChange tools (deletes ctx id now) s d h = delete-FlowChange tools ctx id now s d h
