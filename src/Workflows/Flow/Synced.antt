-- ===== src/Workflows/Flow/Synced.antt =====
-- backend/app/services/workflows.py, `_sync_trigger_from_graph`: what it leaves as it was.
use appbi_integration.Base.{
  ℕ, ◌≡◌, refl, subst, Bool, true, false, not, ◌&&◌, Option, none, some, List, [], ◌∷◌, ◌==◌,
  if◌then◌else◌,
}
use appbi_integration.Json.{Json, Fields, get}
use appbi_integration.Graph.Schema.{as_fields}
use appbi_integration.Graph.Nodes.{raw_key_of}
use appbi_integration.Graph.Credentials.{trigger_of}
use appbi_integration.Errors.{ok, bind-ok, ok-injective}
use appbi_integration.Executions.{TriggerType, manual, webhook, schedule}
use appbi_integration.Schedules.{validate, next_run_at}
use appbi_integration.Workflows.Flow.{FlowStatus, Binding, Flow, Tools, first_trigger, with_first}
use appbi_integration.Workflows.Flow.Sync.{
  webhook_config, overlap_of, rescheduled, bound, switched, or_binding, sync_with, sync_trigger,
  type_of, same_type,
}
use appbi_integration.Workflows.Flow.Edit.{is_active_flow}

abbrev pub same_id : Option ℕ → Option ℕ → Bool
same_id (some a) (some b) = a == b
same_id _ _ = false

-- A workflow is active where its trigger is enabled, and the trigger then fires the active version.
abbrev pub consistent : FlowStatus → Option ℕ → Option Binding → Bool
consistent status version none = not (is_active_flow status)
consistent status version (some b) =
    if b.enabled
    then is_active_flow status && same_id version b.workflow_version_id
    else not (is_active_flow status)

abbrev pub agrees : Flow → Bool
agrees f = consistent f.status f.active_version_id (first_trigger f.triggers)

pub first_trigger-with_first :
    (b : Binding) (l : List Binding) → first_trigger (with_first b l) ≡ some b
first_trigger-with_first b [] = refl
first_trigger-with_first b (x ∷ l) = refl

-- What a write of a binding by the sync keeps of it.
abbrev pub StaysBound : Binding → Binding → Type 0
StaysBound b written =
    (written.enabled ≡ b.enabled) × (written.workflow_version_id ≡ b.workflow_version_id)

bound-StaysBound :
    (tools : Tools) (now fresh : ℕ) (t : TriggerType) (config : Fields) (b written : Binding)
    → bound tools now fresh t config b ≡ ok written
    → StaysBound b written
unfolding bound
bound-StaysBound tools now fresh schedule config b written h =
    let (normalized, valid, h1) = bind-ok (validate tools.calendar config tools.timezone) _ h in
    let (policy, known, h2) = bind-ok (overlap_of normalized.overlap_policy) _ h1 in
    let (next, fires, h3) =
      bind-ok (rescheduled b.enabled (next_run_at tools.calendar normalized now) b.next_run_at) _
        h2 in
    subst (λ (x : Binding). StaysBound b x) (ok-injective h3) (refl, refl)
bound-StaysBound tools now fresh webhook config b written h =
    let (settings, valid, h1) = bind-ok (webhook_config tools config) _ h in
    subst (λ (x : Binding). StaysBound b x) (ok-injective h1) (refl, refl)
bound-StaysBound tools now fresh manual config b written h =
    subst (λ (x : Binding). StaysBound b x) (ok-injective h) (refl, refl)

or_binding-consistent :
    (status : FlowStatus) (version : Option ℕ) (o : Option Binding)
    → consistent status version o ≡ true
    → consistent status version (some (or_binding o)) ≡ true
or_binding-consistent status version none h = h
or_binding-consistent status version (some b) h = h

-- What the sync keeps of a workflow.
pub record Keeps (f f' : Flow) : Type 0 where
  pub same_row : f'.id ≡ f.id
  pub same_workspace : f'.workspace_id ≡ f.workspace_id
  pub same_deletion : f'.deleted_at ≡ f.deleted_at
  pub same_draft : f'.draft ≡ f.draft
  pub same_active : f'.active_version_id ≡ f.active_version_id
  pub agreed : agrees f ≡ true → agrees f' ≡ true

with_first-agrees :
    (f : Flow) (b : Binding)
    → consistent f.status f.active_version_id (some b) ≡ true
    → consistent f.status f.active_version_id (first_trigger (with_first b f.triggers)) ≡ true
with_first-agrees f b h = rw (first_trigger-with_first b f.triggers) h

switched-Keeps :
    (c : Bool) (t : TriggerType) (f : Flow) (b written : Binding)
    → StaysBound b written
    → (agrees f ≡ true → consistent f.status f.active_version_id (some b) ≡ true)
    → Keeps f (switched c t f written)
switched-Keeps true t f b written stays was = record {
  same_row = refl;
  same_workspace = refl;
  same_deletion = refl;
  same_draft = refl;
  same_active = refl;
  agreed = λ h. rw (first_trigger-with_first (record written { enabled = false }) f.triggers) refl;
}
switched-Keeps false t f b written (on, version) was = record {
  same_row = refl;
  same_workspace = refl;
  same_deletion = refl;
  same_draft = refl;
  same_active = refl;
  agreed = λ h. with_first-agrees f written (rw on (rw version (was h)));
}

sync_with-Keeps :
    (tools : Tools) (now fresh : ℕ) (f f' : Flow) (b : Binding) (o : Option Json)
    → (agrees f ≡ true → consistent f.status f.active_version_id (some b) ≡ true)
    → sync_with tools now fresh f b o ≡ ok f'
    → Keeps f f'
unfolding sync_with
sync_with-Keeps tools now fresh f f' b none was h =
    subst (λ (x : Flow). Keeps f x) (ok-injective h)
      (record {
        same_row = refl;
        same_workspace = refl;
        same_deletion = refl;
        same_draft = refl;
        same_active = refl;
        agreed = λ k. with_first-agrees f b (was k);
      })
sync_with-Keeps tools now fresh f f' b (some node) was h =
    let (declared, known, h1) =
      bind-ok (type_of (tools.declared_type (raw_key_of (as_fields (some node))))) _ h in
    let (written, did, h2) =
      bind-ok (bound tools now fresh declared (as_fields (get "config" (as_fields (some node)))) b)
        _ h1 in
    subst (λ (x : Flow). Keeps f x) (ok-injective h2)
      (switched-Keeps (not (same_type b.trigger_type declared) && b.enabled) declared f b written
        (bound-StaysBound tools now fresh declared _ b written did) was)

-- The sync keeps the row, the draft and the active version, and that status and trigger agree.
pub sync_trigger-Keeps :
    (tools : Tools) (now fresh : ℕ) (graph : Fields) (f f' : Flow)
    → sync_trigger tools now fresh graph f ≡ ok f'
    → Keeps f f'
unfolding sync_trigger
sync_trigger-Keeps tools now fresh graph f f' h =
    sync_with-Keeps tools now fresh f f' (or_binding (first_trigger f.triggers))
      (trigger_of graph tools.definitions)
      (or_binding-consistent f.status f.active_version_id (first_trigger f.triggers)) h
