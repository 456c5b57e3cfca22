-- ===== src/Workflows/Offers.antt =====
-- backend/app/services/workflows.py: what is offered, and what the services then accept.
use appbi_integration.Base.{
  ℕ, String, ◌≡◌, ◌≢◌, refl, sym, ◌∙◌, Bool, true, false, ◌&&◌, ◌||◌, not, Option, none, some, List,
  [], ◌∷◌, ◌++◌, arith, is_some, if◌then◌else◌, ltb, Bool-cases, inl, inr, ◌↔◌,
}
use appbi_integration.Base.Lists.{any, count_if, any-append}
use appbi_integration.Permissions.{
  Module, Action, Role, forbidden, granted, require_effective, allowed_effective,
}
use appbi_integration.Context.{RequestContext, can, require_context, effective_permissions}
use appbi_integration.Executions.{
  Execution, Status, Workflow, Store, Env, err, workflow_already_running, active_in_workflow,
}
use appbi_integration.Executions.Create.{check_concurrency}
use appbi_integration.Workflows.{
  level_of, health_of_last, last_execution, Trigger, Health, running_now, is_enabled, health_of,
  derive_health, active_execution_count, WorkflowAction, edit_draft, run_draft, publish_draft,
  deactivate, activate, update_credential, duplicate, remove, offered_if, is_credential_code,
  available_actions,
}

abbrev pub same : WorkflowAction → WorkflowAction → Bool
same edit_draft edit_draft = true
same run_draft run_draft = true
same publish_draft publish_draft = true
same deactivate deactivate = true
same activate activate = true
same update_credential update_credential = true
same duplicate duplicate = true
same remove remove = true
same _ _ = false

-- When an action should be offered.
abbrev pub is_due : RequestContext → Workflow → Option Trigger → Health → WorkflowAction → Bool
is_due ctx w t h edit_draft = can ctx Module.workflows Action.edit
is_due ctx w t h run_draft = can ctx Module.workflows Action.execute
is_due ctx w t h publish_draft = can ctx Module.workflows Action.publish
is_due ctx w t h deactivate =
    can ctx Module.workflows Action.publish && is_some w.published_version_id && is_enabled t
is_due ctx w t h activate =
    can ctx Module.workflows Action.publish && is_some w.published_version_id && not (is_enabled t)
is_due ctx w t h update_credential = is_credential_code h.code
is_due ctx w t h duplicate = can ctx Module.workflows Action.create
is_due ctx w t h remove = can ctx Module.workflows Action.delete

-- The list over any answers to its tests.
abbrev pub offers : (e x p v n c d r : Bool) → List WorkflowAction
offers e x p v n c d r =
    offered_if e edit_draft
    ++ (offered_if x run_draft
        ++ (offered_if p publish_draft
            ++ ((if p && v then (if n then deactivate ∷ [] else activate ∷ []) else [])
                ++ (offered_if c update_credential
                    ++ (offered_if d duplicate ++ offered_if r remove)))))

any-offered_if : (a b : WorkflowAction) (c : Bool) → any (same a) (offered_if c b) ≡ (c && same a b)
any-offered_if a b true = ground arith
any-offered_if a b false = refl

any_split :
    (a : WorkflowAction) (l1 l2 l3 l4 l5 l6 l7 : List WorkflowAction)
    → any (same a) (l1 ++ (l2 ++ (l3 ++ (l4 ++ (l5 ++ (l6 ++ l7)))))) ≡ (
        any (same a) l1
        || (any (same a) l2
            || (any (same a) l3
                || (any (same a) l4 || (any (same a) l5 || (any (same a) l6 || any (same a) l7))))))
any_split a l1 l2 l3 l4 l5 l6 l7 =
    rw any-append
      (rw any-append (rw any-append (rw any-append (rw any-append (rw any-append refl)))))

switch_offered :
    (a : WorkflowAction) (b n : Bool)
    → any (same a) (if b then (if n then deactivate ∷ [] else activate ∷ []) else [])
      ≡ ((b && n && same a deactivate) || (b && not n && same a activate))
switch_offered a true true = ground arith
switch_offered a true false = ground arith
switch_offered a false n = refl

abbrev pub flags : WorkflowAction → (e x p v n c d r : Bool) → Bool
flags a e x p v n c d r =
    (e && same a edit_draft)
    || ((x && same a run_draft)
        || ((p && same a publish_draft)
            || (((p && v && n && same a deactivate) || (p && v && not n && same a activate))
                || ((c && same a update_credential)
                    || ((d && same a duplicate) || (r && same a remove))))))

switched :
    (a : WorkflowAction) (p v n : Bool)
    → any (same a) (if p && v then (if n then deactivate ∷ [] else activate ∷ []) else [])
      ≡ ((p && v && n && same a deactivate) || (p && v && not n && same a activate))
switched a true v n = switch_offered a v n
switched a false v n = refl

offers-flags :
    (a : WorkflowAction) (e x p v n c d r : Bool)
    → any (same a) (offers e x p v n c d r) ≡ flags a e x p v n c d r
offers-flags a e x p v n c d r =
    any_split a (offered_if e edit_draft) (offered_if x run_draft) (offered_if p publish_draft)
      (if p && v then (if n then deactivate ∷ [] else activate ∷ []) else [])
      (offered_if c update_credential) (offered_if d duplicate) (offered_if r remove)
    ∙ rw (any-offered_if a edit_draft e) (
        rw (any-offered_if a run_draft x) (
          rw (any-offered_if a publish_draft p) (
            rw (switched a p v n) (
              rw (any-offered_if a update_credential c)
                (rw (any-offered_if a duplicate d) (rw (any-offered_if a remove r) refl))))))

due : WorkflowAction → (e x p v n c d r : Bool) → Bool
due edit_draft e x p v n c d r = e
due run_draft e x p v n c d r = x
due publish_draft e x p v n c d r = p
due deactivate e x p v n c d r = p && v && n
due activate e x p v n c d r = p && v && not n
due update_credential e x p v n c d r = c
due duplicate e x p v n c d r = d
due remove e x p v n c d r = r

flags-due :
    (a : WorkflowAction) (e x p v n c d r : Bool) → flags a e x p v n c d r ≡ due a e x p v n c d r
unfolding due
flags-due edit_draft e x p v n c d r = ground arith
flags-due run_draft e x p v n c d r = ground arith
flags-due publish_draft e x p v n c d r = ground arith
flags-due deactivate e x p v n c d r = ground arith
flags-due activate e x p v n c d r = ground arith
flags-due update_credential e x p v n c d r = ground arith
flags-due duplicate e x p v n c d r = ground arith
flags-due remove e x p v n c d r = ground arith

-- An action is among those offered exactly when it is due: when the caller may do it; and for turning a
-- workflow on or off, when it is published and off, or published and on; and for a credential, when
-- the health names it.
pub available_actions_due :
    (ctx : RequestContext) (w : Workflow) (t : Option Trigger) (h : Health) (a : WorkflowAction)
    → any (same a) (available_actions ctx w t h) ≡ is_due ctx w t h a
unfolding available_actions
available_actions_due ctx w t h a =
    offers-flags a (can ctx Module.workflows Action.edit) (can ctx Module.workflows Action.execute)
      (can ctx Module.workflows Action.publish) (is_some w.published_version_id) (is_enabled t)
      (is_credential_code h.code) (can ctx Module.workflows Action.create)
      (can ctx Module.workflows Action.delete)
    ∙ flags-due a _ _ _ _ _ _ _ _
    ∙ named a
  where
    named :
        (a : WorkflowAction)
        → due a
            (can ctx Module.workflows Action.edit)
            (can ctx Module.workflows Action.execute)
            (can ctx Module.workflows Action.publish)
            (is_some w.published_version_id)
            (is_enabled t)
            (is_credential_code h.code)
            (can ctx Module.workflows Action.create)
            (can ctx Module.workflows Action.delete)
          ≡ is_due ctx w t h a
    named edit_draft = unfold due in refl
    named run_draft = unfold due in refl
    named publish_draft = unfold due in refl
    named deactivate = unfold due in refl
    named activate = unfold due in refl
    named update_credential = unfold due in refl
    named duplicate = unfold due in refl
    named remove = unfold due in refl

gate :
    (b : Bool) (m : Module) (a : Action) (r : Role)
    → (b ≡ true) ↔ ((if b then granted else forbidden m a r) ≡ granted)
gate true m a r = (λ h. refl, λ h. refl)
gate false m a r = (λ h. cc, λ h. cc)

-- Running the draft is offered exactly to a caller who passes the permission check of `create`.
pub run_draft_offered :
    (ctx : RequestContext) (w : Workflow) (t : Option Trigger) (h : Health)
    → (any (same run_draft) (available_actions ctx w t h) ≡ true)
      ↔ (require_context ctx Module.workflows Action.execute ≡ granted)
unfolding can require_context require_effective allowed_effective
run_draft_offered ctx w t h =
    let due_ = available_actions_due ctx w t h run_draft in
    let passed =
      gate (effective_permissions ctx Module.workflows Action.execute) Module.workflows
        Action.execute ctx.role in
    (λ offered. passed.0 (sym due_ ∙ offered), λ open_. due_ ∙ passed.1 open_)

level_of-idle : (s : Status) → level_of s ≢ running_now
level_of-idle s h = ground arith

not_running :
    (a b c : Bool) (o : Option Execution)
    → (health_of false a b c (health_of_last o)).level ≢ running_now
unfolding health_of_last
not_running true b c o h = cc
not_running false false c o h = cc
not_running false true false o h = cc
not_running false true true none h = cc
not_running false true true (some e) h = level_of-idle e.status h

full :
    (env : Env) (s : Store) (workspace workflow : ℕ)
    → env.max_per_workflow ≡ 1
    → ltb 0 (count_if (active_in_workflow workspace workflow) s.executions) ≡ true
    → check_concurrency env s workspace workflow ≡ err workflow_already_running
unfolding check_concurrency
full env s workspace workflow one held = ground arith

-- Where one run of a workflow may be in flight at a time, a workflow that is shown as running refuses
-- another run.
pub running_refuses :
    (env : Env) (s : Store) (w : Workflow) (t : Option Trigger) (problem : Option String)
    → env.max_per_workflow ≡ 1
    → (derive_health s w t problem).level ≡ running_now
    → check_concurrency env s w.workspace_id w.id ≡ err workflow_already_running
unfolding derive_health active_execution_count
running_refuses env s w t problem one shown =
    elim (Bool-cases (ltb 0 (count_if (active_in_workflow w.workspace_id w.id) s.executions))) [
      | inl held ↦ full env s w.workspace_id w.id one held
      | inr idle ↦ absurd (
          not_running (is_some problem) (is_some w.published_version_id) (is_enabled t)
            (last_execution s w.workspace_id w.id) (rw idle at shown))
    ]
