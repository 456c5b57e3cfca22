-- ===== src/Workflows/Flow/Revisions.antt =====
-- backend/app/services/workflows.py, `save_draft`: the revision that a save states.
use appbi_integration.Base.{
  ℕ, suc, ◌≡◌, refl, sym, ap, subst, Bool, true, false, Option, none, some, List, [], ◌∷◌, map,
  ◌==◌, ==→eq, Bool-cases, inl, inr, arith, unsome,
}
use appbi_integration.Base.Lists.{find_first}
use appbi_integration.Json.{Fields}
use appbi_integration.Permissions.{Module, Action, granted}
use appbi_integration.Context.{RequestContext, require_context}
use appbi_integration.Errors.{Result, ok, err, ◌>>=◌, demand, bind-ok, ok-injective, draft_conflict}
use appbi_integration.Workflows.Flow.{
  Draft, Flow, Flows, Tools, is_flow, found_flow, get_flow, draft_of, write_flow, write_flow_row,
}
use appbi_integration.Workflows.Flow.Sync.{sync_trigger}
use appbi_integration.Workflows.Flow.Edit.{same_revision, saved_draft, save_draft}
use appbi_integration.Workflows.Flow.Synced.{Keeps, sync_trigger-Keeps}
use appbi_integration.Workflows.Flow.Requests.{get_flow-find}

abbrev pub draft_if : Option Flow → Option Draft
draft_if none = none
draft_if (some f) = f.draft

-- The draft that a workspace has of a workflow.
abbrev pub stored_draft : ℕ → ℕ → Flows → Option Draft
stored_draft workspace id s = draft_if (find_first (is_flow workspace id) s.flows)

pub find-write_flow_row :
    (w id : ℕ) (f' x : Flow) (l : List Flow)
    → is_flow w id f' ≡ true
    → (f'.id == id) ≡ true
    → find_first (is_flow w id) l ≡ some x
    → find_first (is_flow w id) (map (write_flow_row f') l) ≡ some f'
find-write_flow_row w id f' x [] h same k = cc
find-write_flow_row w id f' x (y ∷ l) h same k = elim (Bool-cases (y.id == f'.id)) [
  | inl j ↦ rw j (rw h refl)
  | inr j ↦
      let other = apart y.id f'.id id j same in
      rw j (rw other (find-write_flow_row w id f' x l h same (rw other at k)))
]
  where
    apart : (a b c : ℕ) → (a == b) ≡ false → (b == c) ≡ true → (a == c) ≡ false
    apart a b c h k = ground arith

pub first_is : (p : Flow → Bool) (l : List Flow) (x : Flow) → find_first p l ≡ some x → p x ≡ true
first_is p [] x h = cc
first_is p (y ∷ l) x h = elim (Bool-cases (p y)) [
  | inl j ↦ subst (λ (z : Flow). p z ≡ true) (unsome (rw j at h)) j
  | inr j ↦ first_is p l x (rw j at h)
]

-- The row that the sync gives is found where the one before was.
still_flow : (w id : ℕ) (f f' : Flow) → Keeps f f' → is_flow w id f ≡ true → is_flow w id f' ≡ true
still_flow w id f f' k h = rw k.same_row (rw k.same_workspace (rw k.same_deletion h))

same_revision-eq : (a b : ℕ) → same_revision a b ≡ ok tt → a ≡ b
same_revision-eq a b h = elim (Bool-cases (a == b)) [ inl j ↦ ==→eq a b j | inr j ↦ cc (rw j at h) ]

draft_of-some : (o : Option Draft) (d : Draft) → draft_of o ≡ ok d → o ≡ some d
draft_of-some none d h = cc
draft_of-some (some e) d h = cc

has_id : (w id : ℕ) (f : Flow) → is_flow w id f ≡ true → (f.id == id) ≡ true
has_id w id f h = ground arith

-- What a save does: it read a draft of the revision that it states, and afterwards the
-- draft is its own, of the next revision.
save_draft-stores :
    (tools : Tools) (ctx : RequestContext) (id : ℕ) (graph : Fields) (expected now : ℕ)
    (s d : Flows) (n : ℕ) (x : Flow)
    → find_first (is_flow ctx.workspace_id id) s.flows ≡ some x
    → save_draft tools ctx id graph expected now s ≡ ok (n, d)
    → (old : Draft) × (stored_draft ctx.workspace_id id s ≡ some old)
      × (expected ≡ old.revision)
      × (n ≡ suc old.revision)
      × (stored_draft ctx.workspace_id id d ≡ some (saved_draft tools graph old))
unfolding save_draft write_flow
save_draft-stores tools ctx id graph expected now s d n x there h =
    let (a, p, h1) = bind-ok (demand (require_context ctx Module.workflows Action.edit)) _ h in
    let (f, found, h2) = bind-ok (get_flow s ctx id) _ h1 in
    let (old, has, h3) = bind-ok (draft_of f.draft) _ h2 in
    let (b, same, h4) = bind-ok (same_revision expected old.revision) _ h3 in
    let drafted = record f { draft = some (saved_draft tools graph old) } in
    let (f', did, h5_) = bind-ok (sync_trigger tools now s.next_id graph drafted) _ h4 in
    let kept = sync_trigger-Keeps tools now s.next_id graph drafted f' did in
    let was = get_flow-find s ctx id f found in
    let here =
      still_flow ctx.workspace_id id drafted f' kept
        (first_is (is_flow ctx.workspace_id id) s.flows f was) in
    let done =
      find-write_flow_row ctx.workspace_id id f' x s.flows here (has_id ctx.workspace_id id f' here)
        there in
    (
      old,
      rw was (draft_of-some f.draft old has),
      same_revision-eq expected old.revision same,
      ap (λ (y : ℕ × Flows). y.0) (sym (ok-injective h5_)),
      subst (λ (y : Flows). stored_draft ctx.workspace_id id y ≡ some (saved_draft tools graph old))
          (ap (λ (y : ℕ × Flows). y.1) (ok-injective h5_)) (rw done kept.same_draft),
    )

refused_chain :
    (o : Option Flow) (y : Draft) (expected : ℕ)
    (rest : Flow → Draft → Unit {0} → Result (ℕ × Flows))
    → draft_if o ≡ some y
    → (expected == y.revision) ≡ false
    → (found_flow o >>= λ f.
        draft_of f.draft >>= λ d. same_revision expected d.revision >>= λ u. rest f d u)
      ≡ err draft_conflict
refused_chain none y expected rest h other = cc
refused_chain (some f) y expected rest h other = rw h (rw other refl)

save_draft-refused :
    (tools : Tools) (ctx : RequestContext) (id : ℕ) (graph : Fields) (expected now : ℕ) (s : Flows)
    (y : Draft)
    → require_context ctx Module.workflows Action.edit ≡ granted
    → stored_draft ctx.workspace_id id s ≡ some y
    → (expected == y.revision) ≡ false
    → save_draft tools ctx id graph expected now s ≡ err draft_conflict
unfolding save_draft get_flow
save_draft-refused tools ctx id graph expected now s y allowed stored other =
    rw allowed
      (refused_chain (find_first (is_flow ctx.workspace_id id) s.flows) y expected _ stored other)

seen_row :
    (tools : Tools) (ctx : RequestContext) (id : ℕ) (graph : Fields) (expected now : ℕ)
    (s d : Flows) (n : ℕ)
    → save_draft tools ctx id graph expected now s ≡ ok (n, d)
    → (x : Flow) × (find_first (is_flow ctx.workspace_id id) s.flows ≡ some x)
unfolding save_draft
seen_row tools ctx id graph expected now s d n h =
    let (a, p, h1) = bind-ok (demand (require_context ctx Module.workflows Action.edit)) _ h in
    let (f, found, h2) = bind-ok (get_flow s ctx id) _ h1 in (f, get_flow-find s ctx id f found)

-- Of two saves that state the same revision, one after the other, the second is refused with a
-- conflict, whoever in the workspace sends it, if they may edit, and whatever the graphs are.
pub second_save_refused :
    (tools tools' : Tools) (ctx ctx' : RequestContext) (id : ℕ) (graph graph' : Fields)
    (expected now now' : ℕ) (s d : Flows) (n : ℕ)
    → save_draft tools ctx id graph expected now s ≡ ok (n, d)
    → ctx'.workspace_id ≡ ctx.workspace_id
    → require_context ctx' Module.workflows Action.edit ≡ granted
    → save_draft tools' ctx' id graph' expected now' d ≡ err draft_conflict
unfolding saved_draft
second_save_refused tools tools' ctx ctx' id graph graph' expected now now' s d n h same allowed =
    let (x, there) = seen_row tools ctx id graph expected now s d n h in
    let (old, was, states, next, stored) =
      save_draft-stores tools ctx id graph expected now s d n x there h in
    save_draft-refused tools' ctx' id graph' expected now' d (saved_draft tools graph old) allowed
      (subst (λ (w : ℕ). stored_draft w id d ≡ some (saved_draft tools graph old)) (sym same)
        stored)
      (one_less expected old.revision states)
  where
    one_less : (a b : ℕ) → a ≡ b → (a == suc b) ≡ false
    one_less a b h = ground arith
