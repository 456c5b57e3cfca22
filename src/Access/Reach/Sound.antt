-- ===== src/Access/Reach/Sound.antt =====
-- backend/app/services/access.py and backend/app/api/deps.py: the workspace that a request enters.
use appbi_integration.Base.{
  ℕ, ◌≡◌, refl, subst, Bool, true, false, Option, none, some, List, [], ◌∷◌, ◌==◌, ==→eq, unsome,
  if◌then◌else◌,
}
use appbi_integration.Permissions.{Role, OrgRole}
use appbi_integration.Permissions.Overrides.{Overrides}
use appbi_integration.Context.{RequestContext}
use appbi_integration.Errors.{Result, ok, err, ok-injective, password_change_needed}
use appbi_integration.Access.{User, Workspace, is_open, Directory, Claims, workspace_by_id}
use appbi_integration.Access.Reach.{
  effective_role, org_role_of, seat_of, reachable_workspaces, WorkspaceAccess, role_of_seat,
  with_role, access_to, accesses, reachable, WorkspaceHeader, no_header, malformed, wanted,
  at_workspace, or_first, remembered, asked_for, choose, enter, request_context,
}
use appbi_integration.Access.Reach.Known.{
  Every, Every-append, Every-select, Every-find_first, Every-prepend_some, IsKnown, HasOwnIds,
  reachable_workspaces-IsKnown,
}

-- An access to an active workspace of the table, with the role that `effective_role` gives there.
abbrev pub IsGranted : Directory → User → WorkspaceAccess → Type 0
IsGranted d u a =
    IsKnown d a.workspace
    × (effective_role u (role_of_seat (seat_of d u.id a.workspace.id))
          (org_role_of d u.id a.workspace.organization_id)
        ≡ some a.role)

with_role-IsGranted :
    (d : Directory) (u : User) (w : Workspace) (v : Bool) (o : Option OrgRole)
    (p : Option Overrides) (r : Option Role) (a : WorkspaceAccess)
    → IsKnown d w
    → effective_role u (role_of_seat (seat_of d u.id w.id)) (org_role_of d u.id w.organization_id)
      ≡ r
    → with_role w v o p r ≡ some a
    → IsGranted d u a
with_role-IsGranted d u w v o p none a k e h = cc
with_role-IsGranted d u w v o p (some role) a k e h = subst (IsGranted d u) (unsome h) (k, e)

accesses-IsGranted :
    (d : Directory) (u : User) (l : List Workspace)
    → Every (IsKnown d) l
    → Every (IsGranted d u) (accesses d u l)
unfolding accesses access_to
accesses-IsGranted d u [] h = tt
accesses-IsGranted d u (w ∷ rest) (k, h) =
    Every-prepend_some (IsGranted d u) (access_to d u w) _ one (accesses-IsGranted d u rest h)
  where
    one : (a : WorkspaceAccess) → access_to d u w ≡ some a → IsGranted d u a
    one a e = with_role-IsGranted d u w _ _ _ _ a k refl e

reachable-IsGranted :
    (d : Directory) (u : User) → HasOwnIds d → Every (IsGranted d u) (reachable d u)
unfolding reachable
reachable-IsGranted d u ids =
    let out =
      accesses-IsGranted d u (reachable_workspaces d u) (reachable_workspaces-IsKnown d u ids) in
    Every-append (IsGranted d u) _ _ (Every-select (IsGranted d u) _ _ out)
      (Every-select (IsGranted d u) _ _ out)

-- The workspace is the one the header asks for, if it asks for one.
abbrev pub AsWanted : WorkspaceHeader → ℕ → Type 0
AsWanted no_header id = Unit {0}
AsWanted malformed id = ⊥
AsWanted (wanted w) id = id ≡ w

remembered-Every :
    (P : WorkspaceAccess → Type 0) (ws : Option ℕ) (l : List WorkspaceAccess)
    (first : WorkspaceAccess)
    → Every P l
    → P first
    → P (or_first (remembered ws l) first)
remembered-Every P none l first h p = p
remembered-Every P (some id) l first h p = go (at_workspace id l) refl
  where
    go : (o : Option WorkspaceAccess) → at_workspace id l ≡ o → P (or_first o first)
    go none e = p
    go (some a) e = let (q, _) = Every-find_first P (λ a. a.workspace.id == id) l a h e in q

choose-Every :
    (P : WorkspaceAccess → Type 0) (header : WorkspaceHeader) (ws : Option ℕ)
    (l : List WorkspaceAccess) (a : WorkspaceAccess)
    → Every P l
    → choose header ws l ≡ ok a
    → P a × AsWanted header a.workspace.id
unfolding choose
choose-Every P _ ws [] a h e = cc
choose-Every P no_header ws (first ∷ rest) a (p, h) e =
    (subst P (ok-injective e) (remembered-Every P ws (first ∷ rest) first (p, h) p), tt)
choose-Every P malformed ws (first ∷ rest) a h e = cc
choose-Every P (wanted id) ws (first ∷ rest) a h e = go (at_workspace id (first ∷ rest)) refl e
  where
    go :
        (o : Option WorkspaceAccess)
        → at_workspace id (first ∷ rest) ≡ o
        → asked_for o ≡ ok a
        → P a × (a.workspace.id ≡ id)
    go none k j = cc
    go (some b) k j =
        let (q, m) = Every-find_first P (λ a. a.workspace.id == id) (first ∷ rest) b h k in
        subst (λ (c : WorkspaceAccess). P c × (c.workspace.id ≡ id)) (ok-injective j)
          (q, ==→eq b.workspace.id id m)

-- What a context of a request rests on.
abbrev pub IsAdmitted : Directory → User → WorkspaceHeader → RequestContext → Type 0
IsAdmitted d u header ctx =
    (w : Workspace) × (workspace_by_id d ctx.workspace_id ≡ some w)
    × (is_open w.status ≡ true)
    × (effective_role u (role_of_seat (seat_of d u.id ctx.workspace_id))
          (org_role_of d u.id w.organization_id)
        ≡ some ctx.role)
    × AsWanted header ctx.workspace_id

enter-IsAdmitted :
    (d : Directory) (u : User) (ws : Option ℕ) (header : WorkspaceHeader) (l : List WorkspaceAccess)
    (ctx : RequestContext)
    → Every (IsGranted d u) l
    → enter u (choose header ws l) ≡ ok ctx
    → IsAdmitted d u header ctx
enter-IsAdmitted d u ws header l ctx h = go (choose header ws l) refl
  where
    go :
        (r : Result WorkspaceAccess)
        → choose header ws l ≡ r
        → enter u r ≡ ok ctx
        → IsAdmitted d u header ctx
    go (err e) k j = cc
    go (ok a) k j =
        let (((known, live), role), asked) = choose-Every (IsGranted d u) header ws l a h k in
        subst (IsAdmitted d u header) (ok-injective (rw live at j))
          (a.workspace, known, live, role, asked)

-- In a table of workspaces with distinct ids, the context that a request enters is for an active workspace of the
-- table, the one that the header X-Workspace-Id names if there is a header, and its role is the one that
-- `effective_role` derives from the account's seat in that workspace and its role in the organisation of it.
pub request_context-IsAdmitted :
    (d : Directory) (u : User) (claims : Claims) (header : WorkspaceHeader) (ctx : RequestContext)
    → HasOwnIds d
    → request_context d u claims header ≡ ok ctx
    → IsAdmitted d u header ctx
unfolding request_context
request_context-IsAdmitted d u claims header ctx ids = go u.password_change_required
  where
    go :
        (b : Bool)
        → (if b
            then err password_change_needed
            else enter u (choose header claims.ws (reachable d u)))
          ≡ ok ctx
        → IsAdmitted d u header ctx
    go true e = cc
    go false e =
        enter-IsAdmitted d u claims.ws header (reachable d u) ctx (reachable-IsGranted d u ids) e
