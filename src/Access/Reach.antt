-- ===== src/Access/Reach.antt =====
-- backend/app/services/access.py: `effective_role` and `reachable`; and the choice of the workspace in
-- `request_context` of backend/app/api/deps.py.
pub mod Known
pub mod Sound
use appbi_integration.Base.{
  ℕ, Bool, not, ◌&&◌, Option, none, some, List, [], ◌∷◌, ◌++◌, ◌==◌, if◌then◌else◌,
}
use appbi_integration.Base.Lists.{find_first, select, any}
use appbi_integration.Permissions.{Role, OrgRole, has_workspace_access}
use appbi_integration.Permissions.Overrides.{Overrides}
use appbi_integration.Context.{RequestContext}
use appbi_integration.Errors.{
  Result, ok, err, workspace_refused, no_workspace, password_change_needed,
}
use appbi_integration.Access.{
  User, Workspace, is_open, Membership, Directory, Claims, workspace_by_id,
}

-- `effective_role`, with LookupError as `none`
unfoldable pub effective_role : User → Option Role → Option OrgRole → Option Role
unfolding has_workspace_access
effective_role u (some role) org_role = some role
effective_role u none org_role =
    if u.is_platform_admin
    then some Role.platform_admin
    else if has_workspace_access org_role
    then some Role.owner
    else none

-- `organizations_of(session, user).get(id)`
unfoldable pub org_role_of : Directory → ℕ → ℕ → Option OrgRole
org_role_of d user_id organization_id =
    elim (find_first (λ m. m.user_id == user_id && m.organization_id == organization_id)
      d.organization_memberships) [ none ↦ none | some m ↦ some m.role ]

-- `memberships.get(workspace.id)`, for a workspace that is active
unfoldable pub seat_of : Directory → ℕ → ℕ → Option Membership
seat_of d user_id workspace_id =
    find_first (λ m. m.user_id == user_id && m.workspace_id == workspace_id) d.memberships

abbrev pub prepend_some {ℓ} : {A : Type ℓ} → Option A → List A → List A
prepend_some none xs = xs
prepend_some (some x) xs = x ∷ xs

abbrev pub if_open : Option Workspace → Option Workspace
if_open none = none
if_open (some w) = if is_open w.status then some w else none

-- The active workspaces of the account's own seats, in the order of the seats.
unfoldable pub own_workspaces : Directory → ℕ → List Membership → List Workspace
unfolding workspace_by_id
own_workspaces d user_id [] = []
own_workspaces d user_id (m ∷ rest) =
    let others = own_workspaces d user_id rest in
    if m.user_id == user_id
    then prepend_some (if_open (workspace_by_id d m.workspace_id)) others
    else others

abbrev pub is_listed : List Workspace → Workspace → Bool
is_listed found w = any (λ x. x.id == w.id) found

-- `workspaces.setdefault(workspace.id, workspace)` for each
unfoldable pub add_missing : List Workspace → List Workspace → List Workspace
add_missing found [] = found
add_missing found (w ∷ rest) =
    let kept = add_missing found rest in
    let added = add_missing (found ++ w ∷ []) rest in if is_listed found w then kept else added

-- `Workspace.organization_id.in_(admin_org_ids)`
abbrev pub administers : Directory → User → Workspace → Bool
administers d u w = has_workspace_access (org_role_of d u.id w.organization_id)

-- The dict `workspaces` of `reachable`.
unfoldable pub reachable_workspaces : Directory → User → List Workspace
unfolding own_workspaces add_missing org_role_of has_workspace_access
reachable_workspaces d u =
    let own = add_missing [] (own_workspaces d u.id d.memberships) in
    let through_org =
      add_missing own (select (λ w. administers d u w && is_open w.status) d.workspaces) in
    if u.is_platform_admin
    then add_missing through_org (select (λ w. is_open w.status) d.workspaces)
    else through_org

pub record WorkspaceAccess : Type 0 where
  pub workspace : Workspace
  pub role : Role
  pub via_organization : Bool
  pub org_role : Option OrgRole
  pub permissions : Option Overrides

abbrev pub role_of_seat : Option Membership → Option Role
role_of_seat none = none
role_of_seat (some m) = some m.role

abbrev pub overrides_of_seat : Option Membership → Option Overrides
overrides_of_seat none = none
overrides_of_seat (some m) = m.permissions

abbrev pub with_role :
    Workspace → Bool → Option OrgRole → Option Overrides → Option Role → Option WorkspaceAccess
with_role w via_organization org_role permissions none = none
with_role w via_organization org_role permissions (some role) = some (record {
  workspace = w;
  role = role;
  via_organization = via_organization;
  org_role = org_role;
  permissions = permissions;
})

-- The body of the loop over the workspaces.
unfoldable pub access_to : Directory → User → Workspace → Option WorkspaceAccess
unfolding effective_role org_role_of seat_of has_workspace_access
access_to d u w =
    let org_role = org_role_of d u.id w.organization_id in
    let via_org = has_workspace_access org_role in
    let seat = seat_of d u.id w.id in
    with_role w via_org org_role
      (if not via_org && not u.is_platform_admin then overrides_of_seat seat else none)
      (effective_role u (role_of_seat seat) org_role)

unfoldable pub accesses : Directory → User → List Workspace → List WorkspaceAccess
unfolding access_to
accesses d u [] = []
accesses d u (w ∷ rest) = prepend_some (access_to d u w) (accesses d u rest)

-- `reachable(session, user)`: the sort is stable and puts the active workspaces first
unfoldable pub reachable : Directory → User → List WorkspaceAccess
unfolding reachable_workspaces accesses
reachable d u =
    let out = accesses d u (reachable_workspaces d u) in
    select (λ a. is_open a.workspace.status) out
    ++ select (λ a. not (is_open a.workspace.status)) out

-- The header X-Workspace-Id: absent, no id, or an id.
pub data WorkspaceHeader : Type 0 where
  no_header malformed : WorkspaceHeader
  wanted : ℕ → WorkspaceHeader

abbrev pub at_workspace : ℕ → List WorkspaceAccess → Option WorkspaceAccess
at_workspace id = find_first (λ a. a.workspace.id == id)

abbrev pub or_first : Option WorkspaceAccess → WorkspaceAccess → WorkspaceAccess
or_first none first = first
or_first (some a) first = a

abbrev pub remembered : Option ℕ → List WorkspaceAccess → Option WorkspaceAccess
remembered none all = none
remembered (some id) all = at_workspace id all

abbrev pub asked_for : Option WorkspaceAccess → Result WorkspaceAccess
asked_for none = err workspace_refused
asked_for (some a) = ok a

-- `chosen`
unfoldable pub choose : WorkspaceHeader → Option ℕ → List WorkspaceAccess → Result WorkspaceAccess
choose _ ws [] = err no_workspace
choose no_header ws (first ∷ rest) = ok (or_first (remembered ws (first ∷ rest)) first)
choose malformed ws (first ∷ rest) = err workspace_refused
choose (wanted id) ws (first ∷ rest) = asked_for (at_workspace id (first ∷ rest))

abbrev pub or_no_overrides : Option Overrides → Overrides
or_no_overrides none = []
or_no_overrides (some overrides) = overrides

abbrev pub context_of : User → WorkspaceAccess → RequestContext
context_of u a = record {
  user_id = some u.id;
  workspace_id = a.workspace.id;
  role = a.role;
  is_platform_admin = u.is_platform_admin;
  permission_overrides = or_no_overrides a.permissions;
}

abbrev pub enter : User → Result WorkspaceAccess → Result RequestContext
enter u (err e) = err e
enter u (ok a) = if is_open a.workspace.status then ok (context_of u a) else err workspace_refused

-- `request_context`
unfoldable pub request_context : Directory → User → Claims → WorkspaceHeader → Result RequestContext
unfolding reachable choose
request_context d u claims header =
    if u.password_change_required
    then err password_change_needed
    else enter u (choose header claims.ws (reachable d u))
