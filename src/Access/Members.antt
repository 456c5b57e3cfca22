-- ===== src/Access/Members.antt =====
-- backend/app/services/access.py: the seats of a workspace. Nothing is locked; the model is of requests that
-- come one after the other.
pub mod Seats
pub mod Kept
pub mod Owners
use appbi_integration.Base.{
  ℕ, suc, String, Bool, true, false, not, ◌&&◌, Option, none, some, List, [], ◌∷◌, ◌++◌, map, ltb,
  ◌==◌, str_eq, if◌then◌else◌,
}
use appbi_integration.Base.Lists.{find_first, select, count_if}
use appbi_integration.Graph.Text.{strip}
use appbi_integration.Permissions.{Role, Module, Action}
use appbi_integration.Permissions.Overrides.{Overrides, Parsed, parsed, refused, parse_overrides}
use appbi_integration.Context.{RequestContext, require_context}
use appbi_integration.Errors.{
  Result, ok, err, ◌>>=◌, ◌>>◌, demand, validation_error, role_not_assignable, password_too_weak,
  conflict, not_found, last_owner, override_invalid,
}
use appbi_integration.Access.{
  User, Workspace, Membership, Directory, Security, user_by_email, workspace_by_id,
}
use appbi_integration.Access.Password.{password_problems, is_acceptable}

-- `Role(name)`
unfoldable pub role_of : String → Option Role
role_of name =
    if str_eq name "OWNER"
    then some Role.owner
    else if str_eq name "AUTOMATION_ADMIN"
    then some Role.automation_admin
    else if str_eq name "AUTOMATION_BUILDER"
    then some Role.automation_builder
    else if str_eq name "OPERATOR"
    then some Role.operator
    else if str_eq name "ANALYST"
    then some Role.analyst
    else if str_eq name "AUDITOR"
    then some Role.auditor
    else if str_eq name "PLATFORM_ADMIN"
    then some Role.platform_admin
    else none

-- `role not in ASSIGNABLE_ROLES`
abbrev pub is_platform_role : Role → Bool
is_platform_role Role.platform_admin = true
is_platform_role _ = false

abbrev pub assignable_role : Option Role → Result Role
assignable_role none = err (validation_error "ROLE")
assignable_role (some role) = if is_platform_role role then err role_not_assignable else ok role

-- `_assignable(role)`
unfoldable pub assignable : Security → String → Result Role
unfolding role_of
assignable sec role = assignable_role (role_of (sec.upper role))

abbrev pub text_or : String → String → String
text_or s fallback = if str_eq s "" then fallback else s

-- The account that an invitation makes.
unfoldable pub invited_user : Security → ℕ → String → String → String → User
unfolding strip
invited_user sec id normalized full_name password = record {
  id = id;
  email = normalized;
  full_name = text_or (strip full_name) normalized;
  password_hash = sec.hash password;
  password_change_required = true;
  is_active = true;
  is_platform_admin = false;
  failed_login_count = 0;
  locked_until = none;
  session_version = 0;
  last_login_at = none;
}

abbrev pub with_user : Directory → Option User → User → User × Directory
with_user d (some u) new = (u, d)
with_user d none new = (new, record d { users = d.users ++ new ∷ []; next_id = suc d.next_id })

abbrev pub is_seat_of : ℕ → ℕ → Membership → Bool
is_seat_of workspace user m = m.workspace_id == workspace && m.user_id == user

abbrev pub new_seat : ℕ → ℕ → ℕ → Role → Membership
new_seat id workspace user role = record {
  id = id;
  workspace_id = workspace;
  user_id = user;
  role = role;
  permissions = none;
}

-- `session.add(membership)`
abbrev pub add_seat : ℕ → ℕ → Role → Directory → Directory
add_seat workspace user role d = record d {
  memberships = d.memberships ++ new_seat d.next_id workspace user role ∷ [];
  next_id = suc d.next_id;
}

abbrev pub unless_seated : Option Membership → Directory → Result Directory
unless_seated (some existing) d = err conflict
unless_seated none d = ok d

-- `invite_member`; the index refuses a second seat of the same account, whatever was read
unfoldable pub invite_member :
    Security → RequestContext → String → String → String → String → Directory → Result Directory
unfolding assignable password_problems invited_user user_by_email strip
invite_member sec ctx email full_name role password s = do
  demand (require_context ctx Module.members Action.create)
  granted_role ← assignable sec role
  let normalized = sec.lower (strip email)
  let (u, d) =
      with_user s (user_by_email sec s normalized)
        (invited_user sec s.next_id normalized full_name password)
  if is_acceptable (password_problems sec password)
      then unless_seated (find_first (is_seat_of ctx.workspace_id u.id) d.memberships)
          (add_seat ctx.workspace_id u.id granted_role d)
      else err password_too_weak

abbrev pub is_seat : ℕ → ℕ → Membership → Bool
is_seat workspace id m = m.id == id && m.workspace_id == workspace

abbrev pub found_seat : Option Membership → Result Membership
found_seat none = err not_found
found_seat (some m) = ok m

-- The look-up that the requests on one seat begin with.
unfoldable pub get_seat : RequestContext → ℕ → Directory → Result Membership
get_seat ctx id d = found_seat (find_first (is_seat ctx.workspace_id id) d.memberships)

abbrev pub is_owner : Role → Bool
is_owner Role.owner = true
is_owner _ = false

abbrev pub is_owner_of : ℕ → Membership → Bool
is_owner_of workspace m = m.workspace_id == workspace && is_owner m.role

abbrev pub is_other : ℕ → Membership → Bool
is_other id m = not (m.id == id)

-- `_guard_last_owner(session, ctx, exclude=id)`
unfoldable pub guard_last_owner : RequestContext → ℕ → Directory → Result (Unit {0})
guard_last_owner ctx id d =
    if ltb 0 (count_if (λ m. is_owner_of ctx.workspace_id m && is_other id m) d.memberships)
    then ok tt
    else err last_owner

abbrev pub unless_safe : Bool → Result (Unit {0}) → Result (Unit {0})
unless_safe true check = check
unless_safe false check = ok tt

abbrev pub set_role : ℕ → Role → Membership → Membership
set_role id role m = if m.id == id then record m { role = role } else m

-- `update_role`
unfoldable pub update_role : Security → RequestContext → ℕ → String → Directory → Result Directory
unfolding assignable get_seat guard_last_owner
update_role sec ctx id role s = do
  demand (require_context ctx Module.members Action.edit)
  new_role ← assignable sec role
  row ← get_seat ctx id s
  unless_safe (is_owner row.role && not (is_owner new_role)) (guard_last_owner ctx row.id s)
  ok (record s { memberships = map (set_role row.id new_role) s.memberships })

abbrev pub set_permissions : ℕ → Option Overrides → Membership → Membership
set_permissions id stored m = if m.id == id then record m { permissions = stored } else m

abbrev pub stored_or_refused : Parsed Overrides → Result (Option Overrides)
stored_or_refused (parsed stored) = ok (some stored)
stored_or_refused (refused e) = err override_invalid

-- `parse_overrides(overrides) if overrides else None`
abbrev pub parsed_or_none : Overrides → Result (Option Overrides)
parsed_or_none [] = ok none
parsed_or_none (item ∷ items) = stored_or_refused (parse_overrides (item ∷ items))

-- `update_permissions`; None is the empty map
unfoldable pub update_permissions : RequestContext → ℕ → Overrides → Directory → Result Directory
unfolding get_seat parse_overrides
update_permissions ctx id overrides s = do
  demand (require_context ctx Module.members Action.admin)
  row ← get_seat ctx id s
  stored ← parsed_or_none overrides
  ok (record s { memberships = map (set_permissions row.id stored) s.memberships })

-- `remove_member`
unfoldable pub remove_member : RequestContext → ℕ → Directory → Result Directory
unfolding get_seat guard_last_owner
remove_member ctx id s = do
  demand (require_context ctx Module.members Action.delete)
  row ← get_seat ctx id s
  unless_safe (is_owner row.role) (guard_last_owner ctx row.id s)
  ok (record s { memberships = select (is_other row.id) s.memberships })

abbrev pub clamp : ℕ → ℕ
clamp n = if ltb n 1 then 1 else if ltb 100 n then 100 else n

abbrev pub write_workspace_row : Workspace → Workspace → Workspace
write_workspace_row w row = if row.id == w.id then w else row

abbrev pub found_workspace : Option Workspace → Result Workspace
found_workspace none = err not_found
found_workspace (some w) = ok w

abbrev pub renamed : Option String → Workspace → Result Workspace
renamed none w = ok w
renamed (some name) w =
    if str_eq (strip name) ""
    then err (validation_error "WORKSPACE_NAME")
    else ok (record w { name = strip name })

-- The zone of `resolve_zone(timezone)`; an empty text is the fallback, which is a zone
abbrev pub moved : Security → Option String → Workspace → Result Workspace
moved sec none w = ok w
moved sec (some zone) w =
    if str_eq zone ""
    then ok (record w { timezone = zone })
    else if sec.is_zone zone
    then ok (record w { timezone = zone })
    else err (validation_error "SCHEDULE_INVALID")

abbrev pub limited : Option ℕ → Workspace → Workspace
limited none w = w
limited (some n) w = record w { max_concurrent_executions = some (clamp n) }

-- `update_workspace`
unfoldable pub update_workspace :
    Security
    → RequestContext
    → Option String
    → Option String
    → Option ℕ
    → Directory
    → Result Directory
unfolding workspace_by_id strip
update_workspace sec ctx name timezone limit d = do
  demand (require_context ctx Module.settings Action.edit)
  w ← found_workspace (workspace_by_id d ctx.workspace_id)
  named ← renamed name w
  placed ← moved sec timezone named
  ok (record d { workspaces = map (write_workspace_row (limited limit placed)) d.workspaces })
