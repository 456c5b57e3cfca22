-- ===== src/Access.antt =====
-- backend/app/services/access.py and models/identity.py: accounts, workspaces, organisations and who
-- holds a seat where. The tables are lists in the order of `created_at`; the database keeps one seat
-- for each account and workspace, and one role for each account and organisation.
pub mod Password
pub mod Login
pub mod Reach
pub mod Members
use appbi_integration.Base.{
  ℕ, String, Bool, true, false, Option, none, some, List, [], ◌∷◌, map, ◌==◌, str_eq, if◌then◌else◌,
}
use appbi_integration.Base.Lists.{find_first}
use appbi_integration.Permissions.{Role, OrgRole}
use appbi_integration.Permissions.Overrides.{Overrides}

pub record User : Type 0 where
  pub id : ℕ
  pub email : String
  pub full_name : String
  pub password_hash : String
  pub password_change_required : Bool
  pub is_active : Bool
  pub is_platform_admin : Bool
  pub failed_login_count : ℕ
  pub locked_until : Option ℕ
  pub session_version : ℕ
  pub last_login_at : Option ℕ

-- `WorkspaceStatus`
pub data WorkspaceStatus : Type 0 where
  active suspended deleted : WorkspaceStatus

abbrev pub is_open : WorkspaceStatus → Bool
is_open active = true
is_open _ = false

pub record Workspace : Type 0 where
  pub id : ℕ
  pub organization_id : ℕ
  pub name : String
  pub timezone : String
  pub status : WorkspaceStatus
  pub max_concurrent_executions : Option ℕ

pub record Membership : Type 0 where
  pub id : ℕ
  pub workspace_id : ℕ
  pub user_id : ℕ
  pub role : Role
  pub permissions : Option Overrides

pub record OrganizationMembership : Type 0 where
  pub organization_id : ℕ
  pub user_id : ℕ
  pub role : OrgRole

pub record Directory : Type 0 where
  pub users : List User
  pub workspaces : List Workspace
  pub memberships : List Membership
  pub organization_memberships : List OrganizationMembership
  pub next_id : ℕ

-- What the code is given from outside: passlib's hash, Python's case folding of a text and its test for
-- a digit, the zone names that are known, and the settings.
pub record Security : Type 0 where
  pub verify : String → String → Bool
  pub hash : String → String
  pub lower : String → String
  pub upper : String → String
  pub is_digit : ℕ → Bool
  pub is_zone : String → Bool
  pub login_max_attempts : ℕ
  pub login_lockout : ℕ

-- The claims of a session token, whose signature is checked by a library.
pub record Claims : Type 0 where
  pub sub : ℕ
  pub ws : Option ℕ
  pub sv : ℕ

abbrev pub write_user_row : User → User → User
write_user_row u row = if row.id == u.id then u else row

-- `UPDATE users … WHERE id = u.id`
unfoldable pub write_user : User → Directory → Directory
write_user u d = record d { users = map (write_user_row u) d.users }

-- `session.get(User, id)`
unfoldable pub user_by_id : Directory → ℕ → Option User
user_by_id d id = find_first (λ u. u.id == id) d.users

-- `select(User).where(func.lower(User.email) == normalized)`
unfoldable pub user_by_email : Security → Directory → String → Option User
user_by_email sec d normalized = find_first (λ u. str_eq (sec.lower u.email) normalized) d.users

-- `session.get(Workspace, id)`
unfoldable pub workspace_by_id : Directory → ℕ → Option Workspace
workspace_by_id d id = find_first (λ w. w.id == id) d.workspaces
