-- ===== src/Context.antt =====
-- backend/app/core/context.py: the caller of a request, and what it may do.
use appbi_integration.Base.{ℕ, Bool, true, Option, none, []}
use appbi_integration.Permissions.{
  Role, platform_admin, Module, Action, Permissions, allowed_effective, Verdict, require_effective,
}
use appbi_integration.Permissions.Overrides.{Overrides, effective}

pub record RequestContext : Type 0 where
  pub user_id : Option ℕ
  pub workspace_id : ℕ
  pub role : Role
  pub is_platform_admin : Bool
  pub permission_overrides : Overrides

unfoldable pub effective_permissions : RequestContext → Permissions
unfolding effective
effective_permissions ctx = effective ctx.role ctx.permission_overrides ctx.is_platform_admin

-- `ctx.can(module, action)`
unfoldable pub can : RequestContext → Module → Action → Bool
unfolding effective_permissions allowed_effective
can ctx m a = allowed_effective (effective_permissions ctx) m a

-- `ctx.require(module, action)`
unfoldable pub require_context : RequestContext → Module → Action → Verdict
unfolding effective_permissions require_effective
require_context ctx m a = require_effective (effective_permissions ctx) m a ctx.role

-- `ctx.for_workspace(workspace_id)`
unfoldable pub for_workspace : RequestContext → ℕ → RequestContext
for_workspace ctx workspace_id = record ctx { workspace_id = workspace_id }

-- `RequestContext.system(workspace_id, …)`
unfoldable pub system : ℕ → RequestContext
system workspace_id = record {
  user_id = none;
  workspace_id = workspace_id;
  role = platform_admin;
  is_platform_admin = true;
  permission_overrides = [];
}
