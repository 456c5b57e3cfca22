-- ===== src/Permissions.antt =====
-- backend/app/core/permissions.py: roles, modules, actions, the workspace and organisation
-- matrices, and the guards that raise ForbiddenError. A set of actions is its membership test.
pub mod Overrides
pub mod Laws
pub mod Stored
pub mod Decides
use appbi_integration.Base.{
  String, Bool, true, false, ◌||◌, List, [], ◌∷◌, Option, none, some, map, if◌then◌else◌,
}
use appbi_integration.Base.Lists.{any, select}

pub data Role : Type 0 where
  owner automation_admin automation_builder operator analyst auditor platform_admin : Role

pub data Module : Type 0 where
  workflows credentials executions nodes monitoring alerts audit members settings : Module

-- `use_credential` is the source's USE, a reserved word here.
pub data Action : Type 0 where
  view view_data create edit execute publish use_credential delete admin : Action

abbrev pub same_action : Action → Action → Bool
same_action view view = true
same_action view_data view_data = true
same_action create create = true
same_action edit edit = true
same_action execute execute = true
same_action publish publish = true
same_action use_credential use_credential = true
same_action delete delete = true
same_action admin admin = true
same_action _ _ = false

-- `set[Action]`
abbrev pub ActionSet : Type 0
ActionSet = Action → Bool

-- `{a, b, …}`; `set()` is `of_list []`
abbrev pub of_list : List Action → ActionSet
of_list actions a = any (same_action a) actions

abbrev pub all_actions : List Action
all_actions =
    view ∷ view_data ∷ create ∷ edit ∷ execute ∷ publish ∷ use_credential ∷ delete ∷ admin ∷ []

abbrev pub read_only : List Action
read_only = view ∷ []

-- `MATRIX[role][module]`
unfoldable pub matrix : Role → Module → List Action
matrix owner _ = all_actions
matrix platform_admin _ = all_actions
matrix automation_admin workflows =
    view ∷ view_data ∷ create ∷ edit ∷ execute ∷ publish ∷ delete ∷ []
matrix automation_admin credentials = view ∷ create ∷ edit ∷ use_credential ∷ delete ∷ []
matrix automation_admin executions = view ∷ view_data ∷ execute ∷ []
matrix automation_admin nodes = read_only
matrix automation_admin monitoring = view ∷ view_data ∷ []
matrix automation_admin alerts = view ∷ create ∷ edit ∷ execute ∷ delete ∷ []
matrix automation_admin audit = read_only
matrix automation_admin members = read_only
matrix automation_admin settings = view ∷ edit ∷ []
matrix automation_builder workflows = view ∷ view_data ∷ create ∷ edit ∷ execute ∷ []
matrix automation_builder credentials = view ∷ create ∷ edit ∷ use_credential ∷ []
matrix automation_builder executions = view ∷ view_data ∷ execute ∷ []
matrix automation_builder nodes = read_only
matrix automation_builder monitoring = read_only
matrix automation_builder alerts = view ∷ execute ∷ []
matrix automation_builder audit = []
matrix automation_builder members = []
matrix automation_builder settings = read_only
matrix operator workflows = view ∷ execute ∷ []
matrix operator credentials = read_only
matrix operator executions = view ∷ view_data ∷ execute ∷ []
matrix operator nodes = read_only
matrix operator monitoring = view ∷ view_data ∷ []
matrix operator alerts = view ∷ execute ∷ []
matrix operator audit = []
matrix operator members = []
matrix operator settings = read_only
matrix analyst workflows = read_only
matrix analyst credentials = read_only
matrix analyst executions = view ∷ view_data ∷ []
matrix analyst nodes = read_only
matrix analyst monitoring = read_only
matrix analyst alerts = read_only
matrix analyst audit = []
matrix analyst members = []
matrix analyst settings = read_only
matrix auditor _ = read_only

-- `allowed(role, module, action)`
unfoldable pub allowed : Role → Module → Action → Bool
unfolding matrix
allowed role module_ action = of_list (matrix role module_) action

-- What a guard ends in: it returns, or raises ForbiddenError with the three names in its details.
pub data Verdict : Type 0 where
  granted : Verdict
  forbidden : Module → Action → Role → Verdict

-- `require(role, module, action)`
unfoldable pub require : Role → Module → Action → Verdict
unfolding allowed
require role module_ action =
    if allowed role module_ action then granted else forbidden module_ action role

-- `dict[Module, set[Action]]`; a missing module is `set()`
abbrev pub Permissions : Type 0
Permissions = Module → ActionSet

unfoldable pub allowed_effective : Permissions → Module → Action → Bool
allowed_effective perms module_ action = perms module_ action

unfoldable pub require_effective : Permissions → Module → Action → Role → Verdict
unfolding allowed_effective
require_effective perms module_ action role =
    if allowed_effective perms module_ action then granted else forbidden module_ action role

-- the organisation axis
pub data OrgRole : Type 0 where
  org_owner org_admin org_member : OrgRole

-- `ORG_MATRIX[role]`
unfoldable pub org_matrix : OrgRole → List Action
org_matrix org_owner = view ∷ create ∷ edit ∷ delete ∷ admin ∷ []
org_matrix org_admin = view ∷ create ∷ edit ∷ admin ∷ []
org_matrix org_member = view ∷ []

-- `role in ORG_ROLES_WITH_WORKSPACE_ACCESS`
unfoldable pub has_workspace_access : Option OrgRole → Bool
has_workspace_access (some org_owner) = true
has_workspace_access (some org_admin) = true
has_workspace_access _ = false

unfoldable pub org_allowed : Option OrgRole → Action → Bool
unfolding org_matrix
org_allowed none action = false
org_allowed (some role) action = of_list (org_matrix role) action

-- `Module.value` and `Action.value`
unfoldable pub module_value : Module → String
module_value workflows = "workflows"
module_value credentials = "credentials"
module_value executions = "executions"
module_value nodes = "nodes"
module_value monitoring = "monitoring"
module_value alerts = "alerts"
module_value audit = "audit"
module_value members = "members"
module_value settings = "settings"

unfoldable pub action_value : Action → String
action_value view = "view"
action_value view_data = "view_data"
action_value create = "create"
action_value edit = "edit"
action_value execute = "execute"
action_value publish = "publish"
action_value use_credential = "use"
action_value delete = "delete"
action_value admin = "admin"

-- The actions in the order of their values: `sorted(a.value for a in s)` keeps those in `s`.
abbrev pub actions_by_value : List Action
actions_by_value =
    admin ∷ create ∷ delete ∷ edit ∷ execute ∷ publish ∷ use_credential ∷ view ∷ view_data ∷ []

unfoldable pub sorted_values : ActionSet → List String
unfolding action_value
sorted_values s = map action_value (select s actions_by_value)

abbrev pub all_modules : List Module
all_modules =
    workflows ∷ credentials ∷ executions ∷ nodes ∷ monitoring ∷ alerts ∷ audit ∷ members ∷ settings
    ∷ []

unfoldable pub serialise : Permissions → List (String × List String)
unfolding module_value sorted_values
serialise perms = map (λ m. (module_value m, sorted_values (perms m))) all_modules

unfoldable pub permission_map : Role → List (String × List String)
unfolding serialise matrix
permission_map role = serialise (λ m. of_list (matrix role m))

unfoldable pub org_permissions : Option OrgRole → List String
unfolding sorted_values org_matrix
org_permissions none = []
org_permissions (some role) = sorted_values (of_list (org_matrix role))
