-- ===== src/Permissions/Overrides.antt =====
-- backend/app/core/permissions.py: per-member overrides, from the submitted or stored JSON.
use appbi_integration.Base.{
  ◌≡◌, refl, String, Bool, true, false, List, [], ◌∷◌, Option, none, some, if◌then◌else◌, str_eq,
}
use appbi_integration.Json.{Json, str, arr, Items, nil, cons}
use appbi_integration.Permissions.{
  Role, Module, Action, ActionSet, Permissions, of_list, all_actions, matrix, module_value,
  sorted_values,
}

-- `Module(str(key))`, with ValueError as `none`
unfoldable pub as_module : String → Option Module
as_module key =
    if str_eq key "workflows"
    then some Module.workflows
    else if str_eq key "credentials"
    then some Module.credentials
    else if str_eq key "executions"
    then some Module.executions
    else if str_eq key "nodes"
    then some Module.nodes
    else if str_eq key "monitoring"
    then some Module.monitoring
    else if str_eq key "alerts"
    then some Module.alerts
    else if str_eq key "audit"
    then some Module.audit
    else if str_eq key "members"
    then some Module.members
    else if str_eq key "settings"
    then some Module.settings
    else none

-- `Action(s)`
unfoldable pub action_of : String → Option Action
action_of s =
    if str_eq s "view"
    then some Action.view
    else if str_eq s "view_data"
    then some Action.view_data
    else if str_eq s "create"
    then some Action.create
    else if str_eq s "edit"
    then some Action.edit
    else if str_eq s "execute"
    then some Action.execute
    else if str_eq s "publish"
    then some Action.publish
    else if str_eq s "use"
    then some Action.use_credential
    else if str_eq s "delete"
    then some Action.delete
    else if str_eq s "admin"
    then some Action.admin
    else none

-- `Action(str(item))`: of the JSON values only a text has an action's name as its `str`.
unfoldable pub action_of_json : Json → Option Action
unfolding action_of
action_of_json (str s) = action_of s
action_of_json _ = none

abbrev pub insert_action : Option Action → List Action → List Action
insert_action none out = out
insert_action (some a) out = a ∷ out

-- The loop of `_as_actions`: an item that names no action is skipped.
unfoldable pub recognised : Items → List Action
unfolding action_of_json
recognised nil = []
recognised (cons item items) = insert_action (action_of_json item) (recognised items)

unfoldable pub as_actions : Json → ActionSet
unfolding recognised
as_actions (arr items) = of_list (recognised items)
as_actions _ = of_list []

-- An override map: the items of a dict, whose keys are distinct.
abbrev pub Overrides : Type 0
Overrides = List (String × Json)

abbrev pub same_module : Module → Module → Bool
same_module Module.workflows Module.workflows = true
same_module Module.credentials Module.credentials = true
same_module Module.executions Module.executions = true
same_module Module.nodes Module.nodes = true
same_module Module.monitoring Module.monitoring = true
same_module Module.alerts Module.alerts = true
same_module Module.audit Module.audit = true
same_module Module.members Module.members = true
same_module Module.settings Module.settings = true
same_module _ _ = false

-- `resolved[module] = actions`
abbrev pub assign : Option Module → ActionSet → Permissions → Permissions
assign none actions perms = perms
assign (some named) actions perms = λ m a. if same_module named m then actions a else perms m a

-- The loop of `effective` over `overrides.items()`.
unfoldable pub apply_overrides : Overrides → Permissions → Permissions
unfolding as_module as_actions
apply_overrides [] resolved = resolved
apply_overrides ((key, raw) ∷ rest) resolved =
    apply_overrides rest (assign (as_module key) (as_actions raw) resolved)

-- `effective(role, overrides, is_platform_admin=…)`; `None` overrides are the empty map
unfoldable pub effective : Role → Overrides → Bool → Permissions
unfolding apply_overrides matrix
effective role overrides is_platform_admin =
    if is_platform_admin
    then (λ _. of_list all_actions)
    else apply_overrides overrides (λ m. of_list (matrix role m))

-- `ValueError` of `parse_overrides`, with what it names.
pub data OverrideError : Type 0 where
  unknown_module : String → OverrideError
  not_a_list : Module → OverrideError
  unknown_action : Json → OverrideError

pub data Parsed {ℓ} (A : Type ℓ) : Type ℓ where
  parsed : A → Parsed A
  refused : OverrideError → Parsed A

infixl 5 ◌>>=◌
abbrev pub ◌>>=◌ {ℓ κ} : {A : Type ℓ} {B : Type κ} → Parsed A → (A → Parsed B) → Parsed B
parsed a >>= f = f a
refused e >>= f = refused e

-- Inversion of a successful chain.
pub bind-parsed {ℓ κ} :
    {A : Type ℓ} {B : Type κ} (m : Parsed A) (f : A → Parsed B) {b : B}
    → (m >>= f) ≡ parsed b
    → (a : A) × (m ≡ parsed a) × (f a ≡ parsed b)
bind-parsed (parsed a) f h = (a, refl, h)
bind-parsed (refused e) f h = cc

abbrev pub known_action : Json → Option Action → Parsed Action
known_action item none = refused (unknown_action item)
known_action item (some a) = parsed a

-- `for item in value: actions.add(Action(str(item)))`
unfoldable pub parse_actions : Items → Parsed (List Action)
unfolding action_of_json
parse_actions nil = parsed []
parse_actions (cons item items) = do
  action ← known_action item (action_of_json item)
  actions ← parse_actions items
  parsed (action ∷ actions)

unfoldable pub parse_value : Module → Json → Parsed (List Action)
unfolding parse_actions
parse_value m (arr items) = parse_actions items
parse_value m _ = refused (not_a_list m)

abbrev pub known_module : String → Option Module → Parsed Module
known_module key none = refused (unknown_module key)
known_module key (some m) = parsed m

-- `sorted(a.value for a in actions)`, as the JSON that is stored
unfoldable pub stored_items : List String → Items
stored_items [] = nil
stored_items (value ∷ values) = cons (str value) (stored_items values)

-- `parse_overrides(raw)`: keys are distinct, so each `stored[module.value] = …` is a new item.
unfoldable pub parse_overrides : Overrides → Parsed Overrides
unfolding as_module parse_value stored_items sorted_values module_value
parse_overrides [] = parsed []
parse_overrides ((key, value) ∷ raw) = do
  named ← known_module key (as_module key)
  actions ← parse_value named value
  stored ← parse_overrides raw
  parsed ((module_value named, arr (stored_items (sorted_values (of_list actions)))) ∷ stored)
