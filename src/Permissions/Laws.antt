-- ===== src/Permissions/Laws.antt =====
-- backend/app/core/permissions.py: what the matrices and the overrides grant.
use appbi_integration.Base.{
  ℕ, ◌≤◌, String, ◌≡◌, refl, ◌∙◌, ◌⊎◌, Bool, true, ◌&&◌, List, [], ◌∷◌, some, map, arith, str_eq,
  if◌then◌else◌,
}
use appbi_integration.Base.Lists.{any, select}
use appbi_integration.Permissions.{
  Role, Module, Action, ActionSet, OrgRole, of_list, matrix, allowed, actions_by_value,
  module_value, action_value, sorted_values, org_allowed, owner, platform_admin, automation_admin,
  workflows, view, publish, org_owner, org_admin, org_member, permission_map,
}

-- Nothing is granted on a module that the role may not view.
pub allowed-view :
    (r : Role) (m : Module) (a : Action) → allowed r m a ≡ true → allowed r m view ≡ true
unfolding allowed
allowed-view r m a h = ground arith

-- Three roles may publish a workflow: the owner, the platform administrator and the automation
-- administrator.
pub allowed-publish :
    (r : Role)
    → allowed r workflows publish ≡ true
    → (r ≡ owner) ⊎ ((r ≡ platform_admin) ⊎ (r ≡ automation_admin))
unfolding allowed
allowed-publish r h = ground arith

pub any-map-select :
    (p : String → Bool) (s : ActionSet) (l : List Action)
    → any p (map action_value (select s l)) ≡ any (λ b. p (action_value b) && s b) l
any-map-select p s [] = refl
any-map-select p s (x ∷ l) = ground (arith, any-map-select p s l)

pub any-select : (p s : ActionSet) (l : List Action) → any p (select s l) ≡ any (λ b. p b && s b) l
any-select p s [] = refl
any-select p s (x ∷ l) = ground (arith, any-select p s l)

-- The sorted values name exactly the set's actions.
pub mem-sorted_values :
    (s : ActionSet) (a : Action) → any (str_eq (action_value a)) (sorted_values s) ≡ s a
unfolding sorted_values
mem-sorted_values s a = any-map-select (str_eq (action_value a)) s actions_by_value ∙ narrow a
  where
    narrow :
        (a : Action)
        → any (λ b. str_eq (action_value a) (action_value b) && s b) actions_by_value ≡ s a
    narrow view = ground arith
    narrow _ = ground arith

abbrev pub find_row : String → List (String × List String) → List String
find_row key [] = []
find_row key ((k, values) ∷ rows) = if str_eq k key then values else find_row key rows

-- In the map that the front end is given, the row of a module names an action exactly when the
-- backend would allow it.
pub permission_map-allowed :
    (r : Role) (m : Module) (a : Action)
    → any (str_eq (action_value a)) (find_row (module_value m) (permission_map r)) ≡ allowed r m a
unfolding permission_map module_value allowed
permission_map-allowed r workflows a = mem-sorted_values (of_list (matrix r workflows)) a
permission_map-allowed r m a = mem-sorted_values (of_list (matrix r m)) a

-- A member, an administrator, the owner.
abbrev pub rank : OrgRole → ℕ
rank org_member = 0
rank org_admin = 1
rank org_owner = 2

-- The organisation roles are a ladder: what a role may do, a role of at least its rank may do.
pub org_allowed_ladder :
    (r q : OrgRole) (a : Action)
    → rank r ≤ rank q
    → org_allowed (some r) a ≡ true
    → org_allowed (some q) a ≡ true
unfolding org_allowed
org_allowed_ladder r q a h k = ground arith
