-- ===== src/Permissions/Decides.antt =====
-- backend/app/core/permissions.py: what `effective` grants, read off the names in the override map.
use appbi_integration.Base.{
  String, ◌≡◌, refl, sym, ap, ◌∙◌, subst, Bool, true, false, ◌||◌, List, [], ◌∷◌, Option, none,
  some, arith, Bool-cases, inl, inr, str_eq, eq_iff, eq_refl, if◌then◌else◌,
}
use appbi_integration.Base.Lists.{any}
use appbi_integration.Json.{Json, null, boolean, num, neg, str, arr, obj, Items, nil, cons}
use appbi_integration.Permissions.{
  Role, Module, Action, ActionSet, Permissions, allowed, workflows, view, same_action, of_list,
  module_value, action_value, all_actions,
}
use appbi_integration.Permissions.Overrides.{
  Overrides, as_module, action_of, recognised, insert_action, as_actions, assign, apply_overrides,
  effective, same_module,
}
use appbi_integration.Permissions.Stored.{action_of-value, as_module-value}

-- The text is an item of the list.
abbrev pub names : String → Items → Bool
names value nil = false
names value (cons (str s) items) = str_eq s value || names value items
names value (cons _ items) = names value items

-- The value of an override is a list with the name of the action in it.
abbrev pub grants : Json → Action → Bool
grants (arr items) a = names (action_value a) items
grants _ a = false

abbrev last_or : Option Json → Bool → Json → Option Json
last_or (some later) same raw = some later
last_or none same raw = if same then some raw else none

-- The last value under a key.
abbrev pub last_under : String → Overrides → Option Json
last_under key [] = none
last_under key ((k, raw) ∷ rest) = last_or (last_under key rest) (str_eq k key) raw

-- What the overrides have for a module decides an action, and the role's preset where they have nothing.
abbrev pub decided : Role → Module → Action → Option Json → Bool
decided role m a none = allowed role m a
decided role m a (some raw) = grants raw a

abbrev is_action : Option Action → Action → Bool
is_action none a = false
is_action (some b) a = same_action a b

abbrev is_module : Option Module → Module → Bool
is_module none m = false
is_module (some n) m = same_module n m

other_action :
    (s : String) (a : Action)
    → str_eq s (action_value a) ≡ false
    → is_action (action_of s) a ≡ false
unfolding action_of action_value
other_action s view h = ground arith
other_action s _ h = ground arith

other_module :
    (s : String) (m : Module)
    → str_eq s (module_value m) ≡ false
    → is_module (as_module s) m ≡ false
unfolding as_module module_value
other_module s workflows h = ground arith
other_module s _ h = ground arith

action_of-names : (s : String) (a : Action) → is_action (action_of s) a ≡ str_eq s (action_value a)
action_of-names s a = elim (Bool-cases (str_eq s (action_value a))) [
  | inl h ↦
      subst (λ (t : String). is_action (action_of t) a ≡ str_eq t (action_value a))
        (sym ((eq_iff s (action_value a)).0 h))
        (rw (action_of-value a) (rw (eq_refl (action_value a)) (self a)))
  | inr h ↦ rw h (other_action s a h)
]
  where
    self : (a : Action) → same_action a a ≡ true
    self view = refl
    self _ = refl

as_module-names : (s : String) (m : Module) → is_module (as_module s) m ≡ str_eq s (module_value m)
as_module-names s m = elim (Bool-cases (str_eq s (module_value m))) [
  | inl h ↦
      subst (λ (t : String). is_module (as_module t) m ≡ str_eq t (module_value m))
        (sym ((eq_iff s (module_value m)).0 h))
        (rw (as_module-value m) (rw (eq_refl (module_value m)) (self m)))
  | inr h ↦ rw h (other_module s m h)
]
  where
    self : (m : Module) → same_module m m ≡ true
    self workflows = refl
    self _ = refl

any-insert :
    (o : Option Action) (l : List Action) (a : Action)
    → any (same_action a) (insert_action o l) ≡ (is_action o a || any (same_action a) l)
any-insert none l a = refl
any-insert (some b) l a = refl

recognised-names :
    (items : Items) (a : Action) → of_list (recognised items) a ≡ names (action_value a) items
unfolding recognised
recognised-names nil a = refl
recognised-names (cons (str s) items) a =
    any-insert (action_of s) (recognised items) a
    ∙ rw (action_of-names s a) (rw (recognised-names items a) refl)
recognised-names (cons null items) a = recognised-names items a
recognised-names (cons (boolean b) items) a = recognised-names items a
recognised-names (cons (num n) items) a = recognised-names items a
recognised-names (cons (neg n) items) a = recognised-names items a
recognised-names (cons (arr l) items) a = recognised-names items a
recognised-names (cons (obj f) items) a = recognised-names items a

as_actions-grants : (raw : Json) (a : Action) → as_actions raw a ≡ grants raw a
unfolding as_actions
as_actions-grants (arr items) a = recognised-names items a
as_actions-grants null a = refl
as_actions-grants _ a = refl

-- What the loop leaves, when it starts from some permissions.
abbrev decided_from : Bool → Action → Option Json → Bool
decided_from was a none = was
decided_from was a (some raw) = grants raw a

assign-names :
    (o : Option Module) (s : ActionSet) (perms : Permissions) (m : Module) (a : Action)
    → assign o s perms m a ≡ (if is_module o m then s a else perms m a)
assign-names none s perms m a = refl
assign-names (some n) s perms m a = elim (Bool-cases (same_module n m)) [
  | inl h ↦ rw h refl
  | inr h ↦ rw h refl
]

apply_overrides-decided :
    (overrides : Overrides) (perms : Permissions) (m : Module) (a : Action)
    → apply_overrides overrides perms m a
      ≡ decided_from (perms m a) a (last_under (module_value m) overrides)
unfolding apply_overrides
apply_overrides-decided [] perms m a = refl
apply_overrides-decided ((key, raw) ∷ rest) perms m a =
    apply_overrides-decided rest (assign (as_module key) (as_actions raw) perms) m a
    ∙ ap (λ b. decided_from b a (last_under (module_value m) rest))
        (assign-names (as_module key) (as_actions raw) perms m a
          ∙ rw (as_module-names key m) (rw (as_actions-grants raw a) refl))
    ∙ settle (last_under (module_value m) rest) (str_eq key (module_value m))
  where
    settle :
        (o : Option Json) (b : Bool)
        → decided_from (if b then grants raw a else perms m a) a o
          ≡ decided_from (perms m a) a (last_or o b raw)
    settle none true = refl
    settle none false = refl
    settle (some later) b = refl

-- Short of a platform administrator, the last value that the overrides have under the name of a module decides
-- it alone: an action is granted if that value is a list with the action's name in it, so a value that
-- is no list, and a name that is none, grant nothing. A module that they do not name keeps what the
-- role allows. A platform administrator has every action whatever they say.
pub effective-reads :
    (role : Role) (overrides : Overrides) (m : Module) (a : Action)
    → (effective role overrides false m a
        ≡ decided role m a (last_under (module_value m) overrides))
      × (effective role overrides true m a ≡ true)
unfolding effective allowed
effective-reads role overrides m a = (
  apply_overrides-decided overrides _ m a ∙ preset (last_under (module_value m) overrides),
  whole a,
)
  where
    preset : (o : Option Json) → decided_from (allowed role m a) a o ≡ decided role m a o
    preset none = refl
    preset (some raw) = refl

    whole : (a : Action) → of_list all_actions a ≡ true
    whole view = refl
    whole _ = refl
