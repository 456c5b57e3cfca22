-- ===== src/Permissions/Stored.antt =====
-- backend/app/core/permissions.py: `parse_overrides` and what its result grants when it is read back.
use mathlib.Core.Path.{fun_ext}
use appbi_integration.Base.{
  String, ◌≡◌, refl, sym, ap, ◌∙◌, Bool, true, false, ◌&&◌, List, [], ◌∷◌, Option, none, some, map,
  arith,
}
use appbi_integration.Base.Lists.{any, select}
use appbi_integration.Json.{Json, arr, Items, nil, cons}
use appbi_integration.Permissions.{
  Role, Module, Action, ActionSet, Permissions, same_action, of_list, actions_by_value,
  module_value, action_value, sorted_values, workflows, view,
}
use appbi_integration.Permissions.Overrides.{
  Overrides, as_module, action_of, action_of_json, recognised, as_actions, assign, apply_overrides,
  effective, known_action, known_module, bind-parsed, parsed, parse_actions, parse_value,
  stored_items, parse_overrides,
}
use appbi_integration.Permissions.Laws.{any-select}

of_list-select : (s : ActionSet) (a : Action) → of_list (select s actions_by_value) a ≡ s a
of_list-select s a = any-select (same_action a) s actions_by_value ∙ narrow a
  where
    narrow : (a : Action) → any (λ b. same_action a b && s b) actions_by_value ≡ s a
    narrow view = ground arith
    narrow _ = ground arith

pub action_of-value : (a : Action) → action_of (action_value a) ≡ some a
unfolding action_of action_value
action_of-value view = refl
action_of-value _ = refl

pub as_module-value : (m : Module) → as_module (module_value m) ≡ some m
unfolding as_module module_value
as_module-value workflows = refl
as_module-value _ = refl

parse_actions-stored :
    (l : List Action) → parse_actions (stored_items (map action_value l)) ≡ parsed l
unfolding parse_actions stored_items
parse_actions-stored [] = refl
parse_actions-stored (a ∷ l) = rw (action_of-value a) (rw (parse_actions-stored l) refl)

known_action-parsed :
    (item : Json) (o : Option Action) {a : Action} → known_action item o ≡ parsed a → o ≡ some a
known_action-parsed item none h = cc
known_action-parsed item (some b) h = cc

known_module-parsed :
    (key : String) (o : Option Module) {m : Module} → known_module key o ≡ parsed m → o ≡ some m
known_module-parsed key none h = cc
known_module-parsed key (some b) h = cc

recognised-parse :
    (items : Items) (l : List Action) → parse_actions items ≡ parsed l → recognised items ≡ l
unfolding parse_actions recognised
recognised-parse nil l h = ground arith
recognised-parse (cons item items) l h =
    let (a, known, more) = bind-parsed (known_action item (action_of_json item)) _ h in
    let (rest, tail, done) = bind-parsed (parse_actions items) _ more in
    rw (known_action-parsed item _ known, recognised-parse items rest tail) (cc)

same_set : (l : List Action) → of_list (select (of_list l) actions_by_value) ≡ of_list l
same_set l = fun_ext (of_list-select (of_list l))

-- What is stored for a list of actions grants that list.
as_actions-stored :
    (l : List Action) → as_actions (arr (stored_items (sorted_values (of_list l)))) ≡ of_list l
unfolding as_actions sorted_values
as_actions-stored l =
    rw (recognised-parse _ _ (parse_actions-stored (select (of_list l) actions_by_value)))
      (same_set l)

as_actions-parse :
    (m : Module) (value : Json) (l : List Action)
    → parse_value m value ≡ parsed l
    → as_actions value ≡ of_list l
unfolding parse_value as_actions
as_actions-parse m (arr items) l h = rw (recognised-parse items l h) refl
as_actions-parse m _ l h = cc

-- What one accepted item of the map was, and what is stored for it.
pub record Accepted (key : String) (value : Json) (raw stored : Overrides) : Type 0 where
  pub named : Module
  pub actions : List Action
  pub rest : Overrides
  pub module_named : as_module key ≡ some named
  pub value_read : parse_value named value ≡ parsed actions
  pub rest_read : parse_overrides raw ≡ parsed rest
  pub stored_as :
      stored ≡ (module_value named, arr (stored_items (sorted_values (of_list actions)))) ∷ rest

parsed-injective {ℓ} : {A : Type ℓ} {a b : A} → parsed a ≡ parsed b → a ≡ b
parsed-injective h = cc

parse_overrides-cons :
    (key : String) (value : Json) (raw stored : Overrides)
    → parse_overrides ((key, value) ∷ raw) ≡ parsed stored
    → Accepted key value raw stored
unfolding parse_overrides
parse_overrides-cons key value raw stored h =
    let (m, named, more) = bind-parsed (known_module key (as_module key)) _ h in
    let (l, listed, last) = bind-parsed (parse_value m value) _ more in
    let (tail, ih, done) = bind-parsed (parse_overrides raw) _ last in
    record {
      named = m;
      actions = l;
      rest = tail;
      module_named = known_module-parsed key _ named;
      value_read = listed;
      rest_read = ih;
      stored_as = sym (parsed-injective done);
    }

apply_overrides-cons :
    (key : String) (value : Json) (rest : Overrides) (perms : Permissions) {o : Option Module}
    {s : ActionSet}
    → as_module key ≡ o
    → as_actions value ≡ s
    → apply_overrides ((key, value) ∷ rest) perms ≡ apply_overrides rest (assign o s perms)
unfolding apply_overrides
apply_overrides-cons key value rest perms p q = rw (p, q)

apply_overrides-parse :
    (raw stored : Overrides) (perms : Permissions)
    → parse_overrides raw ≡ parsed stored
    → apply_overrides stored perms ≡ apply_overrides raw perms
apply_overrides-parse [] stored perms h =
    ap (λ o. apply_overrides o perms) (unfold parse_overrides in sym (parsed-injective h))
apply_overrides-parse ((key, value) ∷ raw) stored perms h =
    let inv = parse_overrides-cons key value raw stored h in
    rw inv.stored_as (
      apply_overrides-cons _ _ inv.rest perms (as_module-value inv.named)
        (as_actions-stored inv.actions)
      ∙ apply_overrides-parse raw inv.rest _ inv.rest_read
      ∙ sym (
          apply_overrides-cons key value raw perms inv.module_named
            (as_actions-parse inv.named value inv.actions inv.value_read)))

-- An accepted override map grants, once stored, exactly what was submitted.
pub effective-parse_overrides :
    (role : Role) (raw stored : Overrides) (is_platform_admin : Bool)
    → parse_overrides raw ≡ parsed stored
    → effective role stored is_platform_admin ≡ effective role raw is_platform_admin
unfolding effective
effective-parse_overrides role raw stored true h = refl
effective-parse_overrides role raw stored false h = apply_overrides-parse raw stored _ h

parse_value-stored :
    (m : Module) (l : List Action)
    → parse_value m (arr (stored_items (sorted_values (of_list l))))
      ≡ parsed (select (of_list l) actions_by_value)
unfolding parse_value sorted_values
parse_value-stored m l = parse_actions-stored (select (of_list l) actions_by_value)

parse_overrides-accept :
    (key : String) (value : Json) (raw rest : Overrides) {m : Module} {l : List Action}
    → as_module key ≡ some m
    → parse_value m value ≡ parsed l
    → parse_overrides raw ≡ parsed rest
    → parse_overrides ((key, value) ∷ raw)
      ≡ parsed ((module_value m, arr (stored_items (sorted_values (of_list l)))) ∷ rest)
unfolding parse_overrides
parse_overrides-accept key value raw rest p q r = rw p (rw q (rw r))

-- What is stored is in its final form: submitting it again stores the same.
pub parse_overrides-idempotent :
    (raw stored : Overrides)
    → parse_overrides raw ≡ parsed stored
    → parse_overrides stored ≡ parsed stored
parse_overrides-idempotent [] stored h =
    rw (← h) (ap parse_overrides (unfold parse_overrides in sym (parsed-injective h)))
parse_overrides-idempotent ((key, value) ∷ raw) stored h =
    let inv = parse_overrides-cons key value raw stored h in
    rw inv.stored_as (
      rw
        (parse_overrides-accept _ _ inv.rest inv.rest (as_module-value inv.named)
          (parse_value-stored inv.named inv.actions)
          (parse_overrides-idempotent raw inv.rest inv.rest_read))
        (rw (same_set inv.actions) refl))
