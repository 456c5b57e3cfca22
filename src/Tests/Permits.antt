-- ===== src/Tests/Permits.antt =====
-- backend/app/core/permissions.py on small override maps.
use appbi_integration.Base.{◌≡◌, refl, true, false, some, [], ◌∷◌}
use appbi_integration.Json.{Json, str, arr, nil, cons}
use appbi_integration.Permissions.{
  module_value, Role, Module, Action, org_member, allowed, org_allowed,
}
use appbi_integration.Permissions.Overrides.{Overrides, effective, parsed, parse_overrides}
use appbi_integration.Permissions.Decides.{decided, last_under, effective-reads}
use appbi_integration.Permissions.Stored.{effective-parse_overrides}

abbrev audit_only : Json
audit_only = arr (cons (str "view") nil)

abbrev twice : Json
twice = arr (cons (str "view") (cons (str "edit") (cons (str "view") nil)))

abbrev submitted : Overrides
submitted = ("alerts", audit_only) ∷ ("workflows", twice) ∷ []

abbrev in_store : Overrides
in_store =
    ("alerts", audit_only) ∷ ("workflows", arr (cons (str "edit") (cons (str "view") nil))) ∷ []

submitted_parses : parse_overrides submitted ≡ parsed in_store
unfolding parse_overrides
submitted_parses = refl

effective-parse_overrides_example :
    effective Role.analyst in_store false ≡ effective Role.analyst submitted false
effective-parse_overrides_example =
    effective-parse_overrides Role.analyst submitted in_store false submitted_parses

-- The first item for the workflows is not the one that counts, and "VIEW" is the name of no action.
abbrev edited : Overrides
edited =
    ("workflows", twice)
    ∷ ("nonsense", twice)
    ∷ ("workflows", arr (cons (str "VIEW") (cons (str "publish") nil)))
    ∷ []

effective-reads_example :
    (effective Role.analyst edited false Module.workflows Action.publish
      ≡ decided Role.analyst Module.workflows Action.publish
          (last_under (module_value Module.workflows) edited))
    × (effective Role.analyst edited true Module.workflows Action.publish ≡ true)
effective-reads_example = effective-reads Role.analyst edited Module.workflows Action.publish

operator_executes : allowed Role.operator Module.workflows Action.execute ≡ true
unfolding allowed
operator_executes = refl

owner_publishes : allowed Role.owner Module.workflows Action.publish ≡ true
unfolding allowed
owner_publishes = refl

member_views : org_allowed (some org_member) Action.view ≡ true
unfolding org_allowed
member_views = refl
