-- ===== src/Graph/Schema.antt =====
-- backend/app/services/graph.py: what a registry entry says of a node: its fields, their defaults
-- and conditions, and its ports.
use appbi_integration.Base.{
  ℕ, zero, suc, String, Bool, true, false, not, ◌&&◌, List, [], ◌∷◌, ◌++◌, Option, none, some, map,
  str_eq, if◌then◌else◌,
}
use appbi_integration.Base.Lists.{select}
use appbi_integration.Json.{
  Json, null, num, str, arr, obj, nil, cons, Fields, end, field, get, elements,
}
use appbi_integration.Json.Text.{str_or}
use appbi_integration.Json.Equal.{equal}
use appbi_integration.Graph.Text.{strip}

pub record Condition : Type 0 where
  pub on_field : String
  pub equals : Json

-- An entry of `config_schema["fields"]`; `default` is None where the entry has none.
pub record FieldSpec : Type 0 where
  pub key : String
  pub kind : String
  pub required : Bool
  pub condition : Option Condition
  pub default : Json

-- A registry entry, as `catalog.definitions_map` builds it; the keys of the ports are texts.
pub record Definition : Type 0 where
  pub display_name : String
  pub status : String
  pub certification : String
  pub fields : List FieldSpec
  pub is_trigger : Bool
  pub ports_from_rules : Bool
  pub output_port_keys : List String
  pub input_port_keys : List String
  pub product_schema_version : ℕ

-- A missing entry, read as `{}`.
abbrev pub blank_definition : Definition
blank_definition = record {
  display_name = "";
  status = "";
  certification = "";
  fields = [];
  is_trigger = false;
  ports_from_rules = false;
  output_port_keys = [];
  input_port_keys = [];
  product_schema_version = 1;
}

-- `definitions.get(key, {})`
abbrev pub or_blank : Option Definition → Definition
or_blank none = blank_definition
or_blank (some definition) = definition

abbrev is_null : Json → Bool
is_null null = true
is_null _ = false

-- `config[key] = value`
unfoldable pub put : String → Json → Fields → Fields
put key value end = field key value end
put key value (field k v fs) =
    let rest = put key value fs in if str_eq k key then field k value fs else field k v rest

-- `default_config(definition)`, the loop over the fields that are left
unfoldable pub default_config_from : List FieldSpec → Fields → Fields
unfolding put
default_config_from [] config = config
default_config_from (spec ∷ specs) config =
    default_config_from specs
      (if is_null spec.default then config else put spec.key spec.default config)

unfoldable pub default_config : Option Definition → Fields
unfolding default_config_from
default_config none = end
default_config (some definition) = default_config_from definition.fields end

-- TRIGGER_STEP_NAMES
unfoldable pub trigger_step_name : String → Option String
trigger_step_name key =
    if str_eq key "manual_trigger"
    then some "Khi bấm Run"
    else if str_eq key "webhook_trigger"
    then some "Khi có request"
    else if str_eq key "schedule_trigger"
    then some "Theo lịch"
    else none

abbrev display_or : String → Option Definition → String
display_or fallback none = fallback
display_or fallback (some definition) =
    if str_eq definition.display_name "" then fallback else definition.display_name

abbrev name_or : Option String → String → String
name_or none fallback = fallback
name_or (some name) fallback = name

abbrev schema_version : Option Definition → ℕ
schema_version none = 1
schema_version (some definition) = elim definition.product_schema_version [
  | zero ↦ 1
  | suc n ↦ suc n
]

abbrev position : ℕ → ℕ → Json
position x y = obj (field "x" (num x) (field "y" (num y) end))

-- `empty_graph(trigger_node_key, definition)`
unfoldable pub empty_graph : String → Option Definition → Fields
unfolding trigger_step_name default_config
empty_graph trigger_node_key definition =
    let name =
      name_or (trigger_step_name trigger_node_key) (display_or trigger_node_key definition) in
    let node = field "id" (str "start_1") (
      field "node_key" (str trigger_node_key) (
        field "name" (str name) (
          field "position" (position 120 200) (
            field "config" (obj (default_config definition))
              (field "product_schema_version" (num (schema_version definition)) end))))) in
    field "nodes" (arr (cons (obj node) nil)) (field "connections" (arr nil) end)

-- `x or {}` where an object is expected, with Python's AttributeError on anything else left out
abbrev pub as_fields : Option Json → Fields
as_fields (some (obj fields)) = fields
as_fields _ = end

abbrev pub as_list : Option Json → List Json
as_list (some (arr items)) = elements items
as_list _ = []

-- The `output_key` of a rule: its text, stripped.
unfoldable pub rule_key : Json → String
unfolding str_or strip
rule_key rule = strip (str_or "" (get "output_key" (as_fields (some rule))))

abbrev non_blank : String → Bool
non_blank s = not (str_eq s "")

abbrev has_fallback : Option Json → Bool
has_fallback none = false
has_fallback (some fallback) = equal fallback (str "EXTRA_OUTPUT")

-- `output_ports(node, definition)`
unfoldable pub output_ports : Fields → Definition → List String
unfolding rule_key equal get
output_ports node definition =
    if definition.ports_from_rules
    then (let config = as_fields (get "config" node) in
        select non_blank (map rule_key (as_list (get "rules" config)))
        ++ (if has_fallback (get "fallback" config) then "other" ∷ [] else []))
    else definition.output_port_keys

-- `input_ports(definition)`
unfoldable pub input_ports : Definition → List String
input_ports definition = definition.input_port_keys

-- `actual == expected`, a missing value being None
abbrev value_is : Option Json → Json → Bool
value_is none expected = equal null expected
value_is (some actual) expected = equal actual expected

abbrev shown : Option Condition → Fields → Bool
shown none config = true
shown (some condition) config = value_is (get condition.on_field config) condition.equals

-- `_required_field_keys(definition, config)`
unfoldable pub required_fields : Definition → Fields → List FieldSpec
unfolding get equal
required_fields definition config =
    select (λ spec. spec.required && shown spec.condition config) definition.fields
