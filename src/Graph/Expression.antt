-- ===== src/Graph/Expression.antt =====
-- backend/app/services/graph.py: expressions in a configuration, and the walk over its values.
use Prim.Native.Char.{code}
use Prim.Native.String.{String}
use appbi_integration.Base.{
  ℕ, suc, Bool, true, false, not, ◌&&◌, List, [], ◌∷◌, ◌++◌, Option, none, some, ◌==◌,
  if◌then◌else◌,
}
use appbi_integration.Json.{
  Json, null, boolean, num, neg, str, arr, obj, Items, nil, cons, Fields, end, field,
}
use appbi_integration.Graph.Text.{is_space}

-- The code points of a text.
abbrev pub codes : String → List ℕ
codes String.[] = []
codes (String.◌∷◌ c s) = code c ∷ codes s

abbrev equals_sign : ℕ
equals_sign = b'='

-- `value.startswith("=")` on a text, with `value[1:]`
unfoldable pub expression_body : Json → Option (List ℕ)
expression_body (str (String.◌∷◌ c s)) = if code c == equals_sign then some (codes s) else none
expression_body _ = none

unfoldable pub is_expression : Json → Bool
unfolding expression_body
is_expression value = elim (expression_body value) [ none ↦ false | some _ ↦ true ]

-- `body.count(cc)`: the occurrences of a doubled character, without overlaps
unfoldable pub count_pairs : ℕ → List ℕ → ℕ
count_pairs c [] = 0
count_pairs c (a ∷ []) = 0
count_pairs c (a ∷ b ∷ rest) =
    let found = suc (count_pairs c rest) in
    let next = count_pairs c (b ∷ rest) in if a == c && b == c then found else next

abbrev open_brace : ℕ
open_brace = b'{'

abbrev close_brace : ℕ
close_brace = b'}'

-- Whether the pattern is outside a placeholder, or inside one whose text so far is blank or not.
pub data Mode : Type 0 where
  outside : Mode
  inside : Bool → Mode

-- `re.finditer(r"\{\{(.*?)\}\}", body)`: is some placeholder blank? Outside, a pair of opening
-- braces starts one; inside, the first pair of closing braces ends it.
unfoldable pub blank_placeholder : Mode → List ℕ → Bool
unfolding is_space
blank_placeholder mode [] = false
blank_placeholder mode (a ∷ []) = false
blank_placeholder outside (a ∷ b ∷ rest) =
    let started = blank_placeholder (inside true) rest in
    let next = blank_placeholder outside (b ∷ rest) in
    if a == open_brace && b == open_brace then started else next
blank_placeholder (inside blank) (a ∷ b ∷ rest) =
    let ended = blank_placeholder outside rest in
    let next = blank_placeholder (inside (blank && is_space a)) (b ∷ rest) in
    if a == close_brace && b == close_brace then (if blank then true else ended) else next

pub data ExpressionProblem : Type 0 where
  unbalanced_braces empty_placeholder : ExpressionProblem

-- `_check_expression`, of the text behind the prefix
unfoldable pub check_expression : List ℕ → Option ExpressionProblem
unfolding count_pairs blank_placeholder
check_expression body =
    if not (count_pairs open_brace body == count_pairs close_brace body)
    then some unbalanced_braces
    else if blank_placeholder outside body
    then some empty_placeholder
    else none

-- One step of a path into a configuration: `.key` or `[index]`.
pub data Step : Type 0 where
  at_key : String → Step
  at_index : ℕ → Step

abbrev pub FieldPath : Type 0
FieldPath = List Step

-- `_walk_config_values`: the values that are neither objects nor lists, with their paths
unfoldable mutual
  pub walk_config_values : Json → FieldPath → List (FieldPath × Json)
  walk_config_values (obj fields) prefix = walk_fields fields prefix
  walk_config_values (arr items) prefix = walk_items items 0 prefix
  walk_config_values null prefix = (prefix, null) ∷ []
  walk_config_values (boolean b) prefix = (prefix, boolean b) ∷ []
  walk_config_values (num n) prefix = (prefix, num n) ∷ []
  walk_config_values (neg n) prefix = (prefix, neg n) ∷ []
  walk_config_values (str s) prefix = (prefix, str s) ∷ []

  pub walk_fields : Fields → FieldPath → List (FieldPath × Json)
  walk_fields end prefix = []
  walk_fields (field key item fields) prefix =
      walk_config_values item (prefix ++ at_key key ∷ []) ++ walk_fields fields prefix

  pub walk_items : Items → ℕ → FieldPath → List (FieldPath × Json)
  walk_items nil index prefix = []
  walk_items (cons item items) index prefix =
      walk_config_values item (prefix ++ at_index index ∷ []) ++ walk_items items (suc index) prefix
