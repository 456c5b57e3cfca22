-- ===== src/Json/Text.antt =====
-- Python's `str(x)` of a JSON value. Inside a list or a dict a text is shown between quotes; the
-- escapes that Python adds to a nested text with quotes of its own are not modelled.
use Prim.Native.String.{◌++◌}
use appbi_integration.Base.{
  ℕ, zero, suc, ◌+◌, ◌/◌, ◌%◌, String, true, false, ltb, if◌then◌else◌, ◌==◌, Option, none, some,
}
use appbi_integration.Json.{
  Json, null, boolean, num, neg, str, arr, obj, Items, nil, cons, Fields, end, field, truthy,
}

unfoldable pub digit : ℕ → String
digit d =
    if d == 0
    then "0"
    else if d == 1
    then "1"
    else if d == 2
    then "2"
    else if d == 3
    then "3"
    else if d == 4
    then "4"
    else if d == 5
    then "5"
    else if d == 6
    then "6"
    else if d == 7
    then "7"
    else if d == 8
    then "8"
    else "9"

-- The decimal digits, on fuel: a number is above the count of its digits.
unfoldable pub decimal_from : ℕ → ℕ → String
unfolding digit
decimal_from zero n = ""
decimal_from (suc fuel) n =
    let high = decimal_from fuel (n / 10) in if ltb n 10 then digit n else high ++ digit (n % 10)

unfoldable pub decimal : ℕ → String
unfolding decimal_from
decimal n = decimal_from (suc n) n

unfoldable mutual
  unfolding decimal

  pub repr : Json → String
  repr null = "None"
  repr (boolean true) = "True"
  repr (boolean false) = "False"
  repr (num n) = decimal n
  repr (neg n) = "-" ++ decimal (n + 1)
  repr (str s) = "'" ++ s ++ "'"
  repr (arr items) = "[" ++ repr_items items ++ "]"
  repr (obj fields) = "{" ++ repr_fields fields ++ "}"

  pub repr_items : Items → String
  repr_items nil = ""
  repr_items (cons x nil) = repr x
  repr_items (cons x (cons y items)) = repr x ++ ", " ++ repr_items (cons y items)

  pub repr_fields : Fields → String
  repr_fields end = ""
  repr_fields (field k v end) = "'" ++ k ++ "': " ++ repr v
  repr_fields (field k v (field l w fields)) =
      "'" ++ k ++ "': " ++ repr v ++ ", " ++ repr_fields (field l w fields)

-- `str(x)`
unfoldable pub py_str : Json → String
unfolding repr
py_str (str s) = s
py_str null = repr null
py_str (boolean b) = repr (boolean b)
py_str (num n) = repr (num n)
py_str (neg n) = repr (neg n)
py_str (arr items) = repr (arr items)
py_str (obj fields) = repr (obj fields)

-- `str(d.get(key) or default)`
unfoldable pub str_or : String → Option Json → String
unfolding truthy py_str
str_or default none = default
str_or default (some x) = if truthy x then py_str x else default
