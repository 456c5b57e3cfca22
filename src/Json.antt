-- ===== src/Json.antt =====
-- The JSON values that a request body or a JSONB column holds, and what Python's operators make of
-- them. A number is an integer; an object's keys are distinct, as those of a Python dict are.
pub mod Text
pub mod Equal
use appbi_integration.Base.{
  ℕ, zero, suc, String, Bool, true, false, Option, none, some, List, [], ◌∷◌, str_eq, if◌then◌else◌,
}

mutual
  pub data Json : Type 0 where
    null : Json
    boolean : Bool → Json
    num : ℕ → Json
    neg : ℕ → Json
    str : String → Json
    arr : Items → Json
    obj : Fields → Json

  pub data Items : Type 0 where
    nil : Items
    cons : Json → Items → Items

  pub data Fields : Type 0 where
    end : Fields
    field : String → Json → Fields → Fields

-- An array as a list.
abbrev pub elements : Items → List Json
elements nil = []
elements (cons x xs) = x ∷ elements xs

-- `d.get(key)` on an object.
unfoldable pub get : String → Fields → Option Json
get key end = none
get key (field k v fs) = if str_eq k key then some v else get key fs

-- `bool(x)`: `neg n` is the number -(n + 1).
unfoldable pub truthy : Json → Bool
truthy null = false
truthy (boolean b) = b
truthy (num zero) = false
truthy (num (suc n)) = true
truthy (neg n) = true
truthy (str s) = if str_eq s "" then false else true
truthy (arr nil) = false
truthy (arr (cons _ _)) = true
truthy (obj end) = false
truthy (obj (field _ _ _)) = true
