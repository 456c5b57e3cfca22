-- ===== src/Json/Equal.antt =====
-- Python's `==` on JSON values: a Boolean equals the number 0 or 1, and the order of an object's
-- keys does not matter.
use appbi_integration.Base.{ℕ, suc, Bool, true, false, ◌&&◌, none, some, str_eq, ◌==◌}
use appbi_integration.Json.{
  Json, null, boolean, num, neg, str, arr, obj, Items, nil, cons, Fields, end, field, get,
}

abbrev as_number : Bool → ℕ
as_number true = 1
as_number false = 0

unfoldable pub size : Fields → ℕ
size end = 0
size (field k v fs) = suc (size fs)

unfoldable mutual
  unfolding size get

  pub equal : Json → Json → Bool
  equal null null = true
  equal (boolean a) (boolean b) = as_number a == as_number b
  equal (boolean a) (num n) = as_number a == n
  equal (num n) (boolean b) = n == as_number b
  equal (num n) (num m) = n == m
  equal (neg n) (neg m) = n == m
  equal (str s) (str t) = str_eq s t
  equal (arr xs) (arr ys) = equal_items xs ys
  equal (obj fs) (obj gs) = size fs == size gs && fields_in fs gs
  equal _ _ = false

  pub equal_items : Items → Items → Bool
  equal_items nil nil = true
  equal_items (cons x xs) (cons y ys) = equal x y && equal_items xs ys
  equal_items _ _ = false

  -- Every field of the first object is in the second, with an equal value.
  pub fields_in : Fields → Fields → Bool
  fields_in end gs = true
  fields_in (field k v fs) gs =
      elim (get k gs) [ none ↦ false | some w ↦ equal v w ] && fields_in fs gs
