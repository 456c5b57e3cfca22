-- ===== src/Graph/Dict.antt =====
-- Python dicts with text keys, as association lists in insertion order.
use appbi_integration.Base.{
  String, Bool, true, false, Option, none, some, List, [], ◌∷◌, str_eq, if◌then◌else◌,
}

abbrev pub Dict {ℓ} : Type ℓ → Type ℓ
Dict V = List (String × V)

module _ {ℓ} {V : Type ℓ} where
  -- `d.get(key)`
  unfoldable pub lookup : String → Dict V → Option V
  lookup key [] = none
  lookup key ((k, v) ∷ d) = if str_eq k key then some v else lookup key d

  -- `list(d)`
  unfoldable pub keys : Dict V → List String
  keys [] = []
  keys ((k, v) ∷ d) = k ∷ keys d

  -- `d[key] = f(d[key])` at a key that is there; a missing key changes nothing
  unfoldable pub modify : String → (V → V) → Dict V → Dict V
  modify key f [] = []
  modify key f ((k, v) ∷ d) =
      let rest = modify key f d in if str_eq k key then (k, f v) ∷ d else (k, v) ∷ rest

  -- `key in d`
  unfoldable pub has : String → Dict V → Bool
  has key [] = false
  has key ((k, v) ∷ d) = if str_eq k key then true else has key d
