-- ===== src/Base/Lists.antt =====
-- Lists over native numbers and Boolean tests, in place of the library's unary and decision versions.
use Prim.Native.Nat.{ℕ, zero, suc, ◌+◌, ◌≤◌}
use mathlib.Core.Path.{◌≡◌, refl, subst}
use mathlib.Core.Bool.{Bool, true, false, ◌&&◌, ◌||◌}
use mathlib.Core.Option.{Option, none, some}
use mathlib.Core.List.{List, [], ◌∷◌, ◌++◌}
use native.Mathlib.Omega.{arith}

-- `if` as a function, for the definitions of this module.
abbrev pick {ℓ} : {A : Type ℓ} → Bool → A → A → A
pick true x y = x
pick false x y = y

module _ {ℓ} {A : Type ℓ} where
  abbrev pub length : List A → ℕ
  length [] = 0
  length (x ∷ xs) = suc (length xs)

  -- `[x for x in xs if p(x)]`
  abbrev pub select : (A → Bool) → List A → List A
  select p [] = []
  select p (x ∷ xs) = let rest = select p xs in pick (p x) (x ∷ rest) rest

  -- `sum(1 for x in xs if p(x))`, SQL's `count(*) where p`
  abbrev pub count_if : (A → Bool) → List A → ℕ
  count_if p [] = 0
  count_if p (x ∷ xs) = let rest = count_if p xs in pick (p x) (suc rest) rest

  -- `next((x for x in xs if p(x)), None)`
  abbrev pub find_first : (A → Bool) → List A → Option A
  find_first p [] = none
  find_first p (x ∷ xs) = let rest = find_first p xs in pick (p x) (some x) rest

  abbrev pub any : (A → Bool) → List A → Bool
  any p [] = false
  any p (x ∷ xs) = p x || any p xs

  abbrev pub all : (A → Bool) → List A → Bool
  all p [] = true
  all p (x ∷ xs) = p x && all p xs

  abbrev pub take : ℕ → List A → List A
  take zero xs = []
  take (suc n) [] = []
  take (suc n) (x ∷ xs) = x ∷ take n xs

  pub count_if-append :
      (p : A → Bool) (xs ys : List A) → count_if p (xs ++ ys) ≡ count_if p xs + count_if p ys
  count_if-append p [] ys = omega arith
  count_if-append p (x ∷ xs) ys = ground (arith, count_if-append p xs ys)

  pub length-append : (xs ys : List A) → length (xs ++ ys) ≡ length xs + length ys
  length-append [] ys = omega arith
  length-append (x ∷ xs) ys = omega (arith, length-append xs ys)

  pub length-select-le : (p : A → Bool) (xs : List A) → length (select p xs) ≤ length xs
  length-select-le p [] = omega arith
  length-select-le p (x ∷ xs) = ground (arith, length-select-le p xs)

  pub any-append : (p : A → Bool) (xs ys : List A) → any p (xs ++ ys) ≡ (any p xs || any p ys)
  any-append p [] ys = refl
  any-append p (x ∷ xs) ys = ground (arith, any-append p xs ys)

  -- What holds of all holds of the one that is found, of the ones selected, and of two lists joined.
  pub all-find_first :
      (p q : A → Bool) (xs : List A) (a : A)
      → all p xs ≡ true
      → find_first q xs ≡ some a
      → p a ≡ true
  all-find_first p q [] a h k = cc
  all-find_first p q (x ∷ xs) a h k =
      go (q x) (λ e. all-find_first p q xs a (tail (p x) (all p xs) h) e) k
    where
      head : (b c : Bool) → (b && c) ≡ true → b ≡ true
      head b c h = ground arith

      tail : (b c : Bool) → (b && c) ≡ true → c ≡ true
      tail b c h = ground arith

      un : (b : A) → ◌≡◌ {A = Option A} (some b) (some a) → p b ≡ true → p a ≡ true
      un b e t = subst (λ (o : Option A). elim o [ none ↦ true | some y ↦ p y ] ≡ true) e t

      go :
          (b : Bool)
          → (find_first q xs ≡ some a → p a ≡ true)
          → pick b (some x) (find_first q xs) ≡ some a
          → p a ≡ true
      go true later e = un x e (head (p x) (all p xs) h)
      go false later e = later e

  pub all-select : (p q : A → Bool) (xs : List A) → all p xs ≡ true → all p (select q xs) ≡ true
  all-select p q [] h = refl
  all-select p q (x ∷ xs) h = ground (arith, all-select p q xs)

  pub all-join :
      (p : A → Bool) (xs ys : List A) → all p xs ≡ true → all p ys ≡ true → all p (xs ++ ys) ≡ true
  all-join p [] ys h k = k
  all-join p (x ∷ xs) ys h k = ground (arith, all-join p xs ys)
