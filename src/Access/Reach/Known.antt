-- ===== src/Access/Reach/Known.antt =====
-- backend/app/services/access.py: the workspaces that `reachable` collects are active rows of the table.
use appbi_integration.Base.{
  ℕ, ◌≡◌, refl, sym, subst, Bool, true, false, ◌&&◌, Option, none, some, List, [], ◌∷◌, ◌++◌, ◌==◌,
  ==→eq, Bool-cases, inl, inr, unsome, arith, if◌then◌else◌,
}
use appbi_integration.Base.Lists.{find_first, select}
use appbi_integration.Access.{User, Workspace, is_open, Membership, Directory, workspace_by_id}
use appbi_integration.Access.Reach.{
  prepend_some, if_open, own_workspaces, is_listed, add_missing, administers, reachable_workspaces,
}

module _ {ℓ} {A : Type ℓ} (P : A → Type 0) where
  abbrev pub Every : List A → Type 0
  Every [] = Unit {0}
  Every (x ∷ l) = P x × Every l

  pub Every-append : (l m : List A) → Every l → Every m → Every (l ++ m)
  Every-append [] m h k = k
  Every-append (x ∷ l) m (p, h) k = (p, Every-append l m h k)

  pub Every-select : (q : A → Bool) (l : List A) → Every l → Every (select q l)
  Every-select q [] h = tt
  Every-select q (x ∷ l) (p, h) = elim (Bool-cases (q x)) [
    | inl k ↦ rw k (p, Every-select q l h)
    | inr k ↦ rw k (Every-select q l h)
  ]

  pub Every-find_first :
      (q : A → Bool) (l : List A) (a : A) → Every l → find_first q l ≡ some a → P a × (q a ≡ true)
  Every-find_first q [] a h k = cc
  Every-find_first q (x ∷ l) a (p, h) k = elim (Bool-cases (q x)) [
    | inl j ↦ subst (λ (y : A). P y × (q y ≡ true)) (unsome (rw j at k)) (p, j)
    | inr j ↦ Every-find_first q l a h (rw j at k)
  ]

  pub Every-prepend_some :
      (o : Option A) (l : List A)
      → ((a : A) → o ≡ some a → P a)
      → Every l
      → Every (prepend_some o l)
  Every-prepend_some none l p h = h
  Every-prepend_some (some a) l p h = (p a refl, h)

-- An active workspace that the table has under its id.
abbrev pub IsKnown : Directory → Workspace → Type 0
IsKnown d w = (workspace_by_id d w.id ≡ some w) × (is_open w.status ≡ true)

-- The ids of the table are distinct: a look-up gives the row itself.
abbrev pub HasOwnIds : Directory → Type 0
HasOwnIds d = Every (λ w. workspace_by_id d w.id ≡ some w) d.workspaces

found_id :
    (i : ℕ) (l : List Workspace) (w : Workspace)
    → find_first (λ x. x.id == i) l ≡ some w
    → (w.id == i) ≡ true
found_id i [] w h = cc
found_id i (x ∷ l) w h = elim (Bool-cases (x.id == i)) [
  | inl j ↦ subst (λ (y : Workspace). (y.id == i) ≡ true) (unsome (rw j at h)) j
  | inr j ↦ found_id i l w (rw j at h)
]

-- A row that is found by an id is found by its own.
found_known :
    (d : Directory) (i : ℕ) (w : Workspace)
    → workspace_by_id d i ≡ some w
    → workspace_by_id d w.id ≡ some w
unfolding workspace_by_id
found_known d i w h =
    subst (λ (j : ℕ). find_first (λ x. x.id == j) d.workspaces ≡ some w)
      (sym (==→eq w.id i (found_id i d.workspaces w h))) h

if_open-some :
    (o : Option Workspace) (w : Workspace)
    → if_open o ≡ some w
    → (o ≡ some w) × (is_open w.status ≡ true)
if_open-some none w h = cc
if_open-some (some x) w h = go (is_open x.status) refl h
  where
    go :
        (b : Bool)
        → is_open x.status ≡ b
        → (if b then some x else none) ≡ some w
        → ◌≡◌ {A = Option Workspace} (some x) (some w) × (is_open w.status ≡ true)
    go true k e = (e, subst (λ (y : Workspace). is_open y.status ≡ true) (unsome e) k)
    go false k e = cc

own-IsKnown :
    (d : Directory) (user_id : ℕ) (seats : List Membership)
    → Every (IsKnown d) (own_workspaces d user_id seats)
unfolding own_workspaces
own-IsKnown d user_id [] = tt
own-IsKnown d user_id (m ∷ rest) = elim (Bool-cases (m.user_id == user_id)) [
  | inl k ↦ rw k (
      Every-prepend_some (IsKnown d) (if_open (workspace_by_id d m.workspace_id)) _
        (λ w e.
          let (found, live) = if_open-some (workspace_by_id d m.workspace_id) w e in
          (found_known d m.workspace_id w found, live))
        (own-IsKnown d user_id rest))
  | inr k ↦ rw k (own-IsKnown d user_id rest)
]

add_missing-Every :
    (P : Workspace → Type 0) (found l : List Workspace)
    → Every P found
    → Every P l
    → Every P (add_missing found l)
unfolding add_missing
add_missing-Every P found [] h k = h
add_missing-Every P found (w ∷ rest) h (p, k) = elim (Bool-cases (is_listed found w)) [
  | inl j ↦ rw j (add_missing-Every P found rest h k)
  | inr j ↦
      rw j (add_missing-Every P (found ++ w ∷ []) rest (Every-append P found (w ∷ []) h (p, tt)) k)
]

-- The rows of the table that pass a test that asks for an active workspace.
table-IsKnown :
    (d : Directory) (q : Workspace → Bool) (l : List Workspace)
    → Every (λ w. workspace_by_id d w.id ≡ some w) l
    → ((w : Workspace) → q w ≡ true → is_open w.status ≡ true)
    → Every (IsKnown d) (select q l)
table-IsKnown d q [] h k = tt
table-IsKnown d q (w ∷ l) (p, h) k = elim (Bool-cases (q w)) [
  | inl j ↦ rw j ((p, k w j), table-IsKnown d q l h k)
  | inr j ↦ rw j (table-IsKnown d q l h k)
]

second_of : (a b : Bool) → (a && b) ≡ true → b ≡ true
second_of a b h = ground arith

pub reachable_workspaces-IsKnown :
    (d : Directory) (u : User) → HasOwnIds d → Every (IsKnown d) (reachable_workspaces d u)
unfolding reachable_workspaces
reachable_workspaces-IsKnown d u ids = go u.is_platform_admin
  where
    own : List Workspace
    own = add_missing [] (own_workspaces d u.id d.memberships)

    through_org : List Workspace
    through_org = add_missing own (select (λ w. administers d u w && is_open w.status) d.workspaces)

    own_known : Every (IsKnown d) own
    own_known =
        add_missing-Every (IsKnown d) [] (own_workspaces d u.id d.memberships) tt
          (own-IsKnown d u.id d.memberships)

    org_known : Every (IsKnown d) through_org
    org_known = add_missing-Every (IsKnown d) own _ own_known (
        table-IsKnown d (λ w. administers d u w && is_open w.status) d.workspaces ids
          (λ w k. second_of (administers d u w) (is_open w.status) k))

    go :
        (b : Bool)
        → Every (IsKnown d) (
            if b
            then add_missing through_org (select (λ w. is_open w.status) d.workspaces)
            else through_org)
    go true =
        add_missing-Every (IsKnown d) through_org _ org_known
          (table-IsKnown d (λ w. is_open w.status) d.workspaces ids (λ w k. k))
    go false = org_known
