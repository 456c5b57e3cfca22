-- ===== src/Access/Members/Owners.antt =====
-- backend/app/services/access.py, `_guard_last_owner`: a workspace that has an owner keeps one.
use appbi_integration.Base.{
  ℕ, ◌<◌, ◌≡◌, refl, sym, ◌∙◌, subst, Bool, true, false, not, ◌&&◌, ◌||◌, ◌⊎◌, inl, inr, Option,
  some, List, [], ◌∷◌, map, ◌==◌, ==→eq, arith, Bool-cases, &&_split, unsome,
}
use appbi_integration.Base.Lists.{find_first, select, count_if, any, any-append}
use appbi_integration.Permissions.{Role}
use appbi_integration.Permissions.Overrides.{Overrides}
use appbi_integration.Errors.{Result, ok, err}
use appbi_integration.Access.{Membership, Directory, Security}
use appbi_integration.Access.Members.{
  new_seat, is_seat, is_owner, is_owner_of, is_other, set_role, set_permissions,
}
use appbi_integration.Access.Members.Seats.{
  Change, added, reroled, permitted, removed, MemberRequest, apply, or_before, run, apply-Change,
}
use appbi_integration.Access.Members.Kept.{DistinctIds, AreSeats, Change-AreSeats}

-- Some seat of the workspace has the role of an owner.
abbrev pub HasOwner : ℕ → Directory → Type 0
HasOwner w d = any (is_owner_of w) d.memberships ≡ true

found_any :
    (w i : ℕ) (l : List Membership) (row : Membership)
    → find_first (is_seat w i) l ≡ some row
    → any (λ x. x.id == i) l ≡ true
found_any w i [] row h = cc
found_any w i (x ∷ l) row h = elim (Bool-cases (x.id == i)) [
  | inl k ↦ rw k refl
  | inr k ↦ rw k (found_any w i l row (rw k at h))
]

-- The row that a look-up gives has the id and is of the workspace.
found_row :
    (w i : ℕ) (l : List Membership) (row : Membership)
    → find_first (is_seat w i) l ≡ some row
    → is_seat w i row ≡ true
found_row w i [] row h = cc
found_row w i (x ∷ l) row h = elim (Bool-cases (is_seat w i x)) [
  | inl k ↦ subst (λ (r : Membership). is_seat w i r ≡ true) (unsome (rw k at h)) k
  | inr k ↦ found_row w i l row (rw k at h)
]

or_swap : (a b : Bool) → (a || b) ≡ (b || a)
or_swap a b = ground arith

or_assoc : (a b c : Bool) → (a || (b || c)) ≡ ((a || b) || c)
or_assoc a b c = ground arith

same_found :
    (a i : ℕ) (l : List Membership)
    → (a == i) ≡ true
    → any (λ x. x.id == a) l ≡ false
    → any (λ x. x.id == i) l ≡ false
same_found a i l h k = subst (λ (j : ℕ). any (λ x. x.id == j) l ≡ false) (==→eq a i h) k

module _ (p : Membership → Bool) where
  any-count :
      (q : Membership → Bool) (l : List Membership)
      → 0 < count_if (λ m. p m && q m) l
      → any p (select q l) ≡ true
  any-count q [] h = ground arith
  any-count q (x ∷ l) h = ground (arith, any-count q l)

  any-absent :
      (i : ℕ) (l : List Membership)
      → any (λ x. x.id == i) l ≡ false
      → any p (select (is_other i) l) ≡ any p l
  any-absent i [] h = refl
  any-absent i (x ∷ l) h = ground (arith, any-absent i l)

  -- A map that writes only the row of one id.
  module _ (f : Membership → Membership) (i : ℕ)
      (same : (m : Membership) → (m.id == i) ≡ false → f m ≡ m) where
    any-map_absent :
        (l : List Membership) → any (λ x. x.id == i) l ≡ false → any p (map f l) ≡ any p l
    any-map_absent [] h = refl
    any-map_absent (x ∷ l) h = elim (Bool-cases (x.id == i)) [
      | inl k ↦ cc (rw k at h)
      | inr k ↦ rw (same x k) (rw (any-map_absent l (rw k at h)) refl)
    ]

    -- What some row has: another one, or the one that is written.
    any-map_row :
        (w : ℕ) (l : List Membership) (row : Membership)
        → DistinctIds l
        → find_first (is_seat w i) l ≡ some row
        → any p (map f l) ≡ (any p (select (is_other i) l) || p (f row))
    any-map_row w [] row d h = cc
    any-map_row w (x ∷ l) row (apart, d) h = elim (Bool-cases (x.id == i)) [
      | inl k ↦ elim (Bool-cases (x.workspace_id == w)) [
        | inl j ↦
            let absent = same_found x.id i l k apart in
            rw k (
              rw (any-map_absent l absent) (
                rw (any-absent i l absent) (
                  subst (λ (r : Membership). (p (f x) || any p l) ≡ (any p l || p (f r)))
                    (unsome (rw j at (rw k at h))) (or_swap (p (f x)) (any p l)))))
        | inr j ↦ cc (same_found x.id i l k apart, found_any w i l row (rw j at (rw k at h)))
      ]
      | inr k ↦ rw k (rw (same x k) (rw (any-map_row w l row d (rw k at h)) (or_assoc (p x) _ _)))
    ]

set_role-other :
    (i : ℕ) (role : Role) (m : Membership) → (m.id == i) ≡ false → set_role i role m ≡ m
set_role-other i role m h = rw h refl

set_permissions-owner :
    (i : ℕ) (stored : Option Overrides) (w : ℕ) (m : Membership)
    → is_owner_of w (set_permissions i stored m) ≡ is_owner_of w m
set_permissions-owner i stored w m = elim (Bool-cases (m.id == i)) [
  | inl h ↦ rw h refl
  | inr h ↦ rw h refl
]

any-map_same :
    (p : Membership → Bool) (f : Membership → Membership) (l : List Membership)
    → ((m : Membership) → p (f m) ≡ p m)
    → any p (map f l) ≡ any p l
any-map_same p f [] k = refl
any-map_same p f (x ∷ l) k = rw (k x) (rw (any-map_same p f l k) refl)

map_self : (l : List Membership) → map (λ m. m) l ≡ l
map_self [] = refl
map_self (x ∷ l) = rw (map_self l) refl

-- What some row has: another one, or the one that was found.
any_row :
    (p : Membership → Bool) (w i : ℕ) (l : List Membership) (row : Membership)
    → DistinctIds l
    → find_first (is_seat w i) l ≡ some row
    → any p l ≡ (any p (select (is_other i) l) || p row)
any_row p w i l row d h =
    subst (λ (k : List Membership). any p k ≡ (any p (select (is_other i) l) || p row)) (map_self l)
      (any-map_row p (λ m. m) i (λ m k. refl) w l row d h)

-- A row that is no owner of the workspace is not the one it has.
owner_stays : (a b : Bool) → (a || b) ≡ true → b ≡ false → a ≡ true
owner_stays a b h k = ground arith

-- A guard of another workspace says nothing, but the row is no owner of this one.
other_workspace :
    (w v i : ℕ) (row : Membership)
    → is_seat v i row ≡ true
    → (w == v) ≡ false
    → is_owner_of w row ≡ false
other_workspace w v i row h k = ground arith

||_left : (a b : Bool) → a ≡ true → (a || b) ≡ true
||_left a b h = ground arith

||_right : (a b : Bool) → b ≡ true → (a || b) ≡ true
||_right a b h = ground arith

-- A row that was an owner and gets a role that keeps the guard away is one.
still_owner :
    (w i : ℕ) (role : Role) (row : Membership)
    → (row.id == i) ≡ true
    → is_owner_of w row ≡ true
    → (is_owner row.role && not (is_owner role)) ≡ false
    → is_owner_of w (set_role i role row) ≡ true
still_owner w i role row same o kept =
    let (here, owns) = &&_split (row.workspace_id == w) (is_owner row.role) o in
    rw same (rw here (keeps (is_owner row.role) (is_owner role) owns kept))
  where
    keeps : (a b : Bool) → a ≡ true → (a && not b) ≡ false → b ≡ true
    keeps a b h k = ground arith

owner_role : (w : ℕ) (row : Membership) → is_owner_of w row ≡ true → is_owner row.role ≡ true
owner_role w row h = (&&_split _ _ h).1

module _ (s : Directory) (v i : ℕ) (row : Membership) (seats : AreSeats s)
    (found : find_first (is_seat v i) s.memberships ≡ some row) where
  -- A removal that the guard let pass leaves every workspace an owner that had one.
  others_own :
      (w : ℕ)
      → (is_owner row.role ≡ false)
        ⊎ (0 < count_if (λ m. is_owner_of v m && is_other i m) s.memberships)
      → HasOwner w s
      → any (is_owner_of w) (select (is_other i) s.memberships) ≡ true
  others_own w guard h = elim (Bool-cases (is_owner_of w row)) [
    | inl o ↦ elim guard [
      | inl plain ↦ cc (plain, owner_role w row o)
      | inr more ↦ elim (Bool-cases (w == v)) [
        | inl e ↦ rw (==→eq w v e) (any-count (is_owner_of v) (is_other i) s.memberships more)
        | inr e ↦ cc (o, other_workspace w v i row (found_row v i s.memberships row found) e)
      ]
    ]
    | inr o ↦
        owner_stays _ _
          (sym (any_row (is_owner_of w) v i s.memberships row seats.distinct found) ∙ h) o
  ]

  reroled_owns :
      (w : ℕ) (role : Role)
      → ((is_owner row.role && not (is_owner role)) ≡ false)
        ⊎ (0 < count_if (λ m. is_owner_of v m && is_other i m) s.memberships)
      → HasOwner w s
      → any (is_owner_of w) (map (set_role i role) s.memberships) ≡ true
  reroled_owns w role guard h =
      any-map_row (is_owner_of w) (set_role i role) i (set_role-other i role) v s.memberships row
        seats.distinct found
      ∙ go guard (Bool-cases (is_owner_of w row))
    where
      go :
          ((is_owner row.role && not (is_owner role)) ≡ false)
            ⊎ (0 < count_if (λ m. is_owner_of v m && is_other i m) s.memberships)
          → (is_owner_of w row ≡ true) ⊎ (is_owner_of w row ≡ false)
          → (any (is_owner_of w) (select (is_other i) s.memberships)
              || is_owner_of w (set_role i role row))
            ≡ true
      go (inr more) _ = ||_left _ _ (others_own w (inr more) h)
      go (inl kept) (inr o) = ||_left _ _ (
          owner_stays _ _
            (sym (any_row (is_owner_of w) v i s.memberships row seats.distinct found) ∙ h) o)
      go (inl kept) (inl o) = ||_right _ _ (
          still_owner w i role row ((&&_split _ _ (found_row v i s.memberships row found)).0) o
            kept)

found_at :
    (v i : ℕ) (l : List Membership) (row : Membership)
    → find_first (is_seat v i) l ≡ some row
    → find_first (is_seat v row.id) l ≡ some row
found_at v i l row found =
    subst (λ (j : ℕ). find_first (is_seat v j) l ≡ some row)
      (sym (==→eq row.id i ((&&_split _ _ (found_row v i l row found)).0))) found

-- A change leaves every workspace an owner that had one.
Change-HasOwner : (w : ℕ) (s d : Directory) → Change s d → AreSeats s → HasOwner w s → HasOwner w d
Change-HasOwner w s d (added v u id role plain above free rows next) seats h =
    rw rows (any-append (is_owner_of w) s.memberships (new_seat id v u role ∷ []) ∙ rw h refl)
Change-HasOwner w s d (reroled v id row role plain found guard rows next) seats h =
    rw rows
      (reroled_owns s v row.id row seats (found_at v id s.memberships row found) w role guard h)
Change-HasOwner w s d (permitted id stored rows next) seats h = rw rows (
    any-map_same (is_owner_of w) (set_permissions id stored) s.memberships
      (set_permissions-owner id stored w)
    ∙ h)
Change-HasOwner w s d (removed v id row found guard rows next) seats h =
    rw rows (others_own s v row.id row seats (found_at v id s.memberships row found) w guard h)

-- A workspace that has an owner keeps one through any sequence of requests on the seats, of any callers
-- in any workspaces, if the requests come one after the other.
pub run-HasOwner :
    (sec : Security) (requests : List MemberRequest) (d : Directory) (w : ℕ)
    → AreSeats d
    → HasOwner w d
    → HasOwner w (run sec requests d)
unfolding run
run-HasOwner sec [] d w seats h = h
run-HasOwner sec (r ∷ rest) d w seats h =
    let (seats', h') = go (apply sec r d) refl in run-HasOwner sec rest _ w seats' h'
  where
    go :
        (o : Result Directory)
        → apply sec r d ≡ o
        → AreSeats (or_before d o) × HasOwner w (or_before d o)
    go (ok d') p =
        let change = apply-Change sec r d d' p in
        (Change-AreSeats d d' change seats, Change-HasOwner w d d' change seats h)
    go (err e) p = (seats, h)
