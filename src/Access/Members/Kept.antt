-- ===== src/Access/Members/Kept.antt =====
-- backend/app/services/access.py: what every request on the seats keeps.
use appbi_integration.Base.{
  ℕ, suc, ◌≤◌, ◌≡◌, refl, ◌∙◌, subst, Bool, true, false, not, ◌&&◌, ◌||◌, inl, inr, Option, none,
  List, [], ◌∷◌, ◌++◌, map, ltb, ◌==◌, arith, Bool-cases,
}
use appbi_integration.Base.Lists.{
  find_first, select, count_if, count_if-append, any, all, any-append,
}
use appbi_integration.Permissions.{Role}
use appbi_integration.Permissions.Overrides.{Overrides}
use appbi_integration.Errors.{Result, ok, err}
use appbi_integration.Access.{Membership, Directory, Security}
use appbi_integration.Access.Members.{
  is_platform_role, is_seat_of, new_seat, is_other, set_role, set_permissions,
}
use appbi_integration.Access.Members.Seats.{
  Change, added, reroled, permitted, removed, MemberRequest, apply, or_before, run, apply-Change,
}

-- No seat of the list has the id of another.
abbrev pub DistinctIds : List Membership → Type 0
DistinctIds [] = Unit {0}
DistinctIds (m ∷ rest) = (any (λ x. x.id == m.id) rest ≡ false) × DistinctIds rest

-- What holds of the seats: their ids are distinct and were given out, none has the role of a platform
-- administrator, and an account has at most one in a workspace.
pub record AreSeats (d : Directory) : Type 0 where
  pub distinct : DistinctIds d.memberships
  pub given : all (λ m. ltb m.id d.next_id) d.memberships ≡ true
  pub plain : all (λ m. not (is_platform_role m.role)) d.memberships ≡ true
  pub single : (workspace user : ℕ) → count_if (is_seat_of workspace user) d.memberships ≤ 1

module _ (f : Membership → Membership) (keeps_id : (m : Membership) → (f m).id ≡ m.id) where
  any-id-map :
      (i : ℕ) (l : List Membership) → any (λ x. x.id == i) (map f l) ≡ any (λ x. x.id == i) l
  any-id-map i [] = refl
  any-id-map i (x ∷ l) = rw (keeps_id x) (rw (any-id-map i l) refl)

  map-DistinctIds : (l : List Membership) → DistinctIds l → DistinctIds (map f l)
  map-DistinctIds [] h = tt
  map-DistinctIds (x ∷ l) (h, rest) =
      (rw (keeps_id x) (any-id-map x.id l ∙ h), map-DistinctIds l rest)

  map-all :
      (p q : Membership → Bool)
      → ((m : Membership) → q m ≡ true → p (f m) ≡ true)
      → (l : List Membership) → all q l ≡ true
      → all p (map f l) ≡ true
  map-all p q k [] h = refl
  map-all p q k (x ∷ l) h = ground (arith, k x, map-all p q k l)

  map-count :
      (p : Membership → Bool)
      → ((m : Membership) → p (f m) ≡ p m)
      → (l : List Membership) → count_if p (map f l) ≡ count_if p l
  map-count p k [] = refl
  map-count p k (x ∷ l) = rw (k x) (rw (map-count p k l) refl)

module _ (q : Membership → Bool) where
  select-any-false :
      (p : Membership → Bool) (l : List Membership) → any p l ≡ false → any p (select q l) ≡ false
  select-any-false p [] h = refl
  select-any-false p (x ∷ l) h = ground (arith, select-any-false p l)

  select-DistinctIds : (l : List Membership) → DistinctIds l → DistinctIds (select q l)
  select-DistinctIds [] h = tt
  select-DistinctIds (x ∷ l) (h, rest) = elim (Bool-cases (q x)) [
    | inl k ↦ rw k (select-any-false (λ y. y.id == x.id) l h, select-DistinctIds l rest)
    | inr k ↦ rw k (select-DistinctIds l rest)
  ]

  select-all :
      (p : Membership → Bool) (l : List Membership) → all p l ≡ true → all p (select q l) ≡ true
  select-all p [] h = refl
  select-all p (x ∷ l) h = ground (arith, select-all p l)

  select-count :
      (p : Membership → Bool) (l : List Membership) → count_if p (select q l) ≤ count_if p l
  select-count p [] = omega arith
  select-count p (x ∷ l) = ground (arith, select-count p l)

set_role-id : (id : ℕ) (role : Role) (m : Membership) → (set_role id role m).id ≡ m.id
set_role-id id role m = elim (Bool-cases (m.id == id)) [ inl h ↦ rw h refl | inr h ↦ rw h refl ]

set_permissions-id :
    (id : ℕ) (stored : Option Overrides) (m : Membership) → (set_permissions id stored m).id ≡ m.id
set_permissions-id id stored m = elim (Bool-cases (m.id == id)) [
  | inl h ↦ rw h refl
  | inr h ↦ rw h refl
]

set_role-seat :
    (id : ℕ) (role : Role) (w u : ℕ) (m : Membership)
    → is_seat_of w u (set_role id role m) ≡ is_seat_of w u m
set_role-seat id role w u m = elim (Bool-cases (m.id == id)) [
  | inl h ↦ rw h refl
  | inr h ↦ rw h refl
]

set_permissions-seat :
    (id : ℕ) (stored : Option Overrides) (w u : ℕ) (m : Membership)
    → is_seat_of w u (set_permissions id stored m) ≡ is_seat_of w u m
set_permissions-seat id stored w u m = elim (Bool-cases (m.id == id)) [
  | inl h ↦ rw h refl
  | inr h ↦ rw h refl
]

set_role-plain :
    (id : ℕ) (role : Role) (m : Membership)
    → is_platform_role role ≡ false
    → not (is_platform_role m.role) ≡ true
    → not (is_platform_role (set_role id role m).role) ≡ true
set_role-plain id role m h k = elim (Bool-cases (m.id == id)) [
  | inl q ↦ rw q (rw h refl)
  | inr q ↦ rw q k
]

set_permissions-plain :
    (id : ℕ) (stored : Option Overrides) (m : Membership)
    → not (is_platform_role m.role) ≡ true
    → not (is_platform_role (set_permissions id stored m).role) ≡ true
set_permissions-plain id stored m k = elim (Bool-cases (m.id == id)) [
  | inl q ↦ rw q k
  | inr q ↦ rw q k
]

all-append :
    (p : Membership → Bool) (xs ys : List Membership)
    → all p xs ≡ true
    → all p ys ≡ true
    → all p (xs ++ ys) ≡ true
all-append p [] ys h k = k
all-append p (x ∷ xs) ys h k = ground (arith, all-append p xs ys)

all-later :
    (n k : ℕ) (l : List Membership)
    → n ≤ k
    → all (λ m. ltb m.id n) l ≡ true
    → all (λ m. ltb m.id (suc k)) l ≡ true
all-later n k [] h p = refl
all-later n k (x ∷ l) h p = ground (arith, all-later n k l h)

none_above :
    (n k : ℕ) (l : List Membership)
    → n ≤ k
    → all (λ m. ltb m.id n) l ≡ true
    → any (λ x. x.id == k) l ≡ false
none_above n k [] h p = refl
none_above n k (x ∷ l) h p = ground (arith, none_above n k l h)

append-DistinctIds :
    (l : List Membership) (m : Membership)
    → any (λ x. x.id == m.id) l ≡ false
    → DistinctIds l
    → DistinctIds (l ++ m ∷ [])
append-DistinctIds [] m h d = (refl, tt)
append-DistinctIds (x ∷ l) m h (d, rest) = (
  any-append (λ y. y.id == x.id) l (m ∷ []) ∙ apart (x.id) (m.id) _ _ h d,
  append-DistinctIds l m (tail_any (x.id == m.id) _ h) rest,
)
  where
    apart :
        (a b : ℕ) (p q : Bool)
        → ((a == b) || q) ≡ false
        → p ≡ false
        → (p || ((b == a) || false)) ≡ false
    apart a b p q h k = ground arith

    tail_any : (p q : Bool) → (p || q) ≡ false → q ≡ false
    tail_any p q h = ground arith

find_first-none_count :
    (p : Membership → Bool) (l : List Membership) → find_first p l ≡ none → count_if p l ≡ 0
find_first-none_count p [] h = refl
find_first-none_count p (x ∷ l) h = ground (arith, find_first-none_count p l)

-- An added seat is the only one of its account and workspace.
single_added :
    (w u id workspace user : ℕ) (role : Role) (l : List Membership)
    → count_if (is_seat_of workspace user) l ≤ 1
    → find_first (is_seat_of w u) l ≡ none
    → count_if (is_seat_of workspace user) (l ++ new_seat id w u role ∷ []) ≤ 1
single_added w u id workspace user role l h free =
    rw (count_if-append (is_seat_of workspace user) l (new_seat id w u role ∷ []))
      (elim (Bool-cases (w == workspace && u == user)) [
        | inl q ↦ rw q (
            let (p, r) = same w u workspace user q in
            let nothing =
              subst (λ (x : ℕ). count_if (is_seat_of x user) l ≡ 0) p
                (subst (λ (y : ℕ). count_if (is_seat_of w y) l ≡ 0) r
                  (find_first-none_count (is_seat_of w u) l free)) in
            omega (arith, nothing))
        | inr q ↦ rw q (omega (arith, h))
      ])
  where
    same : (a b c d : ℕ) → (a == c && b == d) ≡ true → (a ≡ c) × (b ≡ d)
    same a b c d h = ground arith

-- A change keeps what holds of the seats.
pub Change-AreSeats : (s d : Directory) → Change s d → AreSeats s → AreSeats d
Change-AreSeats s d (added w u id role plain above free rows next) h = record {
  distinct = rw rows (
      append-DistinctIds s.memberships (new_seat id w u role)
        (none_above s.next_id id s.memberships above h.given) h.distinct);
  given = rw rows (
      rw next (
        all-append (λ m. ltb m.id (suc id)) s.memberships _
          (all-later s.next_id id s.memberships above h.given) (ground arith)));
  plain =
      rw rows
        (all-append (λ m. not (is_platform_role m.role)) s.memberships _ h.plain (rw plain refl));
  single = λ workspace user.
      rw rows
        (single_added w u id workspace user role s.memberships (h.single workspace user) free);
}
Change-AreSeats s d (reroled w id row role plain found guard rows next) h = record {
  distinct =
      rw rows
        (map-DistinctIds (set_role row.id role) (set_role-id row.id role) s.memberships h.distinct);
  given = rw rows (
      rw next (
        map-all (set_role row.id role) (set_role-id row.id role) (λ m. ltb m.id s.next_id)
          (λ m. ltb m.id s.next_id) (λ m k. rw (set_role-id row.id role m) k) s.memberships
          h.given));
  plain = rw rows (
      map-all (set_role row.id role) (set_role-id row.id role) (λ m. not (is_platform_role m.role))
        (λ m. not (is_platform_role m.role)) (λ m k. set_role-plain row.id role m plain k)
        s.memberships h.plain);
  single = λ workspace user. rw rows (
      rw
        (map-count (set_role row.id role) (set_role-id row.id role) (is_seat_of workspace user)
          (set_role-seat row.id role workspace user) s.memberships)
        (h.single workspace user));
}
Change-AreSeats s d (permitted id stored rows next) h = record {
  distinct = rw rows (
      map-DistinctIds (set_permissions id stored) (set_permissions-id id stored) s.memberships
        h.distinct);
  given = rw rows (
      rw next (
        map-all (set_permissions id stored) (set_permissions-id id stored) (λ m. ltb m.id s.next_id)
          (λ m. ltb m.id s.next_id) (λ m k. rw (set_permissions-id id stored m) k) s.memberships
          h.given));
  plain = rw rows (
      map-all (set_permissions id stored) (set_permissions-id id stored)
        (λ m. not (is_platform_role m.role)) (λ m. not (is_platform_role m.role))
        (λ m k. set_permissions-plain id stored m k) s.memberships h.plain);
  single = λ workspace user. rw rows (
      rw
        (map-count (set_permissions id stored) (set_permissions-id id stored)
          (is_seat_of workspace user) (set_permissions-seat id stored workspace user) s.memberships)
        (h.single workspace user));
}
Change-AreSeats s d (removed w id row found guard rows next) h = record {
  distinct = rw rows (select-DistinctIds (is_other row.id) s.memberships h.distinct);
  given =
      rw rows
        (rw next (select-all (is_other row.id) (λ m. ltb m.id s.next_id) s.memberships h.given));
  plain =
      rw rows
        (select-all (is_other row.id) (λ m. not (is_platform_role m.role)) s.memberships h.plain);
  single = λ workspace user. rw rows (
      omega (
        arith,
        select-count (is_other row.id) (is_seat_of workspace user) s.memberships,
        h.single workspace user,
      ));
}

-- Through any sequence of requests, of any callers, the ids of the seats stay distinct, no seat has the
-- role of a platform administrator, and an account has at most one seat in a workspace.
pub run-AreSeats :
    (sec : Security) (requests : List MemberRequest) (d : Directory)
    → AreSeats d
    → AreSeats (run sec requests d)
unfolding run
run-AreSeats sec [] d h = h
run-AreSeats sec (r ∷ rest) d h = run-AreSeats sec rest _ (go (apply sec r d) refl)
  where
    go : (o : Result Directory) → apply sec r d ≡ o → AreSeats (or_before d o)
    go (ok d') p = Change-AreSeats d d' (apply-Change sec r d d' p) h
    go (err e) p = h
