-- ===== src/Access/Members/Seats.antt =====
-- backend/app/services/access.py: what a request on the seats changes, and what holds of the seats.
use appbi_integration.Base.{
  ℕ, suc, ◌≤◌, ◌<◌, String, ◌≡◌, refl, sym, ap, Bool, true, false, not, ◌&&◌, ◌⊎◌, inl, inr, Option,
  none, some, List, [], ◌∷◌, ◌++◌, map, arith, if◌then◌else◌,
}
use appbi_integration.Base.Lists.{find_first, select, count_if}
use appbi_integration.Permissions.{Role, Module, Action}
use appbi_integration.Permissions.Overrides.{Overrides}
use appbi_integration.Context.{RequestContext, require_context}
use appbi_integration.Errors.{Result, ok, err, demand, bind-ok, ok-injective, password_too_weak}
use appbi_integration.Access.{User, Membership, Directory, Security}
use appbi_integration.Access.Members.{
  is_platform_role, assignable_role, assignable, with_user, is_seat_of, new_seat, add_seat,
  unless_seated, invite_member, is_seat, get_seat, found_seat, is_owner, is_owner_of, is_other,
  guard_last_owner, unless_safe, set_role, update_role, set_permissions, update_permissions,
  parsed_or_none, remove_member,
}

-- What one request did to the table of seats.
pub data Change (s d : Directory) : Type 0 where
  added :
      (workspace user id : ℕ) (role : Role)
      → is_platform_role role ≡ false
      → s.next_id ≤ id
      → find_first (is_seat_of workspace user) s.memberships ≡ none
      → d.memberships ≡ s.memberships ++ new_seat id workspace user role ∷ []
      → d.next_id ≡ suc id
      → Change s d
  reroled :
      (workspace id : ℕ) (row : Membership) (role : Role)
      → is_platform_role role ≡ false
      → find_first (is_seat workspace id) s.memberships ≡ some row
      → ((is_owner row.role && not (is_owner role)) ≡ false)
        ⊎ (0 < count_if (λ m. is_owner_of workspace m && is_other row.id m) s.memberships)
      → d.memberships ≡ map (set_role row.id role) s.memberships
      → d.next_id ≡ s.next_id
      → Change s d
  permitted :
      (id : ℕ) (stored : Option Overrides)
      → d.memberships ≡ map (set_permissions id stored) s.memberships
      → d.next_id ≡ s.next_id
      → Change s d
  removed :
      (workspace id : ℕ) (row : Membership)
      → find_first (is_seat workspace id) s.memberships ≡ some row
      → (is_owner row.role ≡ false)
        ⊎ (0 < count_if (λ m. is_owner_of workspace m && is_other row.id m) s.memberships)
      → d.memberships ≡ select (is_other row.id) s.memberships
      → d.next_id ≡ s.next_id
      → Change s d

-- A request on the seats.
pub data MemberRequest : Type 0 where
  invites : RequestContext → String → String → String → String → MemberRequest
  sets_role : RequestContext → ℕ → String → MemberRequest
  sets_permissions : RequestContext → ℕ → Overrides → MemberRequest
  removes : RequestContext → ℕ → MemberRequest

-- The request, with no other between its look-ups and its write.
unfoldable pub apply : Security → MemberRequest → Directory → Result Directory
unfolding invite_member update_role update_permissions remove_member
apply sec (invites ctx email full_name role password) d =
    invite_member sec ctx email full_name role password d
apply sec (sets_role ctx id role) d = update_role sec ctx id role d
apply sec (sets_permissions ctx id overrides) d = update_permissions ctx id overrides d
apply sec (removes ctx id) d = remove_member ctx id d

-- A request that raises is rolled back.
abbrev pub or_before : Directory → Result Directory → Directory
or_before d (ok d') = d'
or_before d (err e) = d

unfoldable pub run : Security → List MemberRequest → Directory → Directory
unfolding apply
run sec [] d = d
run sec (r ∷ rest) d = run sec rest (or_before d (apply sec r d))

assignable-plain :
    (sec : Security) (name : String) (role : Role)
    → assignable sec name ≡ ok role
    → is_platform_role role ≡ false
unfolding assignable
assignable-plain sec name role h = go _ h
  where
    go : (o : Option Role) → assignable_role o ≡ ok role → is_platform_role role ≡ false
    go none p = cc
    go (some r) p = ground arith

get_seat-find :
    (ctx : RequestContext) (id : ℕ) (d : Directory) (row : Membership)
    → get_seat ctx id d ≡ ok row
    → find_first (is_seat ctx.workspace_id id) d.memberships ≡ some row
unfolding get_seat
get_seat-find ctx id d row h = go _ h
  where
    go : (o : Option Membership) → found_seat o ≡ ok row → o ≡ some row
    go none p = cc
    go (some m) p = cc

guard_passed :
    (ctx : RequestContext) (id : ℕ) (d : Directory) (b : Bool)
    → unless_safe b (guard_last_owner ctx id d) ≡ ok tt
    → (b ≡ false)
      ⊎ (0 < count_if (λ m. is_owner_of ctx.workspace_id m && is_other id m) d.memberships)
unfolding guard_last_owner
guard_passed ctx id d true h = inr (ground arith)
guard_passed ctx id d false h = inl refl

seat_free :
    (o : Option Membership) (d' d : Directory) → unless_seated o d' ≡ ok d → (o ≡ none) × (d' ≡ d)
seat_free none d' d h = (refl, ok-injective h)
seat_free (some m) d' d h = cc

module _ (s d : Directory) (workspace : ℕ) (role : Role) (plain : is_platform_role role ≡ false)
    (new : User) where
  invited :
      (o : Option User) (b : Bool)
      → (let (u, d0) = with_user s o new in
          if b
          then unless_seated
              (find_first (is_seat_of workspace u.id) d0.memberships)
              (add_seat workspace u.id role d0)
          else err password_too_weak)
        ≡ ok d
      → Change s d
  invited o false h = cc
  invited none true h =
      let (free, same) = seat_free _ _ d h in
      added workspace new.id (suc s.next_id) role plain (omega arith) free
        (ap (λ (x : Directory). x.memberships) (sym same))
        (ap (λ (x : Directory). x.next_id) (sym same))
  invited (some u) true h =
      let (free, same) = seat_free _ _ d h in
      added workspace u.id s.next_id role plain (omega arith) free
        (ap (λ (x : Directory). x.memberships) (sym same))
        (ap (λ (x : Directory). x.next_id) (sym same))

invite-Change :
    (sec : Security) (ctx : RequestContext) (email full_name role password : String)
    (s d : Directory)
    → invite_member sec ctx email full_name role password s ≡ ok d
    → Change s d
unfolding invite_member
invite-Change sec ctx email full_name role password s d h =
    let (a, permitted_, h1) =
      bind-ok (demand (require_context ctx Module.members Action.create)) _ h in
    let (granted_role, plain, h2) = bind-ok (assignable sec role) _ h1 in
    invited s d ctx.workspace_id granted_role (assignable-plain sec role granted_role plain) _ _ _
      h2

update_role-Change :
    (sec : Security) (ctx : RequestContext) (id : ℕ) (role : String) (s d : Directory)
    → update_role sec ctx id role s ≡ ok d
    → Change s d
unfolding update_role
update_role-Change sec ctx id role s d h =
    let (a, permitted_, h1) =
      bind-ok (demand (require_context ctx Module.members Action.edit)) _ h in
    let (new_role, plain, h2) = bind-ok (assignable sec role) _ h1 in
    let (row, found, h3) = bind-ok (get_seat ctx id s) _ h2 in
    let (b, guarded, h4) =
      bind-ok
        (unless_safe (is_owner row.role && not (is_owner new_role)) (guard_last_owner ctx row.id s))
        _ h3 in
    let same = ok-injective h4 in
    reroled ctx.workspace_id id row new_role (assignable-plain sec role new_role plain)
      (get_seat-find ctx id s row found) (guard_passed ctx row.id s _ guarded)
      (ap (λ (x : Directory). x.memberships) (sym same))
      (ap (λ (x : Directory). x.next_id) (sym same))

update_permissions-Change :
    (ctx : RequestContext) (id : ℕ) (overrides : Overrides) (s d : Directory)
    → update_permissions ctx id overrides s ≡ ok d
    → Change s d
unfolding update_permissions
update_permissions-Change ctx id overrides s d h =
    let (a, permitted_, h1) =
      bind-ok (demand (require_context ctx Module.members Action.admin)) _ h in
    let (row, found, h2) = bind-ok (get_seat ctx id s) _ h1 in
    let (stored, read, h3) = bind-ok (parsed_or_none overrides) _ h2 in
    let same = ok-injective h3 in
    permitted row.id stored (ap (λ (x : Directory). x.memberships) (sym same))
      (ap (λ (x : Directory). x.next_id) (sym same))

remove_member-Change :
    (ctx : RequestContext) (id : ℕ) (s d : Directory) → remove_member ctx id s ≡ ok d → Change s d
unfolding remove_member
remove_member-Change ctx id s d h =
    let (a, permitted_, h1) =
      bind-ok (demand (require_context ctx Module.members Action.delete)) _ h in
    let (row, found, h2) = bind-ok (get_seat ctx id s) _ h1 in
    let (b, guarded, h3) =
      bind-ok (unless_safe (is_owner row.role) (guard_last_owner ctx row.id s)) _ h2 in
    let same = ok-injective h3 in
    removed ctx.workspace_id id row (get_seat-find ctx id s row found)
      (guard_passed ctx row.id s _ guarded) (ap (λ (x : Directory). x.memberships) (sym same))
      (ap (λ (x : Directory). x.next_id) (sym same))

-- A request that succeeds makes one change.
pub apply-Change :
    (sec : Security) (r : MemberRequest) (s d : Directory) → apply sec r s ≡ ok d → Change s d
unfolding apply
apply-Change sec (invites ctx email full_name role password) s d h =
    invite-Change sec ctx email full_name role password s d h
apply-Change sec (sets_role ctx id role) s d h = update_role-Change sec ctx id role s d h
apply-Change sec (sets_permissions ctx id overrides) s d h =
    update_permissions-Change ctx id overrides s d h
apply-Change sec (removes ctx id) s d h = remove_member-Change ctx id s d h
