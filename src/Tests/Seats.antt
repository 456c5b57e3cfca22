-- ===== src/Tests/Seats.antt =====
-- backend/app/services/access.py on a workspace with two seats.
use appbi_integration.Base.{
  ℕ, ◌≡◌, refl, String, true, false, none, some, List, [], ◌∷◌, ◌&&◌, leb, arith, str_eq,
  if◌then◌else◌,
}
use appbi_integration.Permissions.{Role}
use appbi_integration.Graph.Text.{strip}
use appbi_integration.Errors.{ok, err, session_revoked}
use appbi_integration.Access.{
  User, Workspace, Membership, Directory, Security, Claims, WorkspaceStatus, user_by_id,
  user_by_email, write_user, workspace_by_id,
}
use appbi_integration.Access.Members.Seats.{MemberRequest, invites, removes, sets_role, run}
use appbi_integration.Access.Members.Kept.{AreSeats, run-AreSeats}
use appbi_integration.Access.Members.Owners.{HasOwner, run-HasOwner}
use appbi_integration.Access.Login.{
  is_locked, login, signed_in, issue_claims, signed_in_store, change_password, current_user,
  password_changed,
}
use appbi_integration.Access.Login.Lockout.{Attempt, AllWrong, after_logins, login_never_locks}
use appbi_integration.Access.Login.Revocation.{change_password_revokes}
use appbi_integration.Access.Reach.{wanted, request_context}
use appbi_integration.Access.Reach.Sound.{IsAdmitted, request_context-IsAdmitted}
use appbi_integration.Context.{RequestContext}
use appbi_integration.Tests.Data.{ctx}

abbrev security : Security
security = record {
  verify = λ p h. str_eq p h;
  hash = λ p. p;
  lower = λ t. if str_eq t "Battery staple 2" then "battery staple 2" else t;
  upper = λ t. if str_eq t "Battery staple 2" then "BATTERY STAPLE 2" else t;
  is_digit = λ c. leb 48 c && leb c 57;
  is_zone = λ z. true;
  login_max_attempts = 5;
  login_lockout = 900;
}

abbrev account : ℕ → String → User
account id email = record {
  id = id;
  email = email;
  full_name = email;
  password_hash = "correct horse 1";
  password_change_required = false;
  is_active = true;
  is_platform_admin = false;
  failed_login_count = 0;
  locked_until = none;
  session_version = 4;
  last_login_at = none;
}

abbrev seat : ℕ → ℕ → Role → Membership
seat id user role = record {
  id = id;
  workspace_id = 7;
  user_id = user;
  role = role;
  permissions = none;
}

abbrev office : Workspace
office = record {
  id = 7;
  organization_id = 3;
  name = "Office";
  timezone = "UTC";
  status = WorkspaceStatus.active;
  max_concurrent_executions = none;
}

abbrev directory : Directory
directory = record {
  users = account 1 "ann" ∷ account 2 "bo" ∷ [];
  workspaces = office ∷ [];
  memberships = seat 10 1 Role.owner ∷ seat 11 2 Role.operator ∷ [];
  organization_memberships = [];
  next_id = 20;
}

directory-AreSeats : AreSeats directory
directory-AreSeats = record {
  distinct = (refl, (refl, tt));
  given = refl;
  plain = refl;
  single = λ workspace user. ground arith;
}

abbrev entered : RequestContext
entered = record {
  user_id = some 2;
  workspace_id = 7;
  role = Role.operator;
  is_platform_admin = false;
  permission_overrides = [];
}

abbrev session : Claims
session = record { sub = 2; ws = none; sv = 4 }

request_context-IsAdmitted_example : IsAdmitted directory (account 2 "bo") (wanted 7) entered
unfolding request_context workspace_by_id
request_context-IsAdmitted_example =
    request_context-IsAdmitted directory (account 2 "bo") session (wanted 7) entered (refl, tt) refl

-- The last owner is to go, the other one is to become an owner, and then the first is to go again.
abbrev requests : List MemberRequest
requests =
    removes ctx 10
    ∷ sets_role ctx 11 "OWNER"
    ∷ removes ctx 10
    ∷ invites ctx "cy" "Cy" "ANALYST" "correct horse 2"
    ∷ []

run-AreSeats_example : AreSeats (run security requests directory)
run-AreSeats_example = run-AreSeats security requests directory directory-AreSeats

run-HasOwner_example : HasOwner 7 (run security requests directory)
run-HasOwner_example = run-HasOwner security requests directory 7 directory-AreSeats refl

abbrev wrong : Attempt
wrong = record { email = " ann "; password = "guess"; at = 50 }

abbrev guesses : List Attempt
guesses = wrong ∷ wrong ∷ wrong ∷ wrong ∷ wrong ∷ wrong ∷ []

guesses_wrong : AllWrong security directory (account 1 "ann") guesses
unfolding user_by_email strip
guesses_wrong =
    (refl, refl, (refl, refl, (refl, refl, (refl, refl, (refl, refl, (refl, refl, tt))))))

ann_found : user_by_email security directory (security.lower (strip "ann")) ≡ some (account 1 "ann")
unfolding user_by_email strip
ann_found = refl

ann_free : is_locked (account 1 "ann") 60 ≡ false
unfolding is_locked
ann_free = refl

login_never_locks_example :
    (login security "ann" "correct horse 1" 60 (after_logins security guesses directory)).0
    ≡ ok (
      signed_in 60 (account 1 "ann"),
      issue_claims
          (signed_in_store 60 (account 1 "ann") directory)
          (signed_in 60 (account 1 "ann")),
    )
login_never_locks_example =
    login_never_locks security directory (account 1 "ann") guesses "ann" "correct horse 1" 60
      guesses_wrong ann_found ann_free refl refl

-- Ann changes her password.
abbrev changed : Directory
changed = write_user (password_changed security "Battery staple 2" (account 1 "ann")) directory

abbrev new_claims : Claims
new_claims = record { sub = 1; ws = some 7; sv = 5 }

ann_row : user_by_id directory 1 ≡ some (account 1 "ann")
unfolding user_by_id
ann_row = refl

password_accepted :
    change_password security (account 1 "ann") "correct horse 1" "Battery staple 2" directory
    ≡ ok (new_claims, changed)
unfolding change_password issue_claims write_user password_changed
password_accepted = refl

change_password_revokes_example :
    (current_user changed (record { sub = 1; ws = some 7; sv = 4 }) ≡ err session_revoked)
    × (current_user changed new_claims
        ≡ ok (password_changed security "Battery staple 2" (account 1 "ann")))
change_password_revokes_example =
    change_password_revokes security directory changed (account 1 "ann") "correct horse 1"
      "Battery staple 2" new_claims 4 (some 7) ann_row refl password_accepted (omega arith)
