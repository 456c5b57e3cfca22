-- ===== src/Access/Login.antt =====
-- backend/app/services/access.py: `authenticate` and `change_password`; the login route of
-- backend/app/api/v1/auth.py and `get_session` of backend/app/core/db.py, which commit and roll back;
-- `current_user` of backend/app/api/deps.py. The limit on logins of one address comes before all this.
pub mod Lockout
pub mod Revocation
use appbi_integration.Base.{
  ℕ, suc, ◌+◌, String, Bool, true, false, not, Option, none, some, List, [], ◌∷◌, ltb, leb, ◌==◌,
  if◌then◌else◌,
}
use appbi_integration.Graph.Text.{strip}
use appbi_integration.Errors.{
  Result, ok, err, invalid_credentials, account_locked, account_disabled, password_too_weak,
  session_revoked,
}
use appbi_integration.Access.{
  User, Directory, Security, Claims, write_user, user_by_id, user_by_email,
}
use appbi_integration.Access.Password.{password_problems, is_acceptable}
use appbi_integration.Access.Reach.{WorkspaceAccess, reachable}

-- What a call of a service leaves: its answer or its exception, and what its session has written by
-- then.
abbrev pub Written : Type 0 → Type 0
Written A = Result A × Directory

abbrev pub is_after : Option ℕ → ℕ → Bool
is_after none now = false
is_after (some t) now = ltb now t

-- `user.locked_until and user.locked_until > utcnow()`
unfoldable pub is_locked : User → ℕ → Bool
is_locked u now = is_after u.locked_until now

-- What a wrong password makes of the row.
unfoldable pub failed_attempt : Security → ℕ → User → User
failed_attempt sec now u =
    let count = suc u.failed_login_count in
    if leb sec.login_max_attempts count
    then record u { failed_login_count = 0; locked_until = some (now + sec.login_lockout) }
    else record u { failed_login_count = count }

-- What a login makes of the row.
unfoldable pub signed_in : ℕ → User → User
signed_in now u = record u { failed_login_count = 0; locked_until = none; last_login_at = some now }

abbrev pub first_workspace : List WorkspaceAccess → Option ℕ
first_workspace [] = none
first_workspace (a ∷ rest) = some a.workspace.id

-- `issue_session_token(user.id, memberships[0].workspace_id, user.session_version)`
unfoldable pub issue_claims : Directory → User → Claims
unfolding reachable
issue_claims d u = record {
  sub = u.id;
  ws = first_workspace (reachable d u);
  sv = u.session_version;
}

abbrev pub signed_in_store : ℕ → User → Directory → Directory
signed_in_store now u d = write_user (signed_in now u) d

-- `authenticate` of an account that was found.
unfoldable pub sign_in : Security → User → String → ℕ → Directory → Written (User × Claims)
unfolding is_locked failed_attempt signed_in issue_claims write_user
sign_in sec u password now d =
    if is_locked u now
    then (err account_locked, d)
    else if not u.is_active
    then (err account_disabled, d)
    else if not (sec.verify password u.password_hash)
    then (err invalid_credentials, write_user (failed_attempt sec now u) d)
    else (
      ok (signed_in now u, issue_claims (signed_in_store now u d) (signed_in now u)),
      signed_in_store now u d,
    )

abbrev pub sign_in_found : Security → Option User → String → ℕ → Directory → Written (User × Claims)
sign_in_found sec none password now d = (err invalid_credentials, d)
sign_in_found sec (some u) password now d = sign_in sec u password now d

-- `authenticate(session, email=…, password=…)`
unfoldable pub authenticate : Security → String → String → ℕ → Directory → Written (User × Claims)
unfolding sign_in user_by_email strip
authenticate sec email password now d =
    sign_in_found sec (user_by_email sec d (sec.lower (strip email))) password now d

-- The route commits what a call that returns has written; a raise rolls the session back.
abbrev pub commit_or_roll_back {ℓ} :
    {A : Type ℓ} → Directory → Result A × Directory → Result A × Directory
commit_or_roll_back before (ok a, written) = (ok a, written)
commit_or_roll_back before (err e, written) = (err e, before)

-- `POST /auth/login`
unfoldable pub login : Security → String → String → ℕ → Directory → Written (User × Claims)
unfolding authenticate
login sec email password now d = commit_or_roll_back d (authenticate sec email password now d)

-- The row after `change_password`.
unfoldable pub password_changed : Security → String → User → User
password_changed sec new u = record u {
  password_hash = sec.hash new;
  password_change_required = false;
  session_version = suc u.session_version;
}

-- `change_password(session, user, current=…, new=…)`
unfoldable pub change_password :
    Security → User → String → String → Directory → Result (Claims × Directory)
unfolding password_problems password_changed issue_claims write_user
change_password sec u current new d =
    let changed = password_changed sec new u in
    if not (sec.verify current u.password_hash)
    then err invalid_credentials
    else if not (is_acceptable (password_problems sec new))
    then err password_too_weak
    else ok (issue_claims (write_user changed d) changed, write_user changed d)

abbrev pub admit : Claims → Option User → Result User
admit claims none = err account_disabled
admit claims (some u) =
    if not u.is_active
    then err account_disabled
    else if claims.sv == u.session_version
    then ok u
    else err session_revoked

-- `current_user`, of a token whose signature holds
unfoldable pub current_user : Directory → Claims → Result User
unfolding user_by_id
current_user d claims = admit claims (user_by_id d claims.sub)
