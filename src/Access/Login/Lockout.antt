-- ===== src/Access/Login/Lockout.antt =====
-- backend/app/services/access.py and backend/app/api/v1/auth.py: the lock of an account after wrong
-- passwords, within one session and over requests.
use appbi_integration.Base.{
  ℕ, suc, zero, ◌+◌, String, ◌≡◌, refl, Bool, true, false, not, some, List, [], ◌∷◌, arith,
  if◌then◌else◌, ◌≤◌, ◌<◌,
}
use appbi_integration.Graph.Text.{strip}
use appbi_integration.Errors.{ok, err, invalid_credentials, account_locked, account_disabled}
use appbi_integration.Access.{User, Directory, Security, Claims, write_user, user_by_email}
use appbi_integration.Access.Login.{
  is_locked, failed_attempt, signed_in, sign_in, issue_claims, signed_in_store, authenticate,
  commit_or_roll_back, login,
}

-- One attempt to sign in.
pub record Attempt : Type 0 where
  pub email : String
  pub password : String
  pub at : ℕ

-- The store after a sequence of requests to sign in.
unfoldable pub after_logins : Security → List Attempt → Directory → Directory
after_logins sec [] d = d
after_logins sec (a ∷ rest) d = after_logins sec rest (login sec a.email a.password a.at d).1

-- Each attempt names the account and has a password that it does not verify.
abbrev pub AllWrong : Security → Directory → User → List Attempt → Type 0
AllWrong sec d u [] = Unit {0}
AllWrong sec d u (a ∷ rest) =
    (user_by_email sec d (sec.lower (strip a.email)) ≡ some u)
    × (sec.verify a.password u.password_hash ≡ false)
    × AllWrong sec d u rest

refused_by :
    (sec : Security) (u : User) (password : String) (now : ℕ) (d : Directory)
    → sec.verify password u.password_hash ≡ false
    → (commit_or_roll_back d (sign_in sec u password now d)).1 ≡ d
unfolding sign_in
refused_by sec u password now d wrong = go (is_locked u now) (not u.is_active) wrong
  where
    go :
        (b c : Bool) {v : Bool}
        → v ≡ false
        → (commit_or_roll_back {A = User × Claims} d (
            if b
            then (err account_locked, d)
            else if c
            then (err account_disabled, d)
            else if not v
            then (err invalid_credentials, write_user (failed_attempt sec now u) d)
            else (
              ok (signed_in now u, issue_claims (signed_in_store now u d) (signed_in now u)),
              signed_in_store now u d,
            ))).1
          ≡ d
    go true c h = refl
    go false true h = refl
    go false false h = rw h refl

login_refused :
    (sec : Security) (u : User) (email password : String) (now : ℕ) (d : Directory)
    → user_by_email sec d (sec.lower (strip email)) ≡ some u
    → sec.verify password u.password_hash ≡ false
    → (login sec email password now d).1 ≡ d
unfolding login authenticate
login_refused sec u email password now d found wrong =
    rw found (refused_by sec u password now d wrong)

after_logins-wrong :
    (sec : Security) (u : User) (attempts : List Attempt) (d : Directory)
    → AllWrong sec d u attempts
    → after_logins sec attempts d ≡ d
unfolding after_logins
after_logins-wrong sec u [] d h = refl
after_logins-wrong sec u (a ∷ rest) d (found, wrong, later) =
    rw (login_refused sec u a.email a.password a.at d found wrong)
      (after_logins-wrong sec u rest d later)

login_right :
    (sec : Security) (u : User) (email password : String) (now : ℕ) (d : Directory)
    → user_by_email sec d (sec.lower (strip email)) ≡ some u
    → is_locked u now ≡ false
    → u.is_active ≡ true
    → sec.verify password u.password_hash ≡ true
    → (login sec email password now d).0
      ≡ ok (signed_in now u, issue_claims (signed_in_store now u d) (signed_in now u))
unfolding login authenticate sign_in
login_right sec u email password now d found free live right =
    rw found (rw free (rw live (rw right refl)))

-- Over requests an account is never locked: after any number of wrong passwords for it, at any times, a
-- request with the right one signs in, if the account was active and not locked before.
pub login_never_locks :
    (sec : Security) (d : Directory) (u : User) (attempts : List Attempt) (email password : String)
    (now : ℕ)
    → AllWrong sec d u attempts
    → user_by_email sec d (sec.lower (strip email)) ≡ some u
    → is_locked u now ≡ false
    → u.is_active ≡ true
    → sec.verify password u.password_hash ≡ true
    → (login sec email password now (after_logins sec attempts d)).0
      ≡ ok (signed_in now u, issue_claims (signed_in_store now u d) (signed_in now u))
login_never_locks sec d u attempts email password now wrong found free live right =
    rw (after_logins-wrong sec u attempts d wrong)
      (login_right sec u email password now d found free live right)

-- The row after a number of wrong passwords at one moment, were they kept.
unfoldable pub failed_times : Security → ℕ → ℕ → User → User
failed_times sec now zero u = u
failed_times sec now (suc n) u = failed_times sec now n (failed_attempt sec now u)

failed_attempt-count :
    (sec : Security) (now : ℕ) (u : User)
    → suc u.failed_login_count < sec.login_max_attempts
    → (failed_attempt sec now u).failed_login_count ≡ suc u.failed_login_count
unfolding failed_attempt
failed_attempt-count sec now u h = ground arith

failed_attempt-locks :
    (sec : Security) (now : ℕ) (u : User)
    → sec.login_max_attempts ≤ suc u.failed_login_count
    → 1 ≤ sec.login_lockout
    → is_locked (failed_attempt sec now u) now ≡ true
unfolding failed_attempt is_locked
failed_attempt-locks sec now u h k = ground arith

-- Within one session the lock works: as many wrong passwords as are left to the account lock it.
pub failed_times-locks :
    (sec : Security) (now n : ℕ) (u : User)
    → u.failed_login_count + suc n ≡ sec.login_max_attempts
    → 1 ≤ sec.login_lockout
    → is_locked (failed_times sec now (suc n) u) now ≡ true
unfolding failed_times
failed_times-locks sec now zero u h k = failed_attempt-locks sec now u (omega (arith, h)) k
failed_times-locks sec now (suc n) u h k =
    failed_times-locks sec now n (failed_attempt sec now u)
      (rw (failed_attempt-count sec now u (omega (arith, h))) (omega (arith, h))) k
