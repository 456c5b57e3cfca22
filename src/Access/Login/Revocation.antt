-- ===== src/Access/Login/Revocation.antt =====
-- backend/app/services/access.py and backend/app/api/deps.py: a change of the password ends the sessions
-- that were open.
use appbi_integration.Base.{
  ℕ, suc, String, ◌≡◌, refl, ap, ◌∙◌, Bool, true, false, not, Option, some, List, [], ◌∷◌, map,
  ◌==◌, ==_refl, arith, Bool-cases, inl, inr, if◌then◌else◌, ◌≤◌,
}
use appbi_integration.Base.Lists.{find_first}
use appbi_integration.Errors.{
  Result, ok, err, session_revoked, invalid_credentials, password_too_weak, ok-injective,
}
use appbi_integration.Access.{
  User, Directory, Security, Claims, write_user, write_user_row, user_by_id,
}
use appbi_integration.Access.Password.{password_problems, is_acceptable}
use appbi_integration.Access.Login.{
  admit, current_user, change_password, password_changed, issue_claims,
}

find-write_user_row :
    (u : User) (l : List User) (old : User)
    → find_first (λ x. x.id == u.id) l ≡ some old
    → find_first (λ x. x.id == u.id) (map (write_user_row u) l) ≡ some u
find-write_user_row u [] old h = cc
find-write_user_row u (x ∷ l) old h = elim (Bool-cases (x.id == u.id)) [
  | inl q ↦ rw q (rw (==_refl u.id) refl)
  | inr q ↦ rw q (rw q (find-write_user_row u l old (rw q at h)))
]

-- After a row is written, it is the row of its id.
pub user_by_id-write_user :
    (d : Directory) (u old : User)
    → user_by_id d u.id ≡ some old
    → user_by_id (write_user u d) u.id ≡ some u
unfolding user_by_id write_user
user_by_id-write_user d u old h = find-write_user_row u d.users old h

changed_by :
    (sec : Security) (d d' : Directory) (u : User) (current new : String) (claims : Claims)
    → change_password sec u current new d ≡ ok (claims, d')
    → (issue_claims (write_user (password_changed sec new u) d) (password_changed sec new u)
        ≡ claims)
      × (write_user (password_changed sec new u) d ≡ d')
unfolding change_password
changed_by sec d d' u current new claims run =
    go (not (sec.verify current u.password_hash)) (not (is_acceptable (password_problems sec new)))
      run
  where
    go :
        (b c : Bool)
        → ◌≡◌ {A = Result (Claims × Directory)}
            (if b
              then err invalid_credentials
              else if c
              then err password_too_weak
              else ok (
                issue_claims
                    (write_user (password_changed sec new u) d)
                    (password_changed sec new u),
                write_user (password_changed sec new u) d,
              ))
            (ok (claims, d'))
        → (issue_claims (write_user (password_changed sec new u) d) (password_changed sec new u)
            ≡ claims)
          × (write_user (password_changed sec new u) d ≡ d')
    go true c h = cc
    go false true h = cc
    go false false h =
        let same = ok-injective h in
        (ap (λ (p : Claims × Directory). p.0) same, ap (λ (p : Claims × Directory). p.1) same)

found_changed :
    (sec : Security) (d : Directory) (u : User) (new : String)
    → user_by_id d u.id ≡ some u
    → user_by_id (write_user (password_changed sec new u) d) u.id
      ≡ some (password_changed sec new u)
unfolding password_changed
found_changed sec d u new found = user_by_id-write_user d (password_changed sec new u) u found

found_claims :
    (sec : Security) (d : Directory) (u : User) (new : String)
    → user_by_id (write_user (password_changed sec new u) d) u.id
      ≡ some (password_changed sec new u)
    → user_by_id
        (write_user (password_changed sec new u) d)
        (issue_claims (write_user (password_changed sec new u) d) (password_changed sec new u)).sub
      ≡ some (password_changed sec new u)
unfolding issue_claims password_changed
found_claims sec d u new found = found

admit_found :
    (d : Directory) (claims : Claims) (o : Option User)
    → user_by_id d claims.sub ≡ o
    → current_user d claims ≡ admit claims o
unfolding current_user
admit_found d claims o h = rw h refl

admit_old :
    (sec : Security) (new : String) (u : User) (ws : Option ℕ) (version : ℕ)
    → u.is_active ≡ true
    → version ≤ u.session_version
    → admit (record { sub = u.id; ws = ws; sv = version }) (some (password_changed sec new u))
      ≡ err session_revoked
unfolding password_changed
admit_old sec new u ws version live old = rw live (rw (differs version u.session_version old) refl)
  where
    differs : (a b : ℕ) → a ≤ b → (a == suc b) ≡ false
    differs a b h = ground arith

admit_new :
    (sec : Security) (d : Directory) (new : String) (u : User)
    → u.is_active ≡ true
    → admit (issue_claims d (password_changed sec new u)) (some (password_changed sec new u))
      ≡ ok (password_changed sec new u)
unfolding password_changed issue_claims
admit_new sec d new u live = rw live (rw (==_refl (suc u.session_version)) refl)

-- After a successful change of the password, no token of an earlier session version is admitted, and
-- the token that the change returns is, if the account is active.
pub change_password_revokes :
    (sec : Security) (d d' : Directory) (u : User) (current new : String) (claims : Claims)
    (version : ℕ) (ws : Option ℕ)
    → user_by_id d u.id ≡ some u
    → u.is_active ≡ true
    → change_password sec u current new d ≡ ok (claims, d')
    → version ≤ u.session_version
    → (current_user d' (record { sub = u.id; ws = ws; sv = version }) ≡ err session_revoked)
      × (current_user d' claims ≡ ok (password_changed sec new u))
change_password_revokes sec d d' u current new claims version ws found live run old =
    let (told, written) = changed_by sec d d' u current new claims run in
    let found' = found_changed sec d u new found in
    (
      rw (← written) (
          admit_found (write_user (password_changed sec new u) d)
            (record { sub = u.id; ws = ws; sv = version }) _ found'
          ∙ admit_old sec new u ws version live old),
      rw (← written) (
          rw (← told) (
            admit_found (write_user (password_changed sec new u) d)
              (issue_claims (write_user (password_changed sec new u) d)
                (password_changed sec new u))
              (some (password_changed sec new u)) (found_claims sec d u new found')
            ∙ admit_new sec (write_user (password_changed sec new u) d) new u live)),
    )
