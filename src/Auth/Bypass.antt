-- ===== src/Auth/Bypass.antt =====
-- The sign-in of an account whose password has to be decided on.
use na_sso.Prelude.{ℕ, String, ◌≡◌, sym, ap, ◌∙◌, Bool, true, false, Option, some, arith}
use na_sso.Outcome.{Outcome, returned, raised}
use na_sso.Models.{ManagedUser, UnitOfWork}
use na_sso.Permissions.{Permission, has_permission}
use na_sso.Mfa.Rows.{MfaStore, Session, session}
use na_sso.Sync.Conclude.{World}
use na_sso.Auth.{
  is_valid, account_of, current_user, admitted, permission_guard, LoginReply, login, try_password,
  welcomed, seen,
}
use na_sso.Sync.Handoff.{credential_handoff}

module _ (x : World) (mfa : MfaStore) (verify : String → String → Bool)
    (secret password : String) where
  -- The session that a sign-in with the password alone hands out.
  abbrev pub full_session : ManagedUser → Session
  full_session u = session x.now u.id u.session_version true 0

  welcomed-session :
      (u : ManagedUser) (r : Outcome (Unit {0}) × UnitOfWork) (reply : LoginReply)
      (w' : Option UnitOfWork)
      → u.password_decision_required ≡ true
      → welcomed false x mfa u r ≡ (returned reply, w')
      → reply.session_cookie ≡ some (full_session u)
  welcomed-session u (returned done, w) reply w' d e = ground arith
  welcomed-session u (raised f, w) reply w' d e = ground arith

  guard-admits :
      (mfa_of : ℕ → MfaStore) (accounts : ℕ → Option ManagedUser) (u : ManagedUser) (p : Permission)
      → accounts u.id ≡ some u
      → is_valid u (full_session u) ≡ true
      → has_permission u.role p ≡ true
      → permission_guard false mfa_of accounts (some (full_session u)) p
        ≡ admitted (account_of u (full_session u))
  unfolding permission_guard current_user
  guard-admits mfa_of accounts u p e v h = rw e (ground arith)

  right_password :
      (hash : String) (w : UnitOfWork)
      → verify password hash ≡ true
      → is_valid w.user (full_session w.user) ≡ true
      → try_password false x mfa verify secret password (some hash) w
        ≡ welcomed false x mfa w.user (credential_handoff x secret (seen false x mfa w))
  right_password hash w right valid = ground arith

  -- Where the policy requires no second factor, an account whose password has to be decided on gets for
  -- its password alone, whatever factors it has enrolled, a session that counts as verified; and the
  -- guard admits that session, while the account is as it was, for each permission of its role.
  pub login-admitted :
      (w : UnitOfWork) (hash : String) (reply : LoginReply) (w' : Option UnitOfWork)
      → w.user.password_hash ≡ some hash
      → verify password hash ≡ true
      → w.user.password_decision_required ≡ true
      → is_valid w.user (full_session w.user) ≡ true
      → login false x mfa verify secret password (some w) ≡ (returned reply, w')
      → (reply.session_cookie ≡ some (full_session w.user))
        × ((mfa_of : ℕ → MfaStore) (accounts : ℕ → Option ManagedUser) (p : Permission)
            → accounts w.user.id ≡ some w.user
            → has_permission w.user.role p ≡ true
            → permission_guard false mfa_of accounts reply.session_cookie p
              ≡ admitted (account_of w.user (full_session w.user)))
  unfolding login
  login-admitted w hash reply w' stored right restricted valid ran =
      let ran' : try_password false x mfa verify secret password (some hash) w
          ≡ (returned reply, w') =
        ap (λ h. try_password false x mfa verify secret password h w) (sym stored) ∙ ran in
      let ran'' : welcomed false x mfa w.user (credential_handoff x secret (seen false x mfa w))
          ≡ (returned reply, w') =
        sym (right_password hash w right valid) ∙ ran' in
      let given =
        welcomed-session w.user (credential_handoff x secret (seen false x mfa w)) reply w'
          restricted ran'' in
      (given, λ mfa_of accounts p e h. rw given (guard-admits mfa_of accounts w.user p e valid h))
