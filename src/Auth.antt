-- ===== src/Auth.antt =====
-- na_sso/auth.py: the password sign-in, the session and the guard in front of the handlers. Signed
-- cookies are their contents after the check of the signature and the age.
pub mod Guard
pub mod Bypass
mod Examples
use na_sso.Prelude.{
  ℕ, String, Bool, true, false, not, ◌&&◌, ◌||◌, Option, none, some, List, [], ◌∷◌, ◌==◌,
  if◌then◌else◌,
}
use na_sso.Outcome.{Outcome, returned, raised}
use na_sso.Models.{ManagedUser, UnitOfWork}
use na_sso.Lifecycle.Values.{is_delete}
use na_sso.Permissions.{Permission, has_permission, default_home}
use na_sso.Mfa.Rows.{MfaStore, Session, Account, Body, redirect, refused, account_has_mfa, session}
use na_sso.Mfa.{operator, account_requires_mfa}
use na_sso.Mfa.Handlers.{Pending, is_active_account}
use na_sso.Sync.Conclude.{World}
use na_sso.Sync.Handoff.{credential_handoff}

-- The account is gone, disabled or being deleted, or its sessions were ended.
abbrev pub is_valid : ManagedUser → Session → Bool
is_valid account token =
    is_active_account account.status
    && not (is_delete account.desired_action)
    && (account.session_version == token.session_version)

abbrev pub account_of : ManagedUser → Session → Account
account_of account token = record {
  id = account.id;
  username = account.username;
  role = account.role;
  session_version = account.session_version;
  mfa_verified = token.mfa_verified;
  authenticated_at = token.authenticated_at;
  restricted = account.password_decision_required;
}

abbrev pub checked : Option ManagedUser → Session → Option Account
checked none token = none
checked (some account) token =
    if is_valid account token then some (account_of account token) else none

unfoldable pub current_user : (ℕ → Option ManagedUser) → Option Session → Option Account
current_user accounts none = none
current_user accounts (some token) = checked (accounts token.id) token

-- What a guard gives: the account, or the reply that turns the request away.
pub data Guarded : Type 0 where
  admitted : Account → Guarded
  turned_away : Body → Guarded

module _ (required : Bool) (mfa_of : ℕ → MfaStore) where
  abbrev pub guarded : Option Account → Permission → Guarded
  guarded none permission = turned_away (redirect "/login")
  guarded (some account) permission =
      if not (has_permission account.role permission)
      then turned_away (refused 403 "Forbidden")
      else if account_requires_mfa required account.role (mfa_of account.id)
          && not account.mfa_verified
      then turned_away (redirect "/account/mfa")
      else admitted account

  unfoldable pub permission_guard : (ℕ → Option ManagedUser) → Option Session → Permission → Guarded
  permission_guard accounts token permission = guarded (current_user accounts token) permission

-- The reply to a sign-in, with the cookie that it sets: a session, or the wait for a second factor.
pub record LoginReply : Type 0 where
  pub body : Body
  pub session_cookie : Option Session
  pub pending_cookie : Option Pending

abbrev pub rejected : LoginReply
rejected = record {
  body = refused 401 "Invalid credentials.";
  session_cookie = none;
  pending_cookie = none;
}

-- `begin_mfa_login`
abbrev pub begin_mfa_login : ℕ → ManagedUser → LoginReply
begin_mfa_login clock account = record {
  body = redirect "/login/mfa";
  session_cookie = none;
  pending_cookie = some record {
    id = account.id;
    session_version = account.session_version;
    authenticated_at = clock;
  };
}

module _ (required : Bool) (x : World) (mfa : MfaStore) where
  abbrev pub is_verified : ManagedUser → Bool
  is_verified account = not (operator account.role) || not required

  abbrev pub destination : ManagedUser → String
  destination account =
      if account.password_decision_required
      then "/account/password-decision"
      else if operator account.role && not (is_verified account)
      then "/account/mfa"
      else default_home account.role

  -- The reply once the password is right, from the account as it was read before the sign-in.
  abbrev pub welcome : ManagedUser → LoginReply
  welcome account =
      if not account.password_decision_required && operator account.role && account_has_mfa mfa
      then begin_mfa_login x.now account
      else record {
        body = redirect (destination account);
        session_cookie =
            some (session x.now account.id account.session_version (is_verified account) 0);
        pending_cookie = none;
      }

  abbrev pub welcomed :
      ManagedUser → Outcome (Unit {0}) × UnitOfWork → Outcome LoginReply × Option UnitOfWork
  welcomed account (returned done, w) = (returned (welcome account), some w)
  welcomed account (raised fault, w) = (raised fault, some w)

  abbrev pub seen : UnitOfWork → UnitOfWork
  seen w = record w { user = record w.user { last_authenticated_at = some x.now } }

  abbrev pub try_password :
      (String → String → Bool)
      → String
      → String
      → Option String
      → UnitOfWork
      → Outcome LoginReply × Option UnitOfWork
  try_password verify secret password none w = (returned rejected, some w)
  try_password verify secret password (some hash) w =
      if is_active_account w.user.status && verify password hash
      then welcomed w.user (credential_handoff x secret (seen w))
      else (returned rejected, some w)

  -- The account is the one of that name, where there is one; `verify` is bcrypt's, and the secret is
  -- what Fernet makes of the password.
  unfoldable pub login :
      (String → String → Bool)
      → String
      → String
      → Option UnitOfWork
      → Outcome LoginReply × Option UnitOfWork
  login verify secret password none = (returned rejected, none)
  login verify secret password (some w) = try_password verify secret password w.user.password_hash w
