-- ===== src/Auth/Examples.antt =====
-- Runs of the sign-in: an auditor who has enrolled an authenticator and is to decide on a password.
use na_sso.Prelude.{pos, ℕ, ◌≡◌, refl, Bool, true, false, Option, none, some, []}
use na_sso.Models.{is_root, ManagedUser, UnitOfWork}
use na_sso.Permissions.{Permission, view_audit, has_permission, permission_context}
use na_sso.Samples.{alice, work, calm}
use na_sso.Mfa.Rows.{MfaStore, Session, session, redirect, account_has_mfa}
use na_sso.Mfa.{account_requires_mfa}
use na_sso.Mfa.Totp.{matching_totp_counter, totp, code_of, compare_digest}
use na_sso.Mfa.{accept_code}
use na_sso.Mfa.Handlers.{Pending, mfa_login_code, pending_account, finish_login}
use na_sso.Mfa.Logins.{IsLogin, mfa_login_code-IsLogin}
use na_sso.Mfa.Examples.{at_noon, held, zero_code}
use na_sso.Sync.Handoff.{credential_handoff}
use na_sso.Auth.{account_of, current_user, admitted, permission_guard, LoginReply, login}
use na_sso.Auth.Guard.{IsSignedIn, permission_guard-IsSignedIn}
use na_sso.Auth.Bypass.{login-admitted}

abbrev auditing : ManagedUser
auditing = record (alice []) { role = "auditor"; password_decision_required = true }

abbrev found_work : UnitOfWork
found_work = record (work []) { user = auditing }

abbrev enrolled : MfaStore
enrolled = record {
  row = some record {
    totp_secret = some "S";
    totp_last_counter = pos 0;
    recovery_code_hashes = [];
    emergency_code_used_hash = none;
  };
  credentials = [];
  audit = [];
}

abbrev directory : ℕ → Option ManagedUser
directory id = some auditing

abbrev token : Session
token = session 1000 7 1 true 0

abbrev reply : LoginReply
reply = record {
  body = redirect "/account/password-decision";
  session_cookie = some token;
  pending_cookie = none;
}

abbrev left : UnitOfWork
left = record found_work { user = record auditing { last_authenticated_at = some 1000 } }

permission_guard-IsSignedIn_example :
    IsSignedIn directory (some token) (account_of auditing token)
    × (has_permission "auditor" view_audit ≡ true)
    × (account_requires_mfa false "auditor" enrolled ≡ true → Bool.true ≡ true)
unfolding permission_guard current_user account_requires_mfa has_permission account_has_mfa
    permission_context
permission_guard-IsSignedIn_example =
    permission_guard-IsSignedIn false (λ id. enrolled) directory (some token) view_audit
      (account_of auditing token) refl

login-admitted_example :
    (reply.session_cookie ≡ some token)
    × ((mfa_of : ℕ → MfaStore) (accounts : ℕ → Option ManagedUser) (p : Permission)
        → accounts 7 ≡ some auditing
        → has_permission "auditor" p ≡ true
        → permission_guard false mfa_of accounts (some token) p
          ≡ admitted (account_of auditing token))
unfolding login credential_handoff permission_context has_permission account_has_mfa is_root
login-admitted_example =
    login-admitted calm enrolled (λ p h. true) "sealed" "pw" found_work "hash" reply (some left)
      refl refl refl refl refl

abbrev waiting : Pending
waiting = record { id = 7; session_version = 1; authenticated_at = 990 }

abbrev after_code : MfaStore
after_code = (mfa_login_code at_noon directory (some waiting) zero_code held).1

mfa_login_code-IsLogin_example : IsLogin directory (some waiting) (session 1000 7 1 true 990)
unfolding mfa_login_code pending_account accept_code matching_totp_counter totp code_of
    compare_digest finish_login permission_context has_permission
mfa_login_code-IsLogin_example =
    mfa_login_code-IsLogin at_noon directory (some waiting) zero_code held after_code
      (finish_login at_noon auditing 990) (session 1000 7 1 true 990) refl refl
