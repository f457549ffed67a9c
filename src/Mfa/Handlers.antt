-- ===== src/Mfa/Handlers.antt =====
-- na_sso/mfa.py: the sign-in with a code after the password.
use na_sso.Prelude.{
  ℕ, String, Bool, true, false, not, ◌||◌, Option, none, some, List, [], ◌∷◌, ◌==◌, if◌then◌else◌,
  str_eq, str_append,
}
use na_sso.Outcome.{Outcome, returned, raised}
use na_sso.Models.{ManagedUser, AccountStatus, active, disabled}
use na_sso.Lifecycle.Values.{is_delete}
use na_sso.Permissions.{default_home}
use na_sso.Mfa.Rows.{
  Text, WebAuthnCredential, MfaStore, Reply, redirect, refused, plain, audited, session,
}
use na_sso.Mfa.{MfaWorld, Method, method_text, operator, accept_code}

-- The signed contents of the cookie that a password login leaves, after the check of its signature.
pub record Pending : Type 0 where
  pub id : ℕ
  pub session_version : ℕ
  pub authenticated_at : ℕ

abbrev pub is_active_account : AccountStatus → Bool
is_active_account active = true
is_active_account disabled = false

abbrev pub still_pending : Pending → Option ManagedUser → Option (ManagedUser × Pending)
still_pending token none = none
still_pending token (some account) =
    if not (operator account.role)
      || not (is_active_account account.status)
      || is_delete account.desired_action
      || not (account.session_version == token.session_version)
    then none
    else some (account, token)

unfoldable pub pending_account :
    (ℕ → Option ManagedUser) → Option Pending → Option (ManagedUser × Pending)
pending_account accounts none = none
pending_account accounts (some token) = still_pending token (accounts token.id)

module _ (x : MfaWorld) where
  unfoldable pub finish_login : ManagedUser → ℕ → Reply
  finish_login account authenticated_at = record {
    body = redirect (default_home account.role);
    cookie = some (session x.clock account.id account.session_version true authenticated_at);
    codes = [];
  }

  abbrev pub conclude_code :
      ManagedUser → Pending → Outcome (Option Method) × MfaStore → Outcome Reply × MfaStore
  conclude_code account token (raised fault, s) = (raised fault, s)
  conclude_code account token (returned none, s) =
      (returned (plain (refused 401 "The authenticator or recovery code was not accepted.")), s)
  conclude_code account token (returned (some method), s) = (
    returned (finish_login account token.authenticated_at),
    audited account.username "mfa.login" (str_append "method=" (method_text method)) s,
  )

  abbrev pub code_login :
      Option (ManagedUser × Pending) → Text → MfaStore → Outcome Reply × MfaStore
  code_login none code s = (returned (plain (redirect "/login")), s)
  code_login (some (account, token)) code s =
      conclude_code account token (accept_code x account.role code s)

  -- The rows are those of the pending account.
  unfoldable pub mfa_login_code :
      (ℕ → Option ManagedUser) → Option Pending → Text → MfaStore → Outcome Reply × MfaStore
  mfa_login_code accounts token code s = code_login (pending_account accounts token) code s

  -- `filter_by(credential_id=...).one()`, which raises where there is no such passkey.
  find_passkey : String → List WebAuthnCredential → Option WebAuthnCredential
  find_passkey key [] = none
  find_passkey key (c ∷ rest) =
      let later = find_passkey key rest in if str_eq c.credential_id key then some c else later

  set_count : ℕ → ℕ → List WebAuthnCredential → List WebAuthnCredential
  set_count id n [] = []
  set_count id n (c ∷ rest) =
      (if c.id == id then record c { sign_count = n } else c) ∷ set_count id n rest

  abbrev counted : ManagedUser → WebAuthnCredential → ℕ → MfaStore → MfaStore
  counted account c n s =
      audited account.username "mfa.login"
        (str_append "method=webauthn; credential=" (x.decimal c.id))
        (record s { credentials = set_count c.id n s.credentials })

  abbrev passkey_failed : Reply
  passkey_failed = plain (refused 401 "Passkey verification failed")

  abbrev conclude_passkey :
      ManagedUser
      → Pending
      → Option WebAuthnCredential
      → (WebAuthnCredential → Option ℕ)
      → MfaStore
      → Reply × MfaStore
  conclude_passkey account token none verify s = (passkey_failed, s)
  conclude_passkey account token (some c) verify s = elim (verify c) [
    | none ↦ (passkey_failed, s)
    | some n ↦ (finish_login account token.authenticated_at, counted account c n s)
  ]

  abbrev passkey_login :
      Option (ManagedUser × Pending)
      → String
      → (WebAuthnCredential → Option ℕ)
      → MfaStore
      → Reply × MfaStore
  passkey_login none key verify s = (plain (refused 401 "Login expired"), s)
  passkey_login (some (account, token)) key verify s =
      conclude_passkey account token (find_passkey key s.credentials) verify s

  -- The library answers for the row of a passkey with its new count, or not at all.
  unfoldable pub mfa_authentication_verify :
      (ℕ → Option ManagedUser)
      → Option Pending
      → String
      → (WebAuthnCredential → Option ℕ)
      → MfaStore
      → Reply × MfaStore
  unfolding find_passkey set_count
  mfa_authentication_verify accounts token key verify s =
      passkey_login (pending_account accounts token) key verify s
