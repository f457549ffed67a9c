-- ===== src/Mfa/Rows.antt =====
-- na_sso/models.py and na_sso/mfa.py: the second factors of one account, and the replies of a handler.
use na_sso.Prelude.{
  ℕ, ℤ, negsuc, ◌+◌, String, Bool, not, ◌||◌, Option, none, some, is_some, List, [], ◌∷◌, ◌++◌,
  length, ltb, ◌==◌, if◌then◌else◌,
}
use na_sso.Models.{AuditEvent}

-- The codes of a text, as its code points.
abbrev pub Text : Type 0
Text = List ℕ

pub record AdminMfa : Type 0 where
  pub totp_secret : Option String
  pub totp_last_counter : ℤ
  pub recovery_code_hashes : List String
  pub emergency_code_used_hash : Option String

pub record WebAuthnCredential : Type 0 where
  pub id : ℕ
  pub credential_id : String
  pub name : String
  pub sign_count : ℕ

-- The rows of one account, and the audit trail.
pub record MfaStore : Type 0 where
  pub row : Option AdminMfa
  pub credentials : List WebAuthnCredential
  pub audit : List AuditEvent

-- The contents of the session cookie.
pub record Session : Type 0 where
  pub id : ℕ
  pub session_version : ℕ
  pub mfa_verified : Bool
  pub authenticated_at : ℕ

-- What `current_user` tells of the account that is signed in.
pub record Account : Type 0 where
  pub id : ℕ
  pub username : String
  pub role : String
  pub session_version : ℕ
  pub mfa_verified : Bool
  pub authenticated_at : ℕ
  pub restricted : Bool

pub data Body : Type 0 where
  redirect page : String → Body
  refused : ℕ → String → Body

-- A reply, with the session cookie that it sets and the new recovery codes that it shows.
pub record Reply : Type 0 where
  pub body : Body
  pub cookie : Option Session
  pub codes : List Text

abbrev pub plain : Body → Reply
plain body = record { body = body; cookie = none; codes = [] }

abbrev blank : AdminMfa
blank = record {
  totp_secret = none;
  totp_last_counter = negsuc 0;
  recovery_code_hashes = [];
  emergency_code_used_hash = none;
}

-- `_mfa_row(db, user_id, create=True)`.
abbrev pub row_or_new : Option AdminMfa → AdminMfa
row_or_new none = blank
row_or_new (some row) = row

abbrev pub totp_secret_of : Option AdminMfa → Option String
totp_secret_of none = none
totp_secret_of (some row) = row.totp_secret

abbrev pub hashes_of : Option AdminMfa → List String
hashes_of none = []
hashes_of (some row) = row.recovery_code_hashes

unfoldable pub method_count : MfaStore → ℕ
method_count s = (if is_some (totp_secret_of s.row) then 1 else 0) + length s.credentials

-- `account_has_mfa`: a time-based secret or a passkey.
unfoldable pub account_has_mfa : MfaStore → Bool
account_has_mfa s = is_some (totp_secret_of s.row) || not (length s.credentials == 0)

unfoldable pub can_revoke : Bool → MfaStore → Bool
can_revoke required s = not required || ltb 1 (method_count s)

abbrev pub audited : String → String → String → MfaStore → MfaStore
audited actor action detail s = record s {
  audit =
      s.audit
      ++ record {
        actor = actor;
        action = action;
        subject = actor;
        detail = detail;
        operation_id = none;
      }
        ∷ [];
}

-- `authenticated_at or int(time())`.
abbrev pub session : ℕ → ℕ → ℕ → Bool → ℕ → Session
session clock id version verified authenticated_at = record {
  id = id;
  session_version = version;
  mfa_verified = verified;
  authenticated_at = (if authenticated_at == 0 then clock else authenticated_at);
}
