-- ===== src/ServiceAccounts.antt =====
-- na_sso/service_accounts.py: the credentials of service accounts.
pub mod Credentials
pub mod Revocation
mod Examples
use na_sso.Prelude.{
  ℕ, ◌+◌, ◌-◌, ◌*◌, String, Bool, true, false, not, ◌&&◌, ◌||◌, Option, none, some, is_some, List,
  [], ◌∷◌, ◌++◌, map, filter, length, ltb, leb, ◌==◌, min, str_eq, str_append, if◌then◌else◌,
}
use na_sso.Outcome.{Fault, value_error, Outcome, returned, raised}
use na_sso.Models.{AuditEvent}
use na_sso.Permissions.{Permission, manage_users, manage_targets, view_audit}
use na_sso.Mfa.Rows.{Text}

pub record ServiceAccount : Type 0 where
  pub id : String
  pub name : String
  pub permissions : List Permission
  pub expires_at : Option ℕ
  pub revoked_at : Option ℕ
  pub revoked_by : Option String

pub record ServiceAccountCredential : Type 0 where
  pub id : String
  pub service_account_id : String
  pub label : Text
  pub token_prefix : String
  pub token_hash : String
  pub created_by : String
  pub expires_at : ℕ
  pub last_used_at : Option ℕ
  pub revoked_at : Option ℕ
  pub revoked_by : Option String

pub record ServiceStore : Type 0 where
  pub accounts : List ServiceAccount
  pub credentials : List ServiceAccountCredential
  pub audit : List AuditEvent

-- What a request learns of the account that it authenticates.
pub record ServicePrincipal : Type 0 where
  pub id : String
  pub username : String
  pub permissions : List Permission
  pub credential_id : String

-- The prefix that TOKEN_RE finds in a token, the keyed hash of a token, `str.isspace`, the texts of the audit
-- rows, and what the secrets module and uuid4 make.
pub record ServiceWorld : Type 0 where
  pub now : ℕ
  pub max_token_days : ℕ
  pub prefix_of : String → Option String
  pub token_hash : String → String
  pub is_space : ℕ → Bool
  pub issued_detail : ServiceAccountCredential → String
  pub revoked_detail : ServiceAccountCredential → String
  pub count_detail : ℕ → String
  pub new_id : String
  pub new_prefix : String
  pub new_token : String

unfoldable pub find_account : String → List ServiceAccount → Option ServiceAccount
find_account id [] = none
find_account id (a ∷ rest) = if str_eq a.id id then some a else find_account id rest

unfoldable pub modify_account :
    String → (ServiceAccount → ServiceAccount) → List ServiceAccount → List ServiceAccount
modify_account id f [] = []
modify_account id f (a ∷ rest) = (if str_eq a.id id then f a else a) ∷ modify_account id f rest

unfoldable pub find_credential :
    String → List ServiceAccountCredential → Option ServiceAccountCredential
find_credential id [] = none
find_credential id (c ∷ rest) = if str_eq c.id id then some c else find_credential id rest

-- The credential of a prefix, which is a unique key.
unfoldable pub by_prefix : String → List ServiceAccountCredential → Option ServiceAccountCredential
by_prefix prefix [] = none
by_prefix prefix (c ∷ rest) = if str_eq c.token_prefix prefix then some c else by_prefix prefix rest

unfoldable pub modify_credential :
    String
    → (ServiceAccountCredential → ServiceAccountCredential)
    → List ServiceAccountCredential
    → List ServiceAccountCredential
modify_credential id f [] = []
modify_credential id f (c ∷ rest) =
    (if str_eq c.id id then f c else c) ∷ modify_credential id f rest

abbrev pub is_past : ℕ → Option ℕ → Bool
is_past now none = false
is_past now (some t) = leb t now
