-- ===== src/Mfa.antt =====
-- na_sso/mfa.py: the second factors of an operator. What third-party libraries do (HMAC and SHA-256,
-- Fernet, signed cookies, WebAuthn) is a parameter.
pub mod Totp
pub mod Digits
pub mod Rows
pub mod Steps
pub mod Once
pub mod Counters
pub mod Backing
pub mod Handlers
pub mod Logins
pub mod Factors
pub mod Examples
use na_sso.Prelude.{
  ℕ, ℤ, pos, negsuc, ltb_ℤ, ◌+◌, ◌-◌, ◌*◌, String, Bool, true, false, not, ◌&&◌, ◌||◌, Option, none,
  some, is_some, List, [], ◌∷◌, map, filter, length, ltb, leb, ◌==◌, if◌then◌else◌, str_eq,
  str_append, holds_text,
}
use na_sso.Outcome.{Outcome, returned, raised}
use na_sso.Models.{ManagedUser, AccountStatus, active, disabled, is_root}
use na_sso.Lifecycle.Values.{is_delete}
use na_sso.Permissions.{PermissionContext, permission_context, default_home}
use Totp.{matching_totp_counter}
use Rows.{
  Text, AdminMfa, WebAuthnCredential, MfaStore, Session, Reply, redirect, page, refused, plain,
  row_or_new, totp_secret_of, hashes_of, method_count, account_has_mfa, can_revoke, audited,
}

-- The policy, the clock and the functions of libraries: `new_codes` are the texts of a fresh set.
pub record MfaWorld : Type 0 where
  pub required : Bool
  pub reauthentication_minutes : ℕ
  pub clock : ℕ
  pub is_digit : ℕ → Bool
  pub upper : Text → Text
  pub hmac_sha1 : String → ℕ → List ℕ
  pub hmac_sha256 : Text → String
  pub sha256 : Text → String
  pub encrypt_secret : String → String
  pub decrypt_secret : String → String
  pub root_recovery_code : Option Text
  pub new_codes : List Text
  pub decimal : ℕ → String

pub data Method : Type 0 where
  by_totp by_recovery_code by_emergency_code : Method

abbrev pub method_text : Method → String
method_text by_totp = "totp"
method_text by_recovery_code = "recovery_code"
method_text by_emergency_code = "root_emergency_code"

-- `any(permission_context(role).values())`.
abbrev pub operator : String → Bool
operator role = let c = permission_context role in c.users || c.targets || c.audit || c.roles

unfoldable pub account_requires_mfa : Bool → String → MfaStore → Bool
account_requires_mfa required role s = operator role && (required || account_has_mfa s)

-- Upper case, without hyphens and spaces.
abbrev normalised : MfaWorld → Text → Text
normalised x code = filter (λ c. not (c == 45) && not (c == 32)) (x.upper code)

unfoldable pub recovery_hash : MfaWorld → Text → String
recovery_hash x code = x.hmac_sha256 (normalised x code)

unfoldable pub emergency_hash : MfaWorld → Text → String
emergency_hash x code = x.sha256 (normalised x code)

-- The hashes without the first one that equals the candidate, or none where there is no such hash.
unfoldable pub take_hash : String → List String → Option (List String)
take_hash candidate [] = none
take_hash candidate (stored ∷ rest) =
    let later = take_hash candidate rest in
    if str_eq candidate stored
    then some rest
    else elim later [ none ↦ none | some left ↦ some (stored ∷ left) ]

abbrev pub last_counter : Option AdminMfa → ℤ
last_counter none = negsuc 0
last_counter (some row) = row.totp_last_counter

abbrev pub used_hash : Option AdminMfa → Option String
used_hash none = none
used_hash (some row) = row.emergency_code_used_hash

module _ (x : MfaWorld) where
  abbrev pub with_used : String → MfaStore → MfaStore
  with_used hash s = record s {
    row = some (record (row_or_new s.row) { emergency_code_used_hash = some hash });
  }

  -- The code of the root account that the configuration holds.
  abbrev pub consume_emergency : Option Text → String → Text → MfaStore → Option Method × MfaStore
  consume_emergency none role code s = (none, s)
  consume_emergency (some configured) role code s =
      let hash = emergency_hash x configured in
      if str_eq role "root"
        && str_eq (emergency_hash x code) hash
        && not (holds_text (used_hash s.row) hash)
      then (some by_emergency_code, with_used hash s)
      else (none, s)

  abbrev pub with_hashes : List String → MfaStore → MfaStore
  with_hashes hashes s = record s {
    row = some (record (row_or_new s.row) { recovery_code_hashes = hashes });
  }

  abbrev pub settle_recovery :
      Option (List String) → String → Text → MfaStore → Option Method × MfaStore
  settle_recovery (some left) role code s = (some by_recovery_code, with_hashes left s)
  settle_recovery none role code s = consume_emergency x.root_recovery_code role code s

  unfoldable pub consume_recovery : String → Text → MfaStore → Option Method × MfaStore
  consume_recovery role code s =
      settle_recovery (take_hash (recovery_hash x code) (hashes_of s.row)) role code s

  abbrev pub counter_for : Option String → Text → Outcome (Option ℕ)
  counter_for none code = returned none
  counter_for (some secret) code =
      matching_totp_counter x.hmac_sha1 x.is_digit x.clock (x.decrypt_secret secret) code

  abbrev with_counter : ℕ → MfaStore → MfaStore
  with_counter c s = record s {
    row = some (record (row_or_new s.row) { totp_last_counter = pos c });
  }

  abbrev pub by_counter : Option ℕ → String → Text → MfaStore → Option Method × MfaStore
  by_counter none role code s = consume_recovery role code s
  by_counter (some c) role code s =
      if ltb_ℤ (last_counter s.row) (pos c)
      then (some by_totp, with_counter c s)
      else consume_recovery role code s

  abbrev pub by_match :
      Outcome (Option ℕ) → String → Text → MfaStore → Outcome (Option Method) × MfaStore
  by_match (returned counter) role code s =
      let (method, s') = by_counter counter role code s in (returned method, s')
  by_match (raised fault) role code s = (raised fault, s)

  -- The method by which a code is accepted, and the rows after it.
  unfoldable pub accept_code : String → Text → MfaStore → Outcome (Option Method) × MfaStore
  accept_code role code s = by_match (counter_for (totp_secret_of s.row) code) role code s
